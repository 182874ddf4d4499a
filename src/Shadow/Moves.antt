-- ===== src/Shadow/Moves.antt =====
-- The diagram of an account's statuses that `process_book` follows, and what each part of it does there.
use mathlib.Core.Path.{subst}
use ai_coin_trading.Prelude.{
  ℕ, ◌+◌, ◌≤◌, ◌<◌, String, ◌≡◌, sym, ◌∙◌, ◌⊎◌, inl, inr, Bool, true, false, Option, none, some,
  arith, ltb, is_some, Bool-cases,
}
use ai_coin_trading.Arith.{Arith, ◌≤?◌}
use ai_coin_trading.Broker.{flat}
use ai_coin_trading.Depth.{PublicOrderBook}
use ai_coin_trading.Shadow.Book.{
  Events, is_automatic, is_open, broken_state, break_feed, recovery_intent, settle_recovery,
  must_recover, warm_up,
}
use ai_coin_trading.Shadow.Control.{is_latched}
use ai_coin_trading.Shadow.Feed.{continuity_of}
use ai_coin_trading.Shadow.Ledger.{set_run}
use ai_coin_trading.Shadow.Passage.{Applied, broke, recovered, went_on, Recovery, recover-Recovery}
use ai_coin_trading.Shadow.Recorded.{record_intent-Recorded}
use ai_coin_trading.Shadow.Resolved.{Resolved, resolve_pending-Resolved}
use ai_coin_trading.Shadow.Rows.{ShadowState}
use ai_coin_trading.Shadow.Same.{same_lifecycle, same_lifecycle_eq}
use ai_coin_trading.Shadow.Settle.{ShadowConfig, Work}
use ai_coin_trading.Shadow.Types.{
  Lifecycle, warmup, running, halted_recovery, stopped, ContinuityReason, HaltReason,
  open_position_break, done,
}

-- What the diagram sees of an account.
pub record Phase : Type 0 where
  pub phase_status : Lifecycle
  phase_halt : Option HaltReason
  pub phase_seen : ℕ

abbrev pub phase_of : {F : Type 0} → ShadowState F → Phase
phase_of s = record {
  phase_status = s.lifecycle_status;
  phase_halt = s.halt_reason;
  phase_seen = s.warmup_books_seen;
}

-- One book: `needed` books of warm-up, the break of the feed if there is one, and whether the account
-- has an open position.
pub data Moves (needed : ℕ) (why : Option ContinuityReason) (holding : Bool) (x y : Phase)
    : Type 0 where
  breaks_flat :
      is_some why ≡ true
      → is_latched x.phase_halt ≡ false
      → holding ≡ false
      → y ≡ record { phase_status = warmup; phase_halt = none; phase_seen = 0 }
      → Moves needed why holding x y
  breaks_open :
      (r : ContinuityReason)
      → why ≡ some r
      → is_latched x.phase_halt ≡ false
      → holding ≡ true
      → y ≡ record {
        phase_status = halted_recovery;
        phase_halt = some (open_position_break r);
        phase_seen = 0;
      }
      → Moves needed why holding x y
  stays :
      why ≡ none
      → same_lifecycle x.phase_status warmup ≡ false
      → y ≡ x
      → Moves needed why holding x y
  counts :
      why ≡ none
      → x.phase_status ≡ warmup
      → x.phase_seen + 1 < needed
      → y ≡ record x { phase_seen = x.phase_seen + 1 }
      → Moves needed why holding x y
  starts :
      why ≡ none
      → x.phase_status ≡ warmup
      → needed ≤ x.phase_seen + 1
      → y ≡ record { phase_status = running; phase_halt = none; phase_seen = x.phase_seen + 1 }
      → Moves needed why holding x y
  recovers_flat :
      why ≡ none
      → x.phase_status ≡ halted_recovery
      → is_automatic x.phase_halt ≡ true
      → y ≡ record { phase_status = warmup; phase_halt = none; phase_seen = 0 }
      → Moves needed why holding x y

-- Outside the diagram: a break that ends an external halt or that of a changed fingerprint.
pub record Lifts (why : Option ContinuityReason) (x y : Phase) : Type 0 where
  pub breaks : is_some why ≡ true
  pub latched : is_latched x.phase_halt ≡ true
  pub idle : same_lifecycle y.phase_status running ≡ false
  pub alive : same_lifecycle y.phase_status stopped ≡ false

abbrev pub Passes : ℕ → Option ContinuityReason → Bool → Phase → Phase → Type 0
Passes needed why holding x y = Moves needed why holding x y ⊎ Lifts why x y

module _ {F : Type 0} ⦃a : Arith F⦄ (config : ShadowConfig F) (run : String)
    (book : PublicOrderBook F) (wall : ℕ) where
  -- A part of `process_book` that moves the account and leaves the saved accounts alone.
  pub record Moved (s : ShadowState F) (w w' : Work F) : Type 0 where
    pub moves :
        Passes config.warmup_books
          (continuity_of s book)
          (is_open config s)
          (phase_of w.state)
          (phase_of w'.state)
    pub run_kept : w'.state.state_run ≡ w.state.state_run
    pub states_kept : w'.ledger.states ≡ w.ledger.states

  break_feed-Moved :
      (why : ContinuityReason) (w w' : Work F)
      → continuity_of w.state book ≡ some why
      → break_feed config run book why wall w ≡ done w'
      → Moved w.state w w'
  unfolding break_feed set_run
  break_feed-Moved why w w' breaks h =
      let same : w'.state ≡ broken_state config why w.state = ground arith in
      record {
        moves = elim (Bool-cases (is_latched w.state.halt_reason)) [
          | inl latched ↦ inr (record {
            breaks = ground arith;
            latched = latched;
            idle = ground (arith, Bool-cases (is_open config w.state));
            alive = ground (arith, Bool-cases (is_open config w.state));
          })
          | inr free ↦ elim (Bool-cases (is_open config w.state)) [
            | inl holding ↦ inl (breaks_open why breaks free holding (ground (arith, holding)))
            | inr flat ↦ inl (breaks_flat (ground arith) free flat (ground (arith, flat)))
          ]
        ];
        run_kept = ground arith;
        states_kept = ground arith;
      }

  warm_up-Moved :
      (s : ShadowState F) (w w' : Work F)
      → continuity_of s book ≡ none
      → warm_up config run book wall w ≡ done w'
      → Moved s w w'
  unfolding warm_up set_run
  warm_up-Moved s w w' goes h = record {
    moves = elim (Bool-cases (same_lifecycle w.state.lifecycle_status warmup)) [
      | inr other ↦ inl (stays goes other (ground (arith, other)))
      | inl warms ↦
          let status = same_lifecycle_eq w.state.lifecycle_status warmup warms in
          elim (Bool-cases (ltb (w.state.warmup_books_seen + 1) config.warmup_books)) [
            | inl more ↦
                inl
                  (counts goes status (ground (arith, more)) (ground (arith, warms, more, status)))
            | inr enough ↦ inl (
                starts goes status (ground (arith, enough)) (ground (arith, warms, enough, status)))
          ]
    ];
    run_kept = ground arith;
    states_kept = ground arith;
  }

  Resolved-phase : (w w' : Work F) → Resolved w w' → phase_of w'.state ≡ phase_of w.state
  Resolved-phase w w' r i = record {
    phase_status = r.lifecycle i;
    phase_halt = r.halt_kept i;
    phase_seen = r.seen i;
  }

  settle_recovery-Moved :
      (s : ShadowState F) (w w' : Work F)
      → continuity_of s book ≡ none
      → w.state.lifecycle_status ≡ halted_recovery
      → is_automatic w.state.halt_reason ≡ true
      → w' ≡ settle_recovery config run w
      → Moved s w w'
  unfolding settle_recovery set_run
  settle_recovery-Moved s w w' goes halted automatic same = record {
    moves = elim (Bool-cases (w.state.base_quantity ≤? config.position_epsilon)) [
      | inl flat ↦ inl (recovers_flat goes halted automatic (ground (arith, flat)))
      | inr left ↦ inl (stays goes (ground (arith, halted)) (ground (arith, left)))
    ];
    run_kept = ground arith;
    states_kept = ground arith;
  }

  -- A part that moves the account after one that has left its status alone.
  after-Moved :
      (s : ShadowState F) (w w₁ w' : Work F)
      → phase_of w₁.state ≡ phase_of w.state
      → w₁.state.state_run ≡ w.state.state_run
      → w₁.ledger.states ≡ w.ledger.states
      → Moved s w₁ w'
      → Moved s w w'
  after-Moved s w w₁ w' phase named states m = record {
    moves =
        subst
          (λ x.
            Passes config.warmup_books (continuity_of s book) (is_open config s) x
              (phase_of w'.state))
          phase m.moves;
    run_kept = m.run_kept ∙ named;
    states_kept = m.states_kept ∙ states;
  }

  recover-Moved :
      (s : ShadowState F) (w w' : Work F) (e : Events)
      → continuity_of s book ≡ none
      → must_recover config w.state ≡ true
      → Recovery config run book wall w w' e
      → Moved s w w'
  recover-Moved s w w' e goes must r =
      let w₁ : Work F = record w { ledger = r.recorded } in
      let (states, recorded) =
        record_intent-Recorded config run book (recovery_intent w.state) wall true
          book.received_monotonic_ns w r.recorded r.status r.order r.records in
      let sale =
        resolve_pending-Resolved config run book wall w₁ r.sold r.result e.filled r.resolves in
      let halted = same_lifecycle_eq w.state.lifecycle_status halted_recovery (ground arith) in
      let automatic : is_automatic w.state.halt_reason ≡ true = ground arith in
      after-Moved s w r.sold w' (Resolved-phase w₁ r.sold sale) sale.run (sale.states ∙ states) (
        settle_recovery-Moved s r.sold w' goes (sale.lifecycle ∙ halted)
          (subst (λ z. is_automatic z ≡ true) (sym sale.halt_kept) automatic) r.settles)

  pub Applied-Moved :
      (w w' : Work F) (e : Events) → Applied config run book wall w w' e → Moved w.state w w'
  Applied-Moved w w' e (broke why breaks ends same) = break_feed-Moved why w w' breaks ends
  Applied-Moved w w' e (recovered w₁ res fill goes first must ends) =
      let r = resolve_pending-Resolved config run book wall w w₁ res fill first in
      after-Moved w.state w w₁ w' (Resolved-phase w w₁ r) r.run r.states (
        recover-Moved w.state w₁ w' e goes must
          (recover-Recovery config run book wall w₁ w' e ends))
  Applied-Moved w w' e (went_on w₁ res fill goes first idle warms same) =
      let r = resolve_pending-Resolved config run book wall w w₁ res fill first in
      after-Moved w.state w w₁ w' (Resolved-phase w w₁ r) r.run r.states
        (warm_up-Moved w.state w₁ w' goes warms)
