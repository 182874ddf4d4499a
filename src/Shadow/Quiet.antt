-- ===== src/Shadow/Quiet.antt =====
-- src/coinpilot/hft_shadow.py: the orders that wait after `process_book`, beside the account's status.
use mathlib.Core.Path.{subst}
use ai_coin_trading.Prelude.{
  ℕ, ◌+◌, String, ◌≡◌, sym, ap, ◌∙◌, inl, inr, false, Option, none, some, arith, Bool-cases,
}
use ai_coin_trading.Arith.{Arith}
use ai_coin_trading.Depth.{PublicOrderBook}
use ai_coin_trading.Shadow.Book.{ShadowStepResult, Events, apply_intent}
use ai_coin_trading.Shadow.Close.{closed_state, close_book}
use ai_coin_trading.Shadow.Diagram.{process_book-Settled}
use ai_coin_trading.Shadow.Engine.{process_book}
use ai_coin_trading.Shadow.Feed.{event_wall_ns, continuity_of}
use ai_coin_trading.Shadow.Intents.{record_intent}
use ai_coin_trading.Shadow.Ledger.{find_row, count_rows, is_state_of, is_pending_of}
use ai_coin_trading.Shadow.Pending.{close_book-orders, process_book-HasOnePending}
use ai_coin_trading.Shadow.Processed.{process_book-Processed, process_book_repeats}
use ai_coin_trading.Shadow.Recorded.{Recorded, record_intent-Recorded}
use ai_coin_trading.Shadow.Rows.{ShadowState, Ledger}
use ai_coin_trading.Shadow.Same.{same_lifecycle}
use ai_coin_trading.Shadow.Saving.{apply_intent_keeps}
use ai_coin_trading.Shadow.Settle.{ShadowConfig, ShadowIntent, Work}
use ai_coin_trading.Shadow.Types.{running, ContinuityReason, BookKey, done, Step-cases}
use ai_coin_trading.Shadow.Waiting.{IsQuiet, HasSoundOrders, Applied-IsQuiet}

module _ {F : Type 0} ⦃a : Arith F⦄ (config : ShadowConfig F) (run : String)
    (book : PublicOrderBook F) where
  -- An intent for an account that does not trade makes no order.
  record_intent_idle :
      (i : ShadowIntent F) (wall due : ℕ) (w : Work F) (l' : Ledger F) (order : Option BookKey)
      → Recorded config run book i wall false due w l' order
      → same_lifecycle w.state.lifecycle_status running ≡ false
      → l'.orders ≡ w.ledger.orders
  record_intent_idle i wall due w l' order (inl (_, same)) idle = same
  record_intent_idle i wall due w l' order (inr (_, allowed, _)) idle = elim allowed.lifecycle [
    | inl runs ↦ absurd (ground (arith, runs, idle))
    | inr (never, _, _) ↦ absurd (ground (arith, never))
  ]

  apply_intent-IsQuiet :
      (i : Option (ShadowIntent F)) (wall : ℕ) (x y : Work F × Events)
      → apply_intent config run book i wall x ≡ done y
      → IsQuiet run x.0.state x.0.ledger.orders
      → IsQuiet run x.0.state y.0.ledger.orders
  unfolding apply_intent
  apply_intent-IsQuiet none wall (w, e) y h quiet idle = ground (arith, quiet, idle)
  apply_intent-IsQuiet (some i) wall (w, e) y h quiet idle = elim (Bool-cases e.recovering) [
    | inl serves ↦ ground (arith, serves, quiet, idle)
    | inr free ↦
        let due = book.received_monotonic_ns + config.shadow_latency_ns in
        elim (Step-cases (record_intent config run book i wall false due w)) [
          | inl (_, fails) ↦ absurd (ground (arith, free, fails))
          | inr ((l, status, order), records) ↦
              let (_, recorded) =
                record_intent-Recorded config run book i wall false due w l status order records in
              let same = record_intent_idle i wall due w l order recorded idle in
              ground (arith, free, records, same, quiet, idle)
        ]
  ]

  close_book_status :
      (wall : ℕ) (broken : Option ContinuityReason) (x : Work F × Events) (l : Ledger F)
      (r : ShadowStepResult F)
      → close_book config run book wall broken x ≡ done (l, r)
      → r.result_lifecycle ≡ x.0.state.lifecycle_status
  unfolding close_book closed_state
  close_book_status wall broken (w, e) l r h = ground arith

  process_book-IsQuiet :
      (intent : Option (ShadowIntent F)) (l l' : Ledger F) (r : ShadowStepResult F)
      → HasSoundOrders run l
      → process_book config run book intent l ≡ done (l', r)
      → r.duplicate_event ≡ false
      → (s : ShadowState F) → find_row (is_state_of run) l'.states ≡ some s
      → IsQuiet run s l'.orders
  process_book-IsQuiet intent l l' r sound h new s found idle =
      let wall = event_wall_ns book in
      let p = process_book-Processed config run book intent l l' r h new in
      let saved = process_book-Settled config run book intent l l' r h new in
      let same : saved.after ≡ s = ground (arith, saved.kept, found) in
      let (kept, _) =
        apply_intent_keeps config run book p.intent wall (p.worked, p.events) p.intended
          p.intends in
      let status : s.lifecycle_status ≡ p.worked.state.lifecycle_status =
        sym (ap (λ z. z.lifecycle_status) same)
        ∙ sym saved.shows.lifecycle
        ∙ close_book_status wall (continuity_of p.before book) p.intended l' r p.closes
        ∙ ap (λ z. z.lifecycle_status) kept in
      let applied =
        Applied-IsQuiet config run book wall (record { ledger = l; state = p.before }) p.worked
          p.events p.applied (sound.quiet p.before p.found) in
      let intended =
        apply_intent-IsQuiet p.intent wall (p.worked, p.events) p.intended p.intends applied in
      ap (count_rows (is_pending_of run)) (
        close_book-orders config run book wall (continuity_of p.before book) p.intended l' r
          p.closes)
      ∙ intended (subst (λ z. same_lifecycle z running ≡ false) status idle)

  -- If the run has at most one order that waits, and none while its account does not trade, so it is
  -- after every call of `process_book` that returns.
  pub process_book-HasSoundOrders :
      (intent : Option (ShadowIntent F)) (l l' : Ledger F) (r : ShadowStepResult F)
      → HasSoundOrders run l
      → process_book config run book intent l ≡ done (l', r)
      → HasSoundOrders run l'
  process_book-HasSoundOrders intent l l' r sound h = elim (Bool-cases r.duplicate_event) [
    | inl again ↦
        subst (HasSoundOrders run)
          (sym (process_book_repeats config run book intent l l' r h again)) sound
    | inr new ↦ record {
      one = process_book-HasOnePending config run book intent l l' r sound.one h;
      quiet = process_book-IsQuiet intent l l' r sound h new;
    }
  ]
