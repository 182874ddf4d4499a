-- ===== src/Shadow/Saving.antt =====
-- The end of `process_book`: the account that is saved, and the result that shows it.
use mathlib.Core.Path.{subst}
use ai_coin_trading.Prelude.{
  ℕ, ◌+◌, String, ◌≡◌, refl, sym, ap, ◌∙◌, inl, inr, true, false, Option, none, some, List, arith,
  eq_iff, Bool-cases,
}
use ai_coin_trading.Arith.{Arith}
use ai_coin_trading.Depth.{PublicOrderBook}
use ai_coin_trading.Shadow.Book.{ShadowStepResult, Events, is_open, apply_intent}
use ai_coin_trading.Shadow.Close.{closed_state, close_book}
use ai_coin_trading.Shadow.Feed.{is_exact_duplicate, continuity_of}
use ai_coin_trading.Shadow.Intents.{record_intent}
use ai_coin_trading.Shadow.Ledger.{find_row, update_rows, is_state_of, save_state}
use ai_coin_trading.Shadow.Moves.{phase_of, Passes}
use ai_coin_trading.Shadow.Recorded.{record_intent-Recorded}
use ai_coin_trading.Shadow.Rows.{ShadowState, Ledger}
use ai_coin_trading.Shadow.Same.{same_lifecycle}
use ai_coin_trading.Shadow.Sampling.{liquidation_equity, sample_equity, sample_health}
use ai_coin_trading.Shadow.Settle.{ShadowConfig, ShadowIntent, Work}
use ai_coin_trading.Shadow.Tables.{find_row-update_rows}
use ai_coin_trading.Shadow.Types.{stopped, ContinuityReason, done, >>=-done, Step-cases}

module _ {F : Type 0} where
  -- A result shows the account.
  pub record Shows (r : ShadowStepResult F) (s : ShadowState F) : Type 0 where
    pub lifecycle : r.result_lifecycle ≡ s.lifecycle_status
    pub cash : r.result_cash ≡ s.cash_quote
    pub base : r.result_base ≡ s.base_quantity
    pub equity : r.result_equity ≡ s.last_equity_quote

module _ {F : Type 0} ⦃a : Arith F⦄ (config : ShadowConfig F) (run : String)
    (book : PublicOrderBook F) where
  -- The caller's intent leaves the account as it is.
  pub apply_intent_keeps :
      (i : Option (ShadowIntent F)) (wall : ℕ) (x y : Work F × Events)
      → apply_intent config run book i wall x ≡ done y
      → (y.0.state ≡ x.0.state) × (y.0.ledger.states ≡ x.0.ledger.states)
  unfolding apply_intent
  apply_intent_keeps none wall (w, e) y h = ground arith
  apply_intent_keeps (some i) wall (w, e) y h = elim (Bool-cases e.recovering) [
    | inl serves ↦ ground (arith, serves)
    | inr free ↦
        let due = book.received_monotonic_ns + config.shadow_latency_ns in
        elim (Step-cases (record_intent config run book i wall false due w)) [
          | inl (_, fails) ↦ absurd (ground (arith, free, fails))
          | inr ((l, status, order), records) ↦
              let (states, _) =
                record_intent-Recorded config run book i wall false due w l status order records in
              (ground (arith, free, records), ground (arith, free, records, states))
        ]
  ]

  -- What `close_book` saves and returns.
  pub close_book_saves :
      (wall : ℕ) (broken : Option ContinuityReason) (x : Work F × Events) (l : Ledger F)
      (r : ShadowStepResult F)
      → close_book config run book wall broken x ≡ done (l, r)
      → (equity : F) × (l.states
          ≡ update_rows
              (is_state_of x.0.state.state_run)
              (λ _. closed_state book wall equity x.0.state)
              x.0.ledger.states)
        × Shows r (closed_state book wall equity x.0.state)
  unfolding close_book sample_equity sample_health save_state closed_state
  close_book_saves wall broken (w, e) l r h =
      let (mark, marks, rest) = >>=-done (liquidation_equity config w.state book) _ h in
      (
        mark.mark_equity,
        ground arith,
        record {
          lifecycle = ground arith;
          cash = ground arith;
          base = ground arith;
          equity = ground arith;
        },
      )

  -- The account knows the book that it has just taken.
  pub closed_state-seen :
      (wall : ℕ) (equity : F) (s : ShadowState F)
      → is_exact_duplicate (closed_state book wall equity s) book ≡ true
  unfolding closed_state is_exact_duplicate
  closed_state-seen wall equity s =
      let capture = (eq_iff book.capture_id book.capture_id).1 refl in
      let connection = (eq_iff book.connection_id book.connection_id).1 refl in
      ground (arith, capture, connection)

  pub closed_state-phase :
      (wall : ℕ) (equity : F) (s s' : ShadowState F)
      → s' ≡ s
      → (phase_of (closed_state book wall equity s') ≡ phase_of s)
        × ((closed_state book wall equity s').state_run ≡ s.state_run)
  unfolding closed_state
  closed_state-phase wall equity s s' same = (ap phase_of same, ap (λ z. z.state_run) same)

  -- An account that is saved under its own run is read back.
  pub saved_found :
      (rows rows' : List (ShadowState F)) (old new : ShadowState F) (named : String)
      → named ≡ run
      → new.state_run ≡ run
      → find_row (is_state_of run) rows ≡ some old
      → rows' ≡ update_rows (is_state_of named) (λ _. new) rows
      → find_row (is_state_of run) rows' ≡ some new
  saved_found rows rows' old new named same own found saved =
      let keeps =
        find_row-update_rows (is_state_of run) (λ _. new) rows old
          ((eq_iff new.state_run run).1 own) found in
      subst (λ z. find_row (is_state_of run) z ≡ some new)
        (sym (saved ∙ ap (λ n. update_rows (is_state_of n) (λ _. new) rows) same)) keeps

  -- The account that a new book leaves in the ledger.
  pub record Settled (l l' : Ledger F) (r : ShadowStepResult F) : Type 0 where
    pub before : ShadowState F
    pub found : find_row (is_state_of run) l.states ≡ some before
    pub after : ShadowState F
    pub kept : find_row (is_state_of run) l'.states ≡ some after
    pub alive : same_lifecycle before.lifecycle_status stopped ≡ false
    pub moves :
        Passes config.warmup_books
          (continuity_of before book)
          (is_open config before)
          (phase_of before)
          (phase_of after)
    pub shows : Shows r after
    pub seen : is_exact_duplicate after book ≡ true
