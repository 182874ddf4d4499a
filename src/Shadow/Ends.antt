-- ===== src/Shadow/Ends.antt =====
-- src/coinpilot/hft_shadow.py and hft_shadow_store.py: what `halt` and `stop_run` leave.
use ai_coin_trading.Prelude.{
  ℕ, String, ◌≡◌, refl, ap, ◌∙◌, inl, inr, Option, some, List, arith, str_eq, Bool-cases,
  Option-cases,
}
use ai_coin_trading.Arith.{Arith}
use ai_coin_trading.Depth.{PublicOrderBook}
use ai_coin_trading.Outbox.{required_text}
use ai_coin_trading.Shadow.Control.{stripped_text, kept_reason, with_status, halt, stop_run}
use ai_coin_trading.Shadow.Engine.{validate_option, process_state, process_book}
use ai_coin_trading.Shadow.Ledger.{
  find_row, update_rows, count_rows, is_state_of, is_pending_of, expire_pending, set_run,
}
use ai_coin_trading.Shadow.Rows.{ShadowState, Ledger}
use ai_coin_trading.Shadow.Settle.{ShadowConfig, ShadowIntent, stripped}
use ai_coin_trading.Shadow.Tables.{find_row_test, find_row-update_rows}
use ai_coin_trading.Shadow.Types.{
  refused, Lifecycle, halted_recovery, stopped, HaltReason, external_halt, graceful_stop,
  halt_expiry, ShadowError, wrong_market, run_stopped, done, >>=-done, Step-cases,
}
use ai_coin_trading.Shadow.Waiting.{expire_pending-idle}

module _ {F : Type 0} ⦃a : Arith F⦄ (run : String) (wall : ℕ) where
  -- The account of the run, as a status was written to it.
  pub record IsEnded (l l' : Ledger F) (status : Lifecycle) (why : HaltReason) : Type 0 where
    pub before : ShadowState F
    pub found : find_row (is_state_of run) l.states ≡ some before
    pub kept : find_row (is_state_of run) l'.states ≡ some (with_status status why wall before)
    pub idle : count_rows (is_pending_of run) l'.orders ≡ 0

  status_found :
      (status : Lifecycle) (why : HaltReason) (rows : List (ShadowState F)) (s : ShadowState F)
      → find_row (is_state_of run) rows ≡ some s
      → find_row
          (is_state_of run)
          (update_rows (is_state_of run) (with_status status why wall) rows)
        ≡ some (with_status status why wall s)
  status_found status why rows s found =
      let (own, _) = find_row_test (is_state_of run) rows s found in
      find_row-update_rows (is_state_of run) (with_status status why wall) rows s own found

module _ {F : Type 0} ⦃a : Arith F⦄ (run : String) (reason : String) (wall : ℕ) where
  halt_counts :
      (l l' : Ledger F) (count : ℕ)
      → halt run reason wall l ≡ done (l', count)
      → count ≡ count_rows (is_pending_of run) l.orders
  unfolding halt expire_pending
  halt_counts l l' count h = ground arith

  -- When `halt` returns, its reason is not blank, no order of the run waits any more, and the account
  -- is halted for the stripped reason, an external one, whatever its status was.
  pub halt_ends :
      (l l' : Ledger F) (count : ℕ)
      → halt run reason wall l ≡ done (l', count)
      → (text : String) × (required_text reason ≡ some text)
        × (count ≡ count_rows (is_pending_of run) l.orders)
        × IsEnded run wall l l' halted_recovery (external_halt text)
  unfolding halt set_run
  halt_ends l l' count h =
      let (text, stripped, after) = >>=-done (stripped_text reason) _ h in
      let valid : required_text reason ≡ some text = ground (arith, stripped) in
      elim (Option-cases (find_row (is_state_of run) l.states)) [
        | inl lost ↦ absurd (ground (arith, lost))
        | inr (s, found) ↦
            let states : l'.states
                ≡ update_rows (is_state_of run)
                    (with_status halted_recovery (external_halt text) wall) l.states =
              ground (arith, found) in
            let orders : l'.orders ≡ (expire_pending run (halt_expiry text) wall l.orders).0 =
              ground (arith, found) in
            (
              text,
              valid,
              halt_counts l l' count h,
              record {
                before = s;
                found = found;
                kept =
                    ap (find_row (is_state_of run)) states
                    ∙ status_found run wall halted_recovery (external_halt text) l.states s found;
                idle =
                    ap (count_rows (is_pending_of run)) orders
                    ∙ expire_pending-idle run (halt_expiry text) wall l.orders;
              },
            )
      ]

  stop_run_ends :
      (l l' : Ledger F) (count : ℕ)
      → stop_run run reason wall l ≡ done (l', count)
      → (why : HaltReason) × IsEnded run wall l l' stopped why
  unfolding stop_run
  stop_run_ends l l' count h =
      let (text, stripped, after) = >>=-done (stripped_text reason) _ h in
      elim (Option-cases (find_row (is_state_of run) l.states)) [
        | inl lost ↦ absurd (ground (arith, lost))
        | inr (s, found) ↦
            let why = kept_reason s.halt_reason text in
            let states : l'.states
                ≡ update_rows (is_state_of run) (with_status stopped why wall) l.states =
              ground (arith, found) in
            let orders : l'.orders ≡ (expire_pending run graceful_stop wall l.orders).0 =
              ground (arith, found) in
            (
              why,
              record {
                before = s;
                found = found;
                kept =
                    ap (find_row (is_state_of run)) states
                    ∙ status_found run wall stopped why l.states s found;
                idle =
                    ap (count_rows (is_pending_of run)) orders
                    ∙ expire_pending-idle run graceful_stop wall l.orders;
              },
            )
      ]

  process_book_stopped :
      (config : ShadowConfig F) (book : PublicOrderBook F) (intent : Option (ShadowIntent F))
      (l : Ledger F) (s : ShadowState F)
      → find_row (is_state_of run) l.states ≡ some s
      → s.lifecycle_status ≡ stopped
      → (e : ShadowError) × (process_book config run book intent l ≡ refused e)
  unfolding process_book process_state
  process_book_stopped config book intent l s found status =
      elim (Bool-cases (str_eq book.market config.shadow_market)) [
        | inr other ↦ (wrong_market, ground (arith, other))
        | inl market ↦ elim (Step-cases (validate_option intent)) [
          | inl (e, fails) ↦ (e, ground (arith, market, fails))
          | inr (i, valid) ↦ (run_stopped, ground (arith, market, valid, found, status))
        ]
      ]

  -- When `stop_run` returns, no order of the run waits any more, and on the ledger that it leaves
  -- `process_book` raises for the run at every book, with every intent and every configuration.
  pub stop_run_final :
      (l l' : Ledger F) (count : ℕ)
      → stop_run run reason wall l ≡ done (l', count)
      → (count_rows (is_pending_of run) l'.orders ≡ 0)
        × ((config : ShadowConfig F) (book : PublicOrderBook F) (intent : Option (ShadowIntent F))
            → (e : ShadowError) × (process_book config run book intent l' ≡ refused e))
  stop_run_final l l' count h =
      let (why, ends) = stop_run_ends l l' count h in
      (ends.idle, λ config book intent. process_book_stopped config book intent l' _ ends.kept refl)
