-- ===== src/Shadow/Repeat.antt =====
-- src/coinpilot/hft_shadow.py: a book that `process_book` has taken and that comes again.
use ai_coin_trading.Prelude.{
  ℕ, String, ◌≡◌, refl, sym, ◌∙◌, inl, inr, Bool, true, false, Option, none, some, arith, str_eq,
}
use ai_coin_trading.Arith.{Arith}
use ai_coin_trading.Depth.{PublicOrderBook}
use ai_coin_trading.Shadow.Book.{ShadowStepResult}
use ai_coin_trading.Shadow.Diagram.{process_book-Settled}
use ai_coin_trading.Shadow.Engine.{check_repeated, duplicate_result, process_state, process_book}
use ai_coin_trading.Shadow.Feed.{is_exact_duplicate}
use ai_coin_trading.Shadow.Ledger.{find_row, is_state_of}
use ai_coin_trading.Shadow.Moves.{
  Phase, Moves, breaks_flat, breaks_open, stays, counts, starts, recovers_flat, Passes,
}
use ai_coin_trading.Shadow.Rows.{ShadowState, Ledger}
use ai_coin_trading.Shadow.Same.{same_lifecycle}
use ai_coin_trading.Shadow.Saving.{Shows}
use ai_coin_trading.Shadow.Settle.{ShadowConfig, ShadowIntent}
use ai_coin_trading.Shadow.Types.{stopped, ContinuityReason, done}

module _ {F : Type 0} ⦃a : Arith F⦄ (config : ShadowConfig F) (run : String)
    (book : PublicOrderBook F) where
  -- An account that trades on is not stopped by a book.
  Moves-alive :
      (needed : ℕ) (why : Option ContinuityReason) (holding : Bool) (x y : Phase)
      → Moves needed why holding x y
      → same_lifecycle x.phase_status stopped ≡ false
      → same_lifecycle y.phase_status stopped ≡ false
  Moves-alive needed why holding x y (breaks_flat _ _ _ same) alive = ground arith
  Moves-alive needed why holding x y (breaks_open _ _ _ _ same) alive = ground arith
  Moves-alive needed why holding x y (stays _ _ same) alive = ground arith
  Moves-alive needed why holding x y (counts _ warms _ same) alive = ground arith
  Moves-alive needed why holding x y (starts _ _ enough same) alive = ground arith
  Moves-alive needed why holding x y (recovers_flat _ _ _ same) alive = ground arith

  Passes-alive :
      (needed : ℕ) (why : Option ContinuityReason) (holding : Bool) (x y : Phase)
      → Passes needed why holding x y
      → same_lifecycle x.phase_status stopped ≡ false
      → same_lifecycle y.phase_status stopped ≡ false
  Passes-alive needed why holding x y (inl moves) alive =
      Moves-alive needed why holding x y moves alive
  Passes-alive needed why holding x y (inr lifts) alive = lifts.alive

  duplicate_result-Shows :
      (s : ShadowState F) (l : Ledger F)
      → (r : ShadowStepResult F) × (duplicate_result run book none s l ≡ done r)
        × Shows r s
        × (r.duplicate_event ≡ true)
  unfolding duplicate_result check_repeated
  duplicate_result-Shows s l =
      (_, refl, record { lifecycle = refl; cash = refl; base = refl; equity = refl }, refl)

  process_state_again :
      (l : Ledger F) (s : ShadowState F)
      → same_lifecycle s.lifecycle_status stopped ≡ false
      → is_exact_duplicate s book ≡ true
      → (r : ShadowStepResult F) × (process_state config run book none l s ≡ done (l, r))
        × Shows r s
        × (r.duplicate_event ≡ true)
  unfolding process_state
  process_state_again l s alive seen =
      let (r, result, shows, marks) = duplicate_result-Shows s l in
      (r, ground (arith, alive, seen, result), shows, marks)

  right_market :
      (intent : Option (ShadowIntent F)) (l l' : Ledger F) (r : ShadowStepResult F)
      → process_book config run book intent l ≡ done (l', r)
      → str_eq book.market config.shadow_market ≡ true
  unfolding process_book
  right_market intent l l' r h = ground arith

  process_book_found :
      (l : Ledger F) (s : ShadowState F)
      → str_eq book.market config.shadow_market ≡ true
      → find_row (is_state_of run) l.states ≡ some s
      → process_book config run book none l ≡ process_state config run book none l s
  unfolding process_book
  process_book_found l s market found = ground (arith, market, found)

  -- After a new book that `process_book` has taken, the same book without an intent is taken as a
  -- duplicate: the call returns, the ledger stays as it is, and the result shows the same status,
  -- cash, position and equity.
  pub process_book_again :
      (intent : Option (ShadowIntent F)) (l l' : Ledger F) (r : ShadowStepResult F)
      → process_book config run book intent l ≡ done (l', r)
      → r.duplicate_event ≡ false
      → (again : ShadowStepResult F) × (process_book config run book none l' ≡ done (l', again))
        × (again.duplicate_event ≡ true)
        × (again.result_lifecycle ≡ r.result_lifecycle)
        × (again.result_cash ≡ r.result_cash)
        × (again.result_base ≡ r.result_base)
        × (again.result_equity ≡ r.result_equity)
  process_book_again intent l l' r h new =
      let saved = process_book-Settled config run book intent l l' r h new in
      let alive = Passes-alive _ _ _ _ _ saved.moves saved.alive in
      let (again, taken, shows, marks) = process_state_again l' saved.after alive saved.seen in
      let market = right_market intent l l' r h in
      (
        again,
        process_book_found l' saved.after market saved.kept ∙ taken,
        marks,
        shows.lifecycle ∙ sym saved.shows.lifecycle,
        shows.cash ∙ sym saved.shows.cash,
        shows.base ∙ sym saved.shows.base,
        shows.equity ∙ sym saved.shows.equity,
      )
