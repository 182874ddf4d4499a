-- ===== src/Backtest/Account.antt =====
-- The account through a backtest.
use mathlib.Core.Path.{subst}
use ai_coin_trading.Prelude.{
  ℕ, suc, String, ◌≡◌, refl, ap, ◌⊎◌, inl, inr, false, Option, none, some, List, [], ◌∷◌, arith,
  length, ok, >>=-returned,
}
use ai_coin_trading.Arith.{Arith, IsOrdered, zero_f}
use ai_coin_trading.Backtest.{Row, Run, execute_rows, with_final_peak, run_backtest}
use ai_coin_trading.Broker.{PortfolioState, Fill, Trade, initial, sell_all}
use ai_coin_trading.Engine.Consistency.{
  IsFlat, IsConsistent, process_bar-IsConsistent, liquidate-IsConsistent,
}
use ai_coin_trading.Engine.Process.{process_bar, liquidate}
use ai_coin_trading.Engine.Types.{EngineConfig, BarStep, is_held}
use ai_coin_trading.Shadow.Control.{ended}

-- The account at the end of a run, and what the end has traded.
pub record Ends {F : Type 0} ⦃a : Arith F⦄ (s : PortfolioState F)
    (traded : Option (Fill F × Trade F)) : Type 0 where
  consistent : IsConsistent s
  out : is_held s ≡ false
  flat_if_sold : (traded ≡ none) ⊎ IsFlat s

module _ {F : Type 0} ⦃a : Arith F⦄ (order : IsOrdered a) (config : EngineConfig F) where
  -- Executed rows that return have one step for each row, and keep the account consistent.
  execute_rows-IsConsistent :
      (rows : List (Row F)) (s : PortfolioState F) (run : Run F)
      → IsConsistent s
      → execute_rows config rows s ≡ ok run
      → IsConsistent run.run_state × (length run.run_steps ≡ length rows)
  unfolding execute_rows
  execute_rows-IsConsistent [] s run valid h =
      let same : record { run_state = s; run_steps = [] } ≡ run = grind (arith, h) in
      subst (λ (r : Run F). IsConsistent r.run_state × (length r.run_steps ≡ 0)) same (valid, refl)
  execute_rows-IsConsistent (row ∷ rows) s run valid h =
      let (done, first, rest) =
        >>=-returned (process_bar config row.row_now row.row_bar row.row_signal s) _ h in
      let (others, loop, all) = >>=-returned (execute_rows config rows done.0) _ rest in
      let kept =
        process_bar-IsConsistent config row.row_now row.row_bar row.row_signal s done.0 done.1 order
          valid first in
      let (end_valid, count) = execute_rows-IsConsistent rows done.0 others kept loop in
      let same : record others { run_steps = done.1 ∷ others.run_steps } ≡ run =
        grind (arith, all) in
      subst (λ (r : Run F). IsConsistent r.run_state × (length r.run_steps ≡ suc (length rows)))
        same (end_valid, ap suc count)

  initial-IsConsistent :
      (market : String) (cash : F) (fingerprint : Option String)
      → IsConsistent (initial market cash fingerprint)
  unfolding initial
  initial-IsConsistent market cash fingerprint = record {
    position = inr (record { quantity = refl; entry = refl });
    halt = inl refl;
  }

  -- The sale leaves nothing to hold.
  liquidate_empties :
      (now timestamp : ℕ) (price : F) (s : PortfolioState F)
      (sold : PortfolioState F × Option (Fill F × Trade F))
      → liquidate config now timestamp price s ≡ ok sold
      → (is_held sold.0 ≡ false) × ((sold.1 ≡ none) ⊎ IsFlat sold.0)
  unfolding liquidate sell_all
  liquidate_empties now timestamp price s sold h =
      grind (arith, order.lt_irrefl zero_f, order.not_le_of_lt zero_f s.quantity)

  final_peak :
      (sold : PortfolioState F × Option (Fill F × Trade F))
      → IsConsistent sold.0
      → (is_held sold.0 ≡ false) × ((sold.1 ≡ none) ⊎ IsFlat sold.0)
      → Ends (with_final_peak sold).0 (with_final_peak sold).1
  final_peak (s, none) valid (out, _) = record {
    consistent = valid;
    out = out;
    flat_if_sold = inl refl;
  }
  final_peak (s, some traded) valid (out, inl unsold) = absurd (ground arith)
  final_peak (s, some traded) valid (out, inr empty) = record {
    consistent = record {
      position = inr (record { quantity = empty.quantity; entry = empty.entry });
      halt = ground (arith, valid.halt);
    };
    out = out;
    flat_if_sold = inr (record { quantity = empty.quantity; entry = empty.entry });
  }

  -- A backtest that returns has one step for each executed row, and ends with a consistent account
  -- that holds nothing; if the end of the run has sold a position, the account has the quantity 0 and
  -- all entry fields reset.
  pub run_backtest-IsConsistent :
      (market : String) (rows : List (Row F)) (close_time : ℕ) (close : F) (now : ℕ)
      (steps : List (BarStep F)) (s : PortfolioState F) (traded : Option (Fill F × Trade F))
      → run_backtest config market rows close_time close now ≡ ok (steps, s, traded)
      → (length steps ≡ length rows) × Ends s traded
  unfolding run_backtest
  run_backtest-IsConsistent market rows close_time close now steps s traded h =
      let start : PortfolioState F = initial market config.risk_config.initial_cash none in
      let (run, looped, rest) = >>=-returned (execute_rows config rows start) _ h in
      let (sold, ended, all) =
        >>=-returned (liquidate config now close_time close run.run_state) _ rest in
      let (valid, count) =
        execute_rows-IsConsistent rows start run
          (initial-IsConsistent market config.risk_config.initial_cash none) looped in
      let settled =
        liquidate-IsConsistent config now close_time close run.run_state sold.0 sold.1 order valid
          ended in
      let ends_well =
        final_peak sold settled (liquidate_empties now close_time close run.run_state sold ended) in
      let ends = with_final_peak sold in
      let same : ◌≡◌ {A = List (BarStep F) × PortfolioState F × Option (Fill F × Trade F)}
          (run.run_steps, ends.0, ends.1) (steps, s, traded) =
        grind (arith, all) in
      subst
        (λ (e : List (BarStep F) × PortfolioState F × Option (Fill F × Trade F)).
          (length e.0 ≡ length rows) × Ends e.1 e.2)
        same (count, ends_well)
