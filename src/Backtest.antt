-- ===== src/Backtest.antt =====
-- src/coinpilot/backtest.py, `run_backtest`: the loop over the executed candles with a new account, and
-- the sale at its end. The candles and their predictions are read from pandas frames, row by row.
pub mod Account
mod Examples
use ai_coin_trading.Prelude.{◌>>=◌, ℕ, String, Option, none, some, List, [], ◌∷◌, Result, ok}
use ai_coin_trading.Arith.{Arith, max_f}
use ai_coin_trading.Broker.{PortfolioState, Fill, Trade, initial}
use ai_coin_trading.Engine.Process.{process_bar, liquidate}
use ai_coin_trading.Engine.Types.{EngineConfig, Bar, Signal, BarStep}

-- A row of the execution range, with the clock's reading during its call.
pub record Row (F : Type 0) : Type 0 where
  pub row_bar : Bar F
  pub row_signal : Signal F
  pub row_now : ℕ

-- What the loop collects; the equity records are among the steps' fields.
pub record Run (F : Type 0) : Type 0 where
  pub run_state : PortfolioState F
  pub run_steps : List (BarStep F)

module _ {F : Type 0} ⦃a : Arith F⦄ where
  unfoldable pub execute_rows :
      EngineConfig F → List (Row F) → PortfolioState F → Result (PortfolioState F) (Run F)
  execute_rows config [] s = ok (record { run_state = s; run_steps = [] })
  execute_rows config (row ∷ rows) s =
      process_bar config row.row_now row.row_bar row.row_signal s >>= λ done.
      execute_rows config rows done.0 >>= λ run.
      ok (record run { run_steps = done.1 ∷ run.run_steps })

  -- `state.peak_equity = max(state.peak_equity, final_equity)`, if the end has sold something.
  abbrev pub with_final_peak :
      PortfolioState F × Option (Fill F × Trade F) → PortfolioState F × Option (Fill F × Trade F)
  with_final_peak (s, none) = (s, none)
  with_final_peak (s, some sold) =
      (record s { peak_equity = max_f s.peak_equity s.cash }, some sold)

  -- The account at the end and what its liquidation has traded. `close_time` is the end of the last
  -- candle.
  unfoldable pub run_backtest :
      EngineConfig F
      → String
      → List (Row F)
      → ℕ
      → F
      → ℕ
      → Result (PortfolioState F) (List (BarStep F) × PortfolioState F × Option (Fill F × Trade F))
  run_backtest config market rows close_time close now =
      execute_rows config rows (initial market config.risk_config.initial_cash none) >>= λ run.
      liquidate config now close_time close run.run_state >>= λ sold.
      ok (run.run_steps, (with_final_peak sold).0, (with_final_peak sold).1)
