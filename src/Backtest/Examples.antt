-- ===== src/Backtest/Examples.antt =====
-- A backtest of two candles over the decimals.
use ai_coin_trading.Prelude.{
  ℕ, ◌≡◌, refl, true, Option, none, List, [], ◌∷◌, is_some, length, Result, ok, raised,
}
use ai_coin_trading.Backtest.{Row, execute_rows, run_backtest}
use ai_coin_trading.Backtest.Account.{Ends, run_backtest-IsConsistent}
use ai_coin_trading.Broker.{PortfolioState, Fill, Trade, initial, buy, sell_all}
use ai_coin_trading.Decimal.{ℤ, decimals, decimals-IsOrdered}
use ai_coin_trading.Engine.Blocks.{
  after_gap, check_gap, record_sell, sell, exit_at_open, wants_entry, record_buy, open_position,
  enter, check_stop,
}
use ai_coin_trading.Engine.Process.{
  equity_at, check_drawdown, tick_cooldown, trade_bar, next_pending, close_bar, process_bar,
  liquidate,
}
use ai_coin_trading.Engine.Types.{BarStep}
use ai_coin_trading.Risk.{size_entry, drawdown}
use ai_coin_trading.Samples.{won, config, hour, loud, bar_at}

abbrev rows : List (Row ℤ)
rows =
    record { row_bar = bar_at 1 100 99; row_signal = loud; row_now = hour 9 }
    ∷ record { row_bar = bar_at 2 101 100; row_signal = loud; row_now = hour 9 }
    ∷ []

abbrev ended :
    Result (PortfolioState ℤ) (List (BarStep ℤ) × PortfolioState ℤ × Option (Fill ℤ × Trade ℤ))
    → List (BarStep ℤ) × PortfolioState ℤ × Option (Fill ℤ × Trade ℤ)
ended (ok x) = x
ended (raised e s) = ([], s, none)

abbrev backtest_runs : ℕ
unfolding run_backtest execute_rows liquidate process_bar trade_bar check_gap exit_at_open enter
    wants_entry open_position record_buy record_sell sell check_stop equity_at check_drawdown
    tick_cooldown close_bar next_pending buy sell_all size_entry drawdown initial after_gap
backtest_runs = 0

abbrev result : List (BarStep ℤ) × PortfolioState ℤ × Option (Fill ℤ × Trade ℤ)
result = ended (run_backtest config "KRW-BTC" rows (hour 3) (won 101) (hour 9))

result_returned :
    run_backtest config "KRW-BTC" rows (hour 3) (won 101) (hour 9)
    ≡ ok (result.0, result.1, result.2)
unfolding backtest_runs
result_returned = refl

-- The first candle's decision has bought at the second one, and the end has sold.
liquidated : is_some result.2 ≡ true
unfolding backtest_runs
liquidated = refl

run_backtest-IsConsistent_example : (length result.0 ≡ 2) × Ends result.1 result.2
run_backtest-IsConsistent_example =
    run_backtest-IsConsistent decimals-IsOrdered config "KRW-BTC" rows (hour 3) (won 101) (hour 9)
      result.0 result.1 result.2 result_returned
