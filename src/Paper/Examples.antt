-- ===== src/Paper/Examples.antt =====
-- Runs of `process_snapshot` over the decimals, and the theorems about it at these runs.
use ai_coin_trading.Prelude.{
  ℕ, ◌+◌, ◌-◌, ◌≤◌, ◌≡◌, refl, ◌⊎◌, inl, inr, true, false, Option, none, some, [], arith, length,
  negative_cash, ticker_predates_candle, Result, ok, raised,
}
use ai_coin_trading.Broker.{
  active, halted, buy_side, sell_side, PortfolioState, no_signal, initial, buy, sell_all,
}
use ai_coin_trading.Decimal.{ℤ, decimals, decimals-IsOrdered}
use ai_coin_trading.Engine.Consistency.{IsConsistent}
use ai_coin_trading.Engine.Errors.{HasLimits}
use ai_coin_trading.Engine.Types.{is_active, is_held}
use ai_coin_trading.Paper.Activity.{process_snapshot-fills, IsTimely, process_snapshot_entry}
use ai_coin_trading.Paper.Blocks.{
  record_sell, sell, wants_entry, record_buy, open_position, enter, check_ticker, take_new_bar,
  arrive, guard_position, exit_on_model,
}
use ai_coin_trading.Paper.Clock.{NotBefore, IsSameBar, process_snapshot_clock}
use ai_coin_trading.Paper.Consistency.{process_snapshot-IsConsistent}
use ai_coin_trading.Paper.Count.{fills}
use ai_coin_trading.Paper.Errors.{process_snapshot_errors}
use ai_coin_trading.Paper.Halts.{process_snapshot_halted, process_snapshot_liquidates}
use ai_coin_trading.Paper.Monitor.{
  follow_up, watch_position, monitor_position, monitor_position_settles,
}
use ai_coin_trading.Paper.Process.{
  check_drawdown, tick_cooldown, next_pending, liquidation_equity, keep_decision, new_position_peak,
  trade_snapshot, value_snapshot, process_snapshot,
}
use ai_coin_trading.Paper.Types.{AppConfig, MarketTicker, Decision, PaperSnapshotResult, seconds}
use ai_coin_trading.Risk.{size_entry, drawdown}
use ai_coin_trading.Samples.{won, risk_config, model_config, hour, decided, holding, loud}

abbrev app : AppConfig ℤ
app = record {
  risk = risk_config;
  model = model_config;
  paper = record { max_signal_delay_seconds = 120; max_ticker_age_seconds = 60 };
  interval_minutes = 60;
}

-- A ticker `late` seconds after hour `n`, with a trade five seconds before.
abbrev ticker_at : ℕ → ℕ → ℕ → MarketTicker ℤ
ticker_at n late price = record {
  market = "KRW-BTC";
  price = won price;
  exchange_timestamp = hour n + seconds (late - 5);
  observed_at = hour n + seconds late;
}

abbrev decision_at : ℕ → Decision ℤ
decision_at n = record { bar_time = hour n; signal = loud; model_ready = true; model_error = none }

abbrev no_result : PaperSnapshotResult ℤ
no_result = record { processed_bar = false; equity = won 0; events = []; trades = [] }

-- What a call returned.
abbrev outcome :
    PortfolioState ℤ
    → Result (PortfolioState ℤ) (PortfolioState ℤ × PaperSnapshotResult ℤ)
    → PortfolioState ℤ × PaperSnapshotResult ℤ
outcome s (ok x) = x
outcome s (raised e s') = (s', no_result)

-- All that a run computes with.
abbrev paper_runs : ℕ
unfolding process_snapshot check_ticker trade_snapshot arrive take_new_bar guard_position
    exit_on_model enter wants_entry open_position record_buy record_sell sell value_snapshot
    liquidation_equity check_drawdown tick_cooldown next_pending keep_decision new_position_peak buy
    sell_all size_entry drawdown initial fills monitor_position watch_position follow_up
paper_runs = 0

-- The bar of hour 2 has closed, and the ticker is ten seconds later.
abbrev bought : PortfolioState ℤ × PaperSnapshotResult ℤ
bought = outcome decided (process_snapshot app (ticker_at 3 10 100) (decision_at 2) decided)

bought_returns :
    process_snapshot app (ticker_at 3 10 100) (decision_at 2) decided ≡ ok (bought.0, bought.1)
unfolding paper_runs
bought_returns = refl

bought_once : fills buy_side bought.1.events ≡ 1
unfolding paper_runs
bought_once = refl

process_snapshot-fills_example :
    (fills buy_side bought.1.events + fills sell_side bought.1.events ≤ 1)
    × (length bought.1.trades ≡ fills sell_side bought.1.events)
process_snapshot-fills_example =
    process_snapshot-fills app (ticker_at 3 10 100) (decision_at 2) decided bought.0 bought.1
      bought_returns

process_snapshot_entry_example :
    IsTimely app (ticker_at 3 10 100) (decision_at 2) (some (hour 1))
    × (active ≡ active)
    × (decided.cooldown_remaining ≡ 0)
unfolding initial
process_snapshot_entry_example =
    process_snapshot_entry app (ticker_at 3 10 100) (decision_at 2) decided bought.0 bought.1
      bought_returns bought_once

process_snapshot_clock_example :
    (bought.0.updated_at ≡ some (hour 3 + seconds 10))
    × (bought.0.last_ticker_exchange_time ≡ some (hour 3 + seconds 5))
    × NotBefore decided.updated_at bought.0.updated_at
    × NotBefore decided.last_ticker_exchange_time bought.0.last_ticker_exchange_time
    × ((bought.0.last_bar_time ≡ some (hour 2))
        ⊎ ((bought.0.last_bar_time ≡ decided.last_bar_time)
            × IsSameBar app (decision_at 2) decided.last_bar_time))
    × NotBefore decided.last_bar_time bought.0.last_bar_time
process_snapshot_clock_example =
    process_snapshot_clock app (ticker_at 3 10 100) (decision_at 2) decided bought.0 bought.1
      bought_returns

holding-IsConsistent : IsConsistent holding
unfolding paper_runs
holding-IsConsistent = record {
  position = inl (record { entry_time = refl; notional = refl; quantity = refl });
  halt = inl refl;
}

holding-is_held : is_held holding ≡ true
unfolding paper_runs
holding-is_held = refl

-- The bar of hour 3 comes after that of hour 1: the position is sold and the account halted.
abbrev gapped : PortfolioState ℤ × PaperSnapshotResult ℤ
gapped = outcome holding (process_snapshot app (ticker_at 4 10 100) (decision_at 3) holding)

gapped_returns :
    process_snapshot app (ticker_at 4 10 100) (decision_at 3) holding ≡ ok (gapped.0, gapped.1)
unfolding paper_runs
gapped_returns = refl

process_snapshot-IsConsistent_example : IsConsistent gapped.0
process_snapshot-IsConsistent_example =
    process_snapshot-IsConsistent decimals-IsOrdered app (ticker_at 4 10 100) (decision_at 3)
      holding gapped.0 gapped.1 holding-IsConsistent gapped_returns

process_snapshot_halted_example :
    (is_active gapped.0.halt_state ≡ false)
    × (is_held gapped.0 ≡ false)
    × (gapped.0.pending ≡ no_signal)
    × (fills buy_side gapped.1.events ≡ 0)
process_snapshot_halted_example =
    process_snapshot_halted decimals-IsOrdered app (ticker_at 4 10 100) (decision_at 3) holding
      gapped.0 gapped.1 (inr (inl (omega arith))) gapped_returns

process_snapshot_liquidates_example :
    (gapped.0.halt_state ≡ halted) × (fills sell_side gapped.1.events ≡ 1)
process_snapshot_liquidates_example =
    process_snapshot_liquidates decimals-IsOrdered app (ticker_at 4 10 100) (decision_at 3) holding
      gapped.0 gapped.1 (inr (inl (omega arith))) holding-is_held gapped_returns

limits : HasLimits decimals risk_config
limits = record { order = decimals-IsOrdered; dust = refl; minimum_order = refl }

-- A ticker from before the close of the bar.
early_raises :
    process_snapshot app (ticker_at 2 10 100) (decision_at 2) holding
    ≡ raised ticker_predates_candle holding
unfolding paper_runs
early_raises = refl

process_snapshot_errors_example : (holding ≡ holding) ⊎ (ticker_predates_candle ≡ negative_cash)
process_snapshot_errors_example =
    process_snapshot_errors app (ticker_at 2 10 100) (decision_at 2) holding holding
      ticker_predates_candle limits holding-IsConsistent early_raises

-- The price has halved: the watch halts the account at the drawdown and sells in its second look.
abbrev crashed : PortfolioState ℤ
crashed = record holding {
  cash = won 0;
  entry = record holding.entry { entry_stop_distance_pct = won 1; peak_position_price = won 0 };
}

abbrev seen :
    PortfolioState ℤ
    → Result (PortfolioState ℤ) (PortfolioState ℤ × Option (PaperSnapshotResult ℤ))
    → PortfolioState ℤ × PaperSnapshotResult ℤ
seen s (ok (s', some result)) = (s', result)
seen s (ok (s', none)) = (s', no_result)
seen s (raised e s') = (s', no_result)

abbrev watched : PortfolioState ℤ × PaperSnapshotResult ℤ
watched = seen crashed (monitor_position app (ticker_at 2 10 50) crashed)

watched_returns : monitor_position app (ticker_at 2 10 50) crashed ≡ ok (watched.0, some watched.1)
unfolding paper_runs
watched_returns = refl

watched_sells : (fills sell_side watched.1.events ≡ 1) × (watched.0.halt_state ≡ halted)
unfolding paper_runs
watched_sells = (refl, refl)

crashed-IsConsistent : IsConsistent crashed
unfolding paper_runs
crashed-IsConsistent = record {
  position = inl (record { entry_time = refl; notional = refl; quantity = refl });
  halt = inl refl;
}

monitor_position_settles_example :
    ((watched.0.halt_state ≡ active)
      ⊎ ((watched.0.halt_state ≡ halted) × (is_held watched.0 ≡ false)))
    × (fills buy_side watched.1.events ≡ 0)
monitor_position_settles_example =
    monitor_position_settles decimals-IsOrdered app (ticker_at 2 10 50) crashed watched.0 watched.1
      (omega arith) crashed-IsConsistent watched_returns
