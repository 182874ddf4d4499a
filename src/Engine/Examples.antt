-- ===== src/Engine/Examples.antt =====
-- Runs of `process_bar` over the decimals, and the theorems about it at these runs.
use ai_coin_trading.Prelude.{
  ℕ, ◌≤◌, ◌≡◌, refl, ◌⊎◌, inl, true, false, none, [], arith, length, negative_cash, market_mismatch,
  bars_not_increasing, Result, ok, raised,
}
use ai_coin_trading.Arith.{zero_f, max_f}
use ai_coin_trading.Broker.{
  active, halt_pending, halted, buy_side, sell_side, PortfolioState, no_signal, initial, buy,
  sell_all,
}
use ai_coin_trading.Decimal.{ℤ, decimals, decimals-IsOrdered}
use ai_coin_trading.Engine.Activity.{process_bar-fills, process_bar_no_entry}
use ai_coin_trading.Engine.Blocks.{
  after_gap, check_gap, record_sell, sell, exit_at_open, wants_entry, record_buy, open_position,
  enter, check_stop,
}
use ai_coin_trading.Engine.Causality.{executed, process_bar_causal}
use ai_coin_trading.Engine.Consistency.{IsConsistent, process_bar-IsConsistent}
use ai_coin_trading.Engine.Count.{fills}
use ai_coin_trading.Engine.Drawdown.{process_bar_drawdown}
use ai_coin_trading.Engine.Errors.{HasLimits, process_bar_errors}
use ai_coin_trading.Engine.Halts.{process_bar_halted, process_bar_liquidates}
use ai_coin_trading.Engine.Process.{
  equity_at, is_breached, check_drawdown, tick_cooldown, trade_bar, next_pending, close_bar,
  process_bar, liquidate,
}
use ai_coin_trading.Engine.Types.{BarStep, is_active, is_held}
use ai_coin_trading.Risk.{size_entry, drawdown}
use ai_coin_trading.Samples.{won, risk_config, config, hour, decided, holding, silent, loud, bar_at}

abbrev no_step : BarStep ℤ
no_step = record {
  timestamp = 0;
  equity = won 0;
  cash = won 0;
  quantity = won 0;
  close = won 0;
  drawdown = won 0;
  halt_state = active;
  pending_probability = none;
  pending_expected_net_edge = none;
  pending_signal_eligible = false;
  events = [];
  trades = [];
}

-- What a call returned.
abbrev outcome :
    PortfolioState ℤ
    → Result (PortfolioState ℤ) (PortfolioState ℤ × BarStep ℤ)
    → PortfolioState ℤ × BarStep ℤ
outcome s (ok x) = x
outcome s (raised e s') = (s', no_step)

-- All that a run computes with, for the `unfolding` lines below.
abbrev engine_runs : ℕ
unfolding process_bar trade_bar check_gap exit_at_open enter wants_entry open_position record_buy
    record_sell sell check_stop equity_at check_drawdown tick_cooldown close_bar next_pending buy
    sell_all size_entry drawdown initial liquidate fills after_gap
engine_runs = 0

-- The bar of hour 2 buys and, as it falls to 50, stops out.
abbrev whipsaw : PortfolioState ℤ × BarStep ℤ
whipsaw = outcome decided (process_bar config (hour 3) (bar_at 2 100 50) loud decided)

whipsaw_returns :
    process_bar config (hour 3) (bar_at 2 100 50) loud decided ≡ ok (whipsaw.0, whipsaw.1)
unfolding engine_runs
whipsaw_returns = refl

whipsaw_trades :
    (fills buy_side whipsaw.1.events ≡ 1)
    × (fills sell_side whipsaw.1.events ≡ 1)
    × (whipsaw.0.cooldown_remaining ≡ 6)
unfolding engine_runs
whipsaw_trades = (refl, refl, refl)

process_bar_causal_example :
    executed (process_bar config (hour 3) (bar_at 2 100 50) loud decided)
    ≡ executed (process_bar config (hour 3) (bar_at 2 100 50) silent decided)
process_bar_causal_example =
    process_bar_causal config (hour 3) (bar_at 2 100 50) loud silent decided

process_bar-fills_example :
    (fills buy_side whipsaw.1.events ≤ 1)
    × (fills sell_side whipsaw.1.events ≤ 1)
    × (length whipsaw.1.trades ≡ fills sell_side whipsaw.1.events)
process_bar-fills_example =
    process_bar-fills config (hour 3) (bar_at 2 100 50) loud decided whipsaw.0 whipsaw.1
      decimals-IsOrdered whipsaw_returns

process_bar_drawdown_example :
    (whipsaw.0.peak_equity ≡ max_f decided.peak_equity whipsaw.1.equity)
    × (whipsaw.1.drawdown ≡ drawdown whipsaw.1.equity whipsaw.0.peak_equity)
    × ((is_active whipsaw.0.halt_state ≡ false)
        ⊎ (is_breached config.risk_config whipsaw.1.drawdown ≡ false))
process_bar_drawdown_example =
    process_bar_drawdown config (hour 3) (bar_at 2 100 50) loud decided whipsaw.0 whipsaw.1
      whipsaw_returns

-- An account in a cooldown, with the same decision.
abbrev cooling : PortfolioState ℤ
cooling = record decided { cooldown_remaining = 2 }

abbrev cooled : PortfolioState ℤ × BarStep ℤ
cooled = outcome cooling (process_bar config (hour 3) (bar_at 2 100 50) loud cooling)

cooled_returns :
    process_bar config (hour 3) (bar_at 2 100 50) loud cooling ≡ ok (cooled.0, cooled.1)
unfolding engine_runs
cooled_returns = refl

process_bar_no_entry_example : fills buy_side cooled.1.events ≡ 0
process_bar_no_entry_example =
    process_bar_no_entry config (hour 3) (bar_at 2 100 50) loud cooling cooled.0 cooled.1
      (inl (omega arith)) cooled_returns

-- A position under a pending halt, at the bar of hour 2.
abbrev halting : PortfolioState ℤ
halting = record holding { halt_state = halt_pending }

abbrev sold : PortfolioState ℤ × BarStep ℤ
sold = outcome halting (process_bar config (hour 3) (bar_at 2 100 99) loud halting)

sold_returns : process_bar config (hour 3) (bar_at 2 100 99) loud halting ≡ ok (sold.0, sold.1)
unfolding engine_runs
sold_returns = refl

halting_held : is_held halting ≡ true
unfolding engine_runs
halting_held = refl

process_bar_halted_example :
    (is_active sold.0.halt_state ≡ false) × (is_held sold.0 ≡ false) × (sold.0.pending ≡ no_signal)
process_bar_halted_example =
    process_bar_halted config (hour 3) (bar_at 2 100 99) loud halting sold.0 sold.1
      decimals-IsOrdered refl sold_returns

process_bar_liquidates_example :
    (sold.0.halt_state ≡ halted) × (sold.0.quantity ≡ zero_f) × (fills sell_side sold.1.events ≡ 1)
process_bar_liquidates_example =
    process_bar_liquidates config (hour 3) (bar_at 2 100 99) loud halting sold.0 sold.1
      decimals-IsOrdered refl halting_held sold_returns

holding-IsConsistent : IsConsistent holding
unfolding engine_runs
holding-IsConsistent = record {
  position = inl (record { entry_time = refl; notional = refl; quantity = refl });
  halt = inl refl;
}

-- A gap of an hour under the same position: halted and sold at once.
abbrev gapped : PortfolioState ℤ × BarStep ℤ
gapped = outcome holding (process_bar config (hour 4) (bar_at 3 100 99) loud holding)

gapped_returns :
    process_bar config (hour 4) (bar_at 3 100 99) loud holding ≡ ok (gapped.0, gapped.1)
unfolding engine_runs
gapped_returns = refl

process_bar-IsConsistent_example : IsConsistent gapped.0
process_bar-IsConsistent_example =
    process_bar-IsConsistent config (hour 4) (bar_at 3 100 99) loud holding gapped.0 gapped.1
      decimals-IsOrdered holding-IsConsistent gapped_returns

limits : HasLimits decimals risk_config
limits = record { order = decimals-IsOrdered; dust = refl; minimum_order = refl }

-- The bar of hour 1 again.
repeated_raises :
    process_bar config (hour 4) (bar_at 1 100 99) loud holding ≡ raised bars_not_increasing holding
unfolding engine_runs
repeated_raises = refl

process_bar_errors_example :
    (((bars_not_increasing ≡ market_mismatch) ⊎ (bars_not_increasing ≡ bars_not_increasing))
      × (holding ≡ holding))
    ⊎ (bars_not_increasing ≡ negative_cash)
process_bar_errors_example =
    process_bar_errors config (hour 4) (bar_at 1 100 99) loud holding holding bars_not_increasing
      limits holding-IsConsistent repeated_raises
