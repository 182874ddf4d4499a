-- ===== src/Samples.antt =====
-- Values that the examples share: a configuration, an account and a signal over the decimals.
use ai_coin_trading.Prelude.{ℕ, ◌*◌, true, false, none, some}
use ai_coin_trading.Broker.{RiskConfig, PortfolioState, no_signal, initial}
use ai_coin_trading.Decimal.{ℤ, decimal, decimals}
use ai_coin_trading.Engine.Types.{SignalMode, ModelConfig, EngineConfig, Bar, Signal, minutes}

abbrev pub won : ℕ → ℤ
won n = decimal n 1

abbrev pub risk_config : RiskConfig ℤ
risk_config = record {
  initial_cash = won 10_000_000;
  risk_per_trade = decimal 5 1000;
  max_position_fraction = decimal 25 100;
  atr_stop_multiple = decimal 2 1;
  minimum_stop_pct = decimal 1 100;
  maximum_stop_pct = decimal 8 100;
  trailing_stop_pct = decimal 6 100;
  max_strategy_drawdown_pct = decimal 10 100;
  fee_rate = decimal 5 10_000;
  slippage_bps = decimal 5 1;
  cooldown_bars = 6;
  minimum_order_quote = won 5_000;
}

abbrev pub model_config : ModelConfig ℤ
model_config = record {
  signal_mode = SignalMode.probability;
  entry_probability = decimal 60 100;
  exit_probability = decimal 48 100;
  minimum_edge_pct = decimal 1 1000;
  horizon_bars = 6;
}

abbrev pub config : EngineConfig ℤ
config = record {
  risk_config = risk_config;
  model_config = model_config;
  interval_minutes = 60;
  halt_on_data_gap = true;
}

abbrev pub hour : ℕ → ℕ
hour n = minutes (60 * n)

abbrev pub new_account : PortfolioState ℤ
new_account = initial "KRW-BTC" (won 10_000_000) none

-- A decision to buy that waits for the bar of hour 2.
abbrev pub decided : PortfolioState ℤ
decided = record new_account {
  pending = record no_signal {
    pending_probability = some (decimal 70 100);
    pending_atr_pct = some (decimal 1 100);
    pending_signal_time = some (hour 2);
    pending_model_id = some "m1";
  };
  last_bar_time = some (hour 1);
}

-- The same account with a position of 20,000, bought at 100 with a stop at 98.
abbrev pub holding : PortfolioState ℤ
holding = record new_account {
  cash = won 8_000_000;
  quantity = won 20_000;
  entry = record {
    entry_time = some (hour 1);
    entry_signal_time = some (hour 1);
    entry_horizon_exit_time = none;
    entry_price = won 100;
    entry_notional = won 2_000_000;
    entry_fee = won 1_000;
    entry_stop_distance_pct = decimal 2 100;
    peak_position_price = won 100;
  };
  last_bar_time = some (hour 1);
}

abbrev pub silent : Signal ℤ
silent = record {
  probability = none;
  atr_pct = none;
  model_id = none;
  expected_gross_return = none;
  calibration_buffer = none;
  expected_net_edge = none;
  signal_eligible = false;
  no_trade_reason = none;
}

abbrev pub loud : Signal ℤ
loud = record silent { probability = some (decimal 90 100); atr_pct = some (decimal 1 100) }

-- A bar of hour `n` that opens and closes at `price` and falls to `low`.
abbrev pub bar_at : ℕ → ℕ → ℕ → Bar ℤ
bar_at n price low = record {
  market = "KRW-BTC";
  timestamp = hour n;
  raw_open = won price;
  high = won price;
  low = won low;
  close = won price;
}
