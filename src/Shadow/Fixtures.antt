-- ===== src/Shadow/Fixtures.antt =====
-- A new run of the shadow engine over the decimals, its books and an intent.
use ai_coin_trading.Prelude.{ℕ, ◌+◌, String, true, false, none, some, [], ◌∷◌}
use ai_coin_trading.Decimal.{ℤ, decimal, decimals}
use ai_coin_trading.Depth.{PublicOrderBook}
use ai_coin_trading.Depth.Sweep.{
  take_level, sweep_levels, execution_of, finish_sweep, sweep_visible_depth,
}
use ai_coin_trading.Outbox.{required_text}
use ai_coin_trading.Samples.{won}
use ai_coin_trading.Shadow.Book.{
  ShadowStepResult, break_feed, settle_recovery, recover, warm_up, continue_feed, apply_book,
  apply_intent,
}
use ai_coin_trading.Shadow.Close.{closed_state, close_book}
use ai_coin_trading.Shadow.Control.{halt, stop_run}
use ai_coin_trading.Shadow.Engine.{
  check_repeated, duplicate_result, process_new, process_state, process_book,
}
use ai_coin_trading.Shadow.Feed.{event_wall_ns, is_exact_duplicate, reject_regressed, continuity_of}
use ai_coin_trading.Shadow.Intents.{rejection_of, record_order, record_intent}
use ai_coin_trading.Shadow.Ledger.{
  find_row, update_rows, count_rows, insert_exact, enqueue_notification, expire_pending,
  expire_order, set_run, state_fits, save_state,
}
use ai_coin_trading.Shadow.Orders.{
  fill_order_row, expire_resolved, expire_stale, resolve_order, resolve_pending,
}
use ai_coin_trading.Shadow.Predecessor.{find_predecessor, start_halt, end_predecessor}
use ai_coin_trading.Shadow.Rows.{ShadowState, Ledger}
use ai_coin_trading.Shadow.Sampling.{liquidation_equity, latest, sample_equity, sample_health}
use ai_coin_trading.Shadow.Settle.{
  ShadowConfig, ShadowIntent, validate_intent, settle_buy, settle_sell, settle_fill,
}
use ai_coin_trading.Shadow.Start.{insert_run, start_existing, start_new, start_run}
use ai_coin_trading.Shadow.Types.{
  Step, refused, warmup, interrupted, buy_action, given_features, done,
}

abbrev pub config : ShadowConfig ℤ
config = record {
  shadow_market = "KRW-BTC";
  shadow_fee_rate = decimal 5 10_000;
  shadow_latency_ns = 50;
  shadow_max_gap_ns = 1000;
  warmup_books = 1;
  max_order_quote = won 250_000;
  equity_sample_interval_ns = 5000;
  health_sample_interval_ns = 10_000;
  one_position_only = true;
  position_epsilon = decimal 1 1_000_000_000_000;
}

abbrev pub new_state : ShadowState ℤ
new_state = record {
  state_run = "r";
  revision = 1;
  lifecycle_status = warmup;
  cash_quote = won 10_000_000;
  base_quantity = won 0;
  average_cost_quote = won 0;
  realized_pnl_quote = won 0;
  cumulative_fees_quote = won 0;
  last_equity_quote = won 10_000_000;
  peak_equity_quote = won 10_000_000;
  max_drawdown = won 0;
  warmup_books_seen = 0;
  last_capture_id = none;
  last_connection_id = none;
  last_book_ordinal = none;
  last_book_monotonic_ns = none;
  last_book_wall_ns = none;
  halt_reason = none;
  updated_wall_ns = 1;
}

abbrev pub new_ledger : Ledger ℤ
new_ledger = record {
  runs =
      record {
        run_id = "r";
        run_market = "KRW-BTC";
        run_status = warmup;
        started_wall_ns = 1;
        ended_wall_ns = none;
        restart_of_run_id = none;
        config_hash = "h";
        config_json = "{}";
        code_version = "v";
        run_halt_reason = none;
      }
      ∷ [];
  states = new_state ∷ [];
  decisions = [];
  orders = [];
  fills = [];
  equity = [];
  health = [];
  outbox = [];
}

-- A book of connection `c`, at this time.
abbrev pub book_at : String → ℕ → ℕ → PublicOrderBook ℤ
book_at c ordinal time = record {
  capture_id = "cap";
  connection_id = c;
  ordinal = ordinal;
  market = "KRW-BTC";
  received_monotonic_ns = time;
  received_wall_ns = some (time + 1_000_000);
  exchange_timestamp_ms = none;
  asks = record { price = won 1000; base_size = won 500 } ∷ [];
  bids = record { price = won 990; base_size = won 500 } ∷ [];
  gap_before = false;
  gap_reason = none;
  monotonic_regression = false;
}

abbrev pub buys : ShadowIntent ℤ
buys = record {
  intent_action = buy_action;
  intent_reason = "signal";
  intent_policy = "p1";
  intent_signal = none;
  intent_quote = some (won 100_000);
  intent_base = none;
  intent_features = given_features "{}";
}

abbrev pub no_result : ShadowStepResult ℤ
no_result = record {
  result_lifecycle = interrupted;
  decision_id = none;
  decision_outcome = none;
  order_id = none;
  resolved_order_id = none;
  fill_id = none;
  duplicate_event = false;
  continuity_reason = none;
  result_cash = won 0;
  result_base = won 0;
  result_equity = won 0;
}

abbrev pub outcome : Step (Ledger ℤ × ShadowStepResult ℤ) → Ledger ℤ × ShadowStepResult ℤ
outcome (done x) = x
outcome (refused e) = (new_ledger, no_result)

unfoldable pub shadow_runs : ℕ
unfolding process_book process_state process_new apply_book apply_intent close_book
    liquidation_equity closed_state sample_equity sample_health continue_feed warm_up recover
    settle_recovery break_feed continuity_of reject_regressed is_exact_duplicate event_wall_ns
    record_intent record_order rejection_of resolve_pending resolve_order expire_resolved
    expire_stale fill_order_row settle_fill settle_buy settle_sell validate_intent required_text
    insert_exact find_row update_rows count_rows enqueue_notification expire_pending expire_order
    set_run save_state state_fits latest sweep_visible_depth sweep_levels take_level finish_sweep
    execution_of duplicate_result check_repeated halt stop_run start_run start_new start_existing
    insert_run find_predecessor end_predecessor start_halt
shadow_runs = 0
