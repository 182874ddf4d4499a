-- ===== src/Signal/Examples.antt =====
-- Records of the feed over the decimals, and the theorems about the signal at them.
use ai_coin_trading.Prelude.{ℕ, ◌≡◌, refl, Bool, true, false, none, some, [], ◌∷◌, leb}
use ai_coin_trading.Decimal.{ℤ, decimal, decimals}
use ai_coin_trading.Depth.{PublicOrderBook, buy_order}
use ai_coin_trading.Outbox.{required_text}
use ai_coin_trading.Samples.{won}
use ai_coin_trading.Signal.Breaks.{marked_gap, feed_break}
use ai_coin_trading.Signal.Feed.{
  sum_from, values_if, first_sizes, flow_of, imbalance_of, spread_of, take_book, take_event,
  feed_record, feed,
}
use ai_coin_trading.Signal.Stream.{
  has_text, discard, reset, is_boundary, continuity, prune, take_trade,
}
use ai_coin_trading.Signal.Tracking.{ids_of, HasNoRepeats, IsTracked, feed-IsTracked}
use ai_coin_trading.Signal.Types.{
  SignalEvent, trade_event, book_event, Envelope, SignalSettings, SignalState, DiagnosticSnapshot,
  SignalOutcome, emitted,
}

abbrev settings : SignalSettings ℤ
settings = record {
  signal_warmup = 2;
  window_ns = 1_000;
  signal_model = "m";
  book_weight = decimal 7 10;
  flow_weight = decimal 3 10;
}

abbrev started : SignalState ℤ
started = record {
  stream_connection = none;
  stream_capture = none;
  last_ordinal = none;
  books_seen = 0;
  signed_trades = [];
  trade_ids = [];
}

abbrev sent : ℕ → Bool → ℕ → SignalEvent ℤ → Envelope ℤ
sent ordinal gap time event = record {
  schema_version = some 1;
  record_ordinal = some ordinal;
  record_capture = some "cap";
  record_connection = some "a";
  record_gap = gap;
  record_regression = false;
  record_received_ns = some time;
  event = some event;
}

abbrev bought_one : SignalEvent ℤ
bought_one = trade_event " t1" (some (won 1000)) (some (won 2)) (some buy_order)

abbrev third_book : PublicOrderBook ℤ
third_book = record {
  capture_id = "cap";
  connection_id = "a";
  ordinal = 3;
  market = "KRW-BTC";
  received_monotonic_ns = 120;
  received_wall_ns = none;
  exchange_timestamp_ms = none;
  asks = record { price = won 1010; base_size = won 1 } ∷ [];
  bids = record { price = won 990; base_size = won 3 } ∷ [];
  gap_before = false;
  gap_reason = none;
  monotonic_regression = false;
}

abbrev shown_book : SignalEvent ℤ
shown_book = book_event (some third_book)

unfoldable signal_runs : ℕ
unfolding feed feed_record take_event take_book take_trade continuity reset is_boundary prune
    has_text discard sum_from values_if first_sizes flow_of imbalance_of spread_of required_text
    ids_of HasNoRepeats
signal_runs = 0

abbrev traded : SignalState ℤ
traded = (feed settings (sent 1 false 100 bought_one) started).0

-- The trade counts in the flow of the next book.
traded_once : traded.trade_ids ≡ "t1" ∷ []
unfolding signal_runs
traded_once = refl

started-IsTracked : IsTracked started
unfolding signal_runs
started-IsTracked = record { same = λ id. refl; once = tt }

feed-IsTracked_example : IsTracked traded
feed-IsTracked_example =
    feed-IsTracked settings (sent 1 false 100 bought_one) started started-IsTracked

-- A book after a gap.
abbrev gapped : SignalState ℤ × SignalOutcome ℤ
gapped = feed settings (sent 2 true 120 shown_book) traded

abbrev no_snap : DiagnosticSnapshot ℤ
no_snap = record {
  snapshot_book = third_book;
  ready = true;
  snapshot_books_seen = 0;
  book_imbalance = won 0;
  trade_flow = won 0;
  snapshot_signal = won 0;
  spread_bps = won 0;
  model_version = "";
}

abbrev snapshot_of : SignalOutcome ℤ → DiagnosticSnapshot ℤ
snapshot_of (emitted snap) = snap
snapshot_of _ = no_snap

gapped_run :
    feed settings (sent 2 true 120 shown_book) traded ≡ (gapped.0, emitted (snapshot_of gapped.1))
unfolding signal_runs
gapped_run = refl

-- The trade before the gap does not count, and the warm-up begins again.
feed_break_example :
    ((snapshot_of gapped.1).snapshot_books_seen ≡ 1)
    × ((snapshot_of gapped.1).ready ≡ leb 2 1)
    × (gapped.0.signed_trades ≡ [])
    × ((snapshot_of gapped.1).trade_flow ≡ flow_of [])
feed_break_example =
    feed_break settings (sent 2 true 120 shown_book) traded gapped.0 (snapshot_of gapped.1)
      (marked_gap refl) gapped_run
