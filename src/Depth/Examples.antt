-- ===== src/Depth/Examples.antt =====
-- Three books of one connection, and a fourth after a gap in the archive.
use ai_coin_trading.Prelude.{
  ℕ, ◌≤◌, String, ◌≡◌, refl, Bool, true, false, none, some, List, [], ◌∷◌, arith, if◌then◌else◌,
}
use ai_coin_trading.Decimal.{ℤ, decimal, decimals}
use ai_coin_trading.Depth.{
  DepthLevel, PublicOrderBook, buy_order, IndependentTakerOrder, archive_gap, BookRun, built,
  chosen, refused_for, get_elem?, insert_book, sort_books, occurs, has_duplicates, add_to_stream,
  grouped, boundary, continue_run, stream_runs, all_runs, build_index, index_of, find_anchor,
  bisect_left, pick, select,
}
use ai_coin_trading.Depth.Outcomes.{IsExpected, AllTimely, replay_timely, replay_errors}
use ai_coin_trading.Depth.Replay.{
  DepthReplayConfig, TakerReplayOutcome, empty_outcome, full_outcome, replay_order, replay_orders,
  replay_independent_taker_orders,
}
use ai_coin_trading.Depth.Selection.{select-chosen, select_earliest}
use ai_coin_trading.Depth.Sweep.{
  duplicate_books, Replayed, replayed, failed, VisibleDepthExecution, SweepState, take_level,
  sweep_levels, execution_of, finish_sweep, sweep_visible_depth,
}
use ai_coin_trading.Samples.{won}

abbrev book_at : ℕ → ℕ → Bool → PublicOrderBook ℤ
book_at ordinal time gap = record {
  capture_id = "c";
  connection_id = "n";
  ordinal = ordinal;
  market = "KRW-BTC";
  received_monotonic_ns = time;
  received_wall_ns = none;
  exchange_timestamp_ms = none;
  asks = record { price = won 101; base_size = won 2 } ∷ [];
  bids = record { price = won 99; base_size = won 3 } ∷ [];
  gap_before = gap;
  gap_reason = if gap then some "reconnect" else none;
  monotonic_regression = false;
}

-- The archive need not be in order.
abbrev archive : List (PublicOrderBook ℤ)
archive = book_at 3 120 false ∷ book_at 1 100 false ∷ book_at 2 110 false ∷ book_at 4 130 true ∷ []

abbrev first_run : BookRun ℤ
first_run = record {
  books = book_at 1 100 false ∷ book_at 2 110 false ∷ book_at 3 120 false ∷ [];
  end_reason = some (archive_gap (some "reconnect"));
}

abbrev runs : List (BookRun ℤ)
runs = first_run ∷ record { books = book_at 4 130 true ∷ []; end_reason = none } ∷ []

abbrev order : IndependentTakerOrder ℤ
order = record {
  order_id = "o";
  order_capture_id = "c";
  order_connection_id = "n";
  order_market = "KRW-BTC";
  side = buy_order;
  decision_book_ordinal = 1;
  decision_monotonic_ns = 100;
  base_quantity = some (won 1);
  quote_notional = none;
}

abbrev depth_runs : ℕ
unfolding build_index sort_books insert_book has_duplicates occurs grouped add_to_stream all_runs
    stream_runs continue_run boundary select find_anchor index_of get_elem? bisect_left pick
depth_runs = 0

archive_built : build_index archive (some 50) ≡ built runs
unfolding depth_runs
archive_built = refl

-- An order that is due after the gap gets the reason of the gap.
late_order : select runs order 125 ≡ refused_for (archive_gap (some "reconnect"))
unfolding depth_runs
late_order = refl

select-chosen_example :
    ◌≡◌ {A = String} "c" "c"
    × ◌≡◌ {A = String} "KRW-BTC" "KRW-BTC"
    × ◌≡◌ {A = String} "n" "n"
    × ◌≤◌ 100 110
    × ◌≤◌ 105 110
unfolding depth_runs
select-chosen_example =
    select-chosen archive (some 50) runs order 105 archive_built (book_at 2 110 false) refl

select_earliest_example :
    (x : PublicOrderBook ℤ) × (select runs order 105 ≡ chosen x) × (x.received_monotonic_ns ≤ 120)
unfolding depth_runs
select_earliest_example =
    select_earliest archive (some 50) runs order 105 archive_built first_run 0 2
      (book_at 1 100 false) (book_at 3 120 false) refl refl refl refl (omega arith) (omega arith)

abbrev replay_config : DepthReplayConfig ℤ
replay_config = record { latency_ns = 5; fee_rate = decimal 5 10_000; max_book_gap_ns = some 50 }

-- One order is filled by the second book, and one has its decision in no book.
abbrev orders : List (IndependentTakerOrder ℤ)
orders = order ∷ record order { decision_book_ordinal = 9 } ∷ []

abbrev outcomes_in : Replayed (List (TakerReplayOutcome ℤ)) → List (TakerReplayOutcome ℤ)
outcomes_in (failed e) = []
outcomes_in (replayed outcomes) = outcomes

abbrev replay_runs : ℕ
unfolding build_index sort_books insert_book has_duplicates occurs grouped add_to_stream all_runs
    stream_runs continue_run boundary select find_anchor index_of get_elem? bisect_left pick
    sweep_visible_depth sweep_levels take_level finish_sweep execution_of empty_outcome full_outcome
    replay_order replay_orders replay_independent_taker_orders
replay_runs = 0

abbrev outcomes : List (TakerReplayOutcome ℤ)
outcomes = outcomes_in (replay_independent_taker_orders archive orders replay_config)

outcomes_returned : replay_independent_taker_orders archive orders replay_config ≡ replayed outcomes
unfolding replay_runs
outcomes_returned = refl

replay_timely_example : AllTimely replay_config orders outcomes
replay_timely_example = replay_timely archive orders replay_config outcomes outcomes_returned

replay_errors_example : IsExpected duplicate_books
unfolding replay_runs
replay_errors_example =
    replay_errors (book_at 1 100 false ∷ book_at 1 110 false ∷ []) orders replay_config
      duplicate_books refl

abbrev three : List (DepthLevel ℤ)
three =
    record { price = won 101; base_size = won 2 }
    ∷ record { price = won 102; base_size = won 2 }
    ∷ []

abbrev filling : SweepState ℤ
filling = record { remaining = won 3; swept_base = won 0; swept_quote = won 0; consumed = 0 }

abbrev one_level : VisibleDepthExecution ℤ
one_level =
    execution_of (book_at 2 110 false) order (decimal 5 10_000) (won 101) (won 100)
      (record { remaining = won 0; swept_base = won 1; swept_quote = won 101; consumed = 1 })
