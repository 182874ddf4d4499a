-- ===== src/Depth/Replay.antt =====
-- src/coinpilot/hft_depth.py: `replay_independent_taker_orders`, which selects a book for each order
-- and sweeps it.
use ai_coin_trading.Prelude.{
  ℕ, ◌+◌, String, Bool, true, not, Option, none, some, List, [], ◌∷◌, ltb, if◌then◌else◌,
}
use ai_coin_trading.Arith.{Arith}
use ai_coin_trading.Depth.{
  PublicOrderBook, IndependentTakerOrder, Refusal, no_book_at_or_after_due, BookRun, built,
  duplicate_ordinals, duplicate_decision_keys, chosen, refused_for, precedes_due, build_index,
  select,
}
use ai_coin_trading.Depth.Sweep.{
  fee_out_of_range, gap_out_of_range, selection_precedes_due, duplicate_books, Replayed, replayed,
  failed, ◌>>=◌, VisibleDepthExecution, valid_fee, sweep_visible_depth,
}

-- `max_book_gap_ns` is a positive number or None.
pub record DepthReplayConfig (F : Type 0) : Type 0 where
  pub latency_ns : ℕ
  pub fee_rate : F
  pub max_book_gap_ns : Option ℕ

pub data ReplayStatus : Type 0 where
  filled partial invalid unavailable : ReplayStatus

pub data OutcomeReason : Type 0 where
  filled_at_first_eligible_book visible_depth_exhausted : OutcomeReason
  not_executed : Refusal → OutcomeReason

pub record TakerReplayOutcome (F : Type 0) : Type 0 where
  pub outcome_order_id : String
  pub status : ReplayStatus
  pub reason : OutcomeReason
  pub outcome_decision_ordinal : ℕ
  pub outcome_decision_ns : ℕ
  pub due_monotonic_ns : ℕ
  pub selected_book_ordinal : Option ℕ
  pub selected_book_monotonic_ns : Option ℕ
  pub execution : Option (VisibleDepthExecution F)

-- `_empty_outcome` tells the orders that only came too late from the invalid ones.
abbrev pub refusal_status : Refusal → ReplayStatus
refusal_status no_book_at_or_after_due = unavailable
refusal_status _ = invalid

abbrev pub valid_gap : Option ℕ → Bool
valid_gap none = true
valid_gap (some gap) = ltb 0 gap

module _ {F : Type 0} where
  unfoldable pub empty_outcome : IndependentTakerOrder F → ℕ → Refusal → TakerReplayOutcome F
  empty_outcome order due why = record {
    outcome_order_id = order.order_id;
    status = refusal_status why;
    reason = not_executed why;
    outcome_decision_ordinal = order.decision_book_ordinal;
    outcome_decision_ns = order.decision_monotonic_ns;
    due_monotonic_ns = due;
    selected_book_ordinal = none;
    selected_book_monotonic_ns = none;
    execution = none;
  }

  unfoldable pub full_outcome :
      IndependentTakerOrder F
      → ℕ
      → PublicOrderBook F
      → VisibleDepthExecution F
      → TakerReplayOutcome F
  full_outcome order due book e = record {
    outcome_order_id = order.order_id;
    status = if e.fully_filled then filled else partial;
    reason = if e.fully_filled then filled_at_first_eligible_book else visible_depth_exhausted;
    outcome_decision_ordinal = order.decision_book_ordinal;
    outcome_decision_ns = order.decision_monotonic_ns;
    due_monotonic_ns = due;
    selected_book_ordinal = some book.ordinal;
    selected_book_monotonic_ns = some book.received_monotonic_ns;
    execution = some e;
  }

module _ {F : Type 0} ⦃a : Arith F⦄ where
  -- One order of the loop.
  unfoldable pub replay_order :
      List (BookRun F)
      → DepthReplayConfig F
      → IndependentTakerOrder F
      → Replayed (TakerReplayOutcome F)
  replay_order runs config order =
      let due = order.decision_monotonic_ns + config.latency_ns in
      elim (select runs order due) [
        | refused_for why ↦ replayed (empty_outcome order due why)
        | precedes_due ↦ failed selection_precedes_due
        | chosen book ↦ sweep_visible_depth book order config.fee_rate >>= λ e.
            replayed (full_outcome order due book e)
      ]

  unfoldable pub replay_orders :
      List (BookRun F)
      → DepthReplayConfig F
      → List (IndependentTakerOrder F)
      → Replayed (List (TakerReplayOutcome F))
  replay_orders runs config [] = replayed []
  replay_orders runs config (order ∷ orders) = replay_order runs config order >>= λ outcome.
      replay_orders runs config orders >>= λ outcomes. replayed (outcome ∷ outcomes)

  unfoldable pub replay_independent_taker_orders :
      List (PublicOrderBook F)
      → List (IndependentTakerOrder F)
      → DepthReplayConfig F
      → Replayed (List (TakerReplayOutcome F))
  replay_independent_taker_orders books orders config =
      if not (valid_fee config.fee_rate)
      then failed fee_out_of_range
      else if not (valid_gap config.max_book_gap_ns)
      then failed gap_out_of_range
      else elim (build_index books config.max_book_gap_ns) [
        | built runs ↦ replay_orders runs config orders
        | duplicate_ordinals ↦ failed duplicate_books
        | duplicate_decision_keys ↦ failed duplicate_books
      ]
