-- ===== src/Depth/Sweep.antt =====
-- src/coinpilot/hft_depth.py: `sweep_visible_depth`, which fills an order from the visible levels of a
-- book.
use ai_coin_trading.Prelude.{
  ℕ, ◌+◌, ◌^◌, String, Bool, true, false, not, ◌&&◌, ◌||◌, Option, none, some, List, [], ◌∷◌,
  str_eq, if◌then◌else◌, is_some,
}
use ai_coin_trading.Arith.{Arith, ◌⊕◌, ◌⊖◌, ◌⊗◌, ◌⊘◌, ◌<?◌, ◌≤?◌, zero_f, one_f, max_f, min_f}
use ai_coin_trading.Depth.{
  DepthLevel, PublicOrderBook, OrderSide, buy_order, sell_order, IndependentTakerOrder,
}

pub data RequestKind : Type 0 where
  base_request quote_request : RequestKind

-- What a sweep or a replay raises. `index_error` is that of a book without levels on a side.
pub data DepthError : Type 0 where
  book_mismatch fee_out_of_range no_fill index_error : DepthError
  gap_out_of_range selection_precedes_due duplicate_books : DepthError

pub data Replayed (A : Type 0) : Type 0 where
  replayed : A → Replayed A
  failed : DepthError → Replayed A

infixl 5 ◌>>=◌
abbrev pub ◌>>=◌ : {A B : Type 0} → Replayed A → (A → Replayed B) → Replayed B
failed e >>= rest = failed e
replayed x >>= rest = rest x

-- Its `status` is `fully_filled` in words, and its `assumptions` are one constant.
pub record VisibleDepthExecution (F : Type 0) : Type 0 where
  pub execution_order_id : String
  pub execution_capture_id : String
  pub execution_connection_id : String
  pub execution_market : String
  pub execution_side : OrderSide
  pub fully_filled : Bool
  pub request_kind : RequestKind
  pub requested_base : Option F
  pub requested_quote : Option F
  pub filled_base : F
  pub unfilled_base : F
  pub filled_quote : F
  pub unfilled_quote : F
  pub levels_consumed : ℕ
  pub best_price : F
  pub mid_price : F
  pub vwap_price : F
  pub slippage_quote_vs_best : F
  pub slippage_bps_vs_best : F
  pub slippage_quote_vs_mid : F
  pub slippage_bps_vs_mid : F
  pub execution_fee_rate : F
  pub fee_quote : F
  pub cash_flow_quote : F
  pub book_ordinal : ℕ
  pub book_received_monotonic_ns : ℕ
  pub book_received_wall_ns : Option ℕ
  pub book_exchange_timestamp_ms : Option ℕ

-- The variables of the loop.
pub record SweepState (F : Type 0) : Type 0 where
  pub remaining : F
  pub swept_base : F
  pub swept_quote : F
  pub consumed : ℕ

abbrev pub is_base : RequestKind → Bool
is_base base_request = true
is_base quote_request = false

abbrev pub is_buy : OrderSide → Bool
is_buy buy_order = true
is_buy sell_order = false

module _ {F : Type 0} ⦃a : Arith F⦄ where
  -- `-x`, which in floats is the product with -1.
  abbrev neg_f : F → F
  neg_f x = a.negative 1 1 ⊗ x

  abbrev abs_f : F → F
  abs_f x = if x <? zero_f then neg_f x else x

  abbrev pub kind_of : IndependentTakerOrder F → RequestKind
  kind_of order = if is_some order.base_quantity then base_request else quote_request

  -- The quantity in the requested unit; a constructed order has exactly one.
  abbrev pub requested : IndependentTakerOrder F → F
  requested order = elim order.base_quantity [
    | some quantity ↦ quantity
    | none ↦ elim order.quote_notional [ some notional ↦ notional | none ↦ zero_f ]
  ]

  -- What is left is nothing if it is within the rounding of what has been filled.
  abbrev pub rounded : F → F → F
  rounded left quote =
      if abs_f left ≤? max_f (a.literal 1 (10 ^ 12)) (abs_f quote ⊗ a.literal 1 (10 ^ 15))
      then zero_f
      else left

  -- One level of the loop.
  unfoldable pub take_level : RequestKind → DepthLevel F → SweepState F → SweepState F
  take_level kind level s =
      let take_base =
        if is_base kind
        then min_f level.base_size s.remaining
        else min_f level.base_size (s.remaining ⊘ level.price) in
      let take_quote = take_base ⊗ level.price in
      let quote = s.swept_quote ⊕ take_quote in
      if take_base ≤? zero_f then s else record {
        remaining = rounded (s.remaining ⊖ (if is_base kind then take_base else take_quote)) quote;
        swept_base = s.swept_base ⊕ take_base;
        swept_quote = quote;
        consumed = s.consumed + 1;
      }

  unfoldable pub sweep_levels : RequestKind → List (DepthLevel F) → SweepState F → SweepState F
  sweep_levels kind [] s = s
  sweep_levels kind (level ∷ levels) s =
      if s.remaining ≤? zero_f then s else sweep_levels kind levels (take_level kind level s)

  -- `not 0 <= fee < 1`, or not finite
  abbrev pub valid_fee : F → Bool
  valid_fee fee = a.finite fee && (zero_f ≤? fee) && (fee <? one_f)

  abbrev pub matches : PublicOrderBook F → IndependentTakerOrder F → Bool
  matches book order =
      str_eq order.order_capture_id book.capture_id
      && str_eq order.order_connection_id book.connection_id
      && str_eq order.order_market book.market

  -- `remaining == 0.0`
  abbrev pub is_zero : F → Bool
  is_zero x = (x ≤? zero_f) && (zero_f ≤? x)

  unfoldable pub execution_of :
      PublicOrderBook F
      → IndependentTakerOrder F
      → F
      → F
      → F
      → SweepState F
      → VisibleDepthExecution F
  execution_of book order rate best mid s =
      let kind = kind_of order in
      let vwap = s.swept_quote ⊘ s.swept_base in
      let direction = if is_buy order.side then one_f else a.negative 1 1 in
      let best_difference = direction ⊗ (vwap ⊖ best) in
      let mid_difference = direction ⊗ (vwap ⊖ mid) in
      let fee = s.swept_quote ⊗ rate in
      record {
        execution_order_id = order.order_id;
        execution_capture_id = book.capture_id;
        execution_connection_id = book.connection_id;
        execution_market = book.market;
        execution_side = order.side;
        fully_filled = is_zero s.remaining;
        request_kind = kind;
        requested_base = order.base_quantity;
        requested_quote = order.quote_notional;
        filled_base = s.swept_base;
        unfilled_base = if is_base kind then max_f zero_f s.remaining else zero_f;
        filled_quote = s.swept_quote;
        unfilled_quote = if is_base kind then zero_f else max_f zero_f s.remaining;
        levels_consumed = s.consumed;
        best_price = best;
        mid_price = mid;
        vwap_price = vwap;
        slippage_quote_vs_best = s.swept_base ⊗ best_difference;
        slippage_bps_vs_best = best_difference ⊘ best ⊗ a.literal 10_000 1;
        slippage_quote_vs_mid = s.swept_base ⊗ mid_difference;
        slippage_bps_vs_mid = mid_difference ⊘ mid ⊗ a.literal 10_000 1;
        execution_fee_rate = rate;
        fee_quote = fee;
        cash_flow_quote =
            if is_buy order.side then neg_f (s.swept_quote ⊕ fee) else s.swept_quote ⊖ fee;
        book_ordinal = book.ordinal;
        book_received_monotonic_ns = book.received_monotonic_ns;
        book_received_wall_ns = book.received_wall_ns;
        book_exchange_timestamp_ms = book.exchange_timestamp_ms;
      }

  abbrev pub best_of : List (DepthLevel F) → Option F
  best_of [] = none
  best_of (level ∷ levels) = some level.price

  -- The sweep after its loop, with the best prices of the order's side and of both.
  unfoldable pub finish_sweep :
      PublicOrderBook F
      → IndependentTakerOrder F
      → F
      → SweepState F
      → Replayed (VisibleDepthExecution F)
  finish_sweep book order rate s =
      if (s.swept_base ≤? zero_f) || (s.swept_quote ≤? zero_f)
      then failed no_fill
      else elim (best_of book.asks) [
        | none ↦ failed index_error
        | some ask ↦ elim (best_of book.bids) [
          | none ↦ failed index_error
          | some bid ↦ replayed (
              execution_of book order rate (if is_buy order.side then ask else bid)
                ((ask ⊕ bid) ⊘ a.literal 2 1) s)
        ]
      ]

  unfoldable pub sweep_visible_depth :
      PublicOrderBook F → IndependentTakerOrder F → F → Replayed (VisibleDepthExecution F)
  sweep_visible_depth book order rate =
      if not (matches book order)
      then failed book_mismatch
      else if not (valid_fee rate)
      then failed fee_out_of_range
      else finish_sweep book order rate (
          sweep_levels (kind_of order) (if is_buy order.side then book.asks else book.bids)
            (record {
              remaining = requested order;
              swept_base = zero_f;
              swept_quote = zero_f;
              consumed = 0;
            }))
