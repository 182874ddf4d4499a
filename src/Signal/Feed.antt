-- ===== src/Signal/Feed.antt =====
-- src/coinpilot/hft_shadow_signal.py: `feed`, with the snapshot of a book.
use ai_coin_trading.Prelude.{
  ℕ, zero, suc, ◌+◌, String, Bool, false, not, Option, none, some, List, [], ◌∷◌, ltb, leb, ◌==◌,
  if◌then◌else◌,
}
use ai_coin_trading.Arith.{Arith, ◌⊕◌, ◌⊖◌, ◌⊗◌, ◌⊘◌, ◌<?◌, zero_f}
use ai_coin_trading.Depth.{DepthLevel, PublicOrderBook}
use ai_coin_trading.Depth.Sweep.{best_of}
use ai_coin_trading.Outbox.{required_text}
use ai_coin_trading.Signal.Stream.{continuity, pruned, take_trade}
use ai_coin_trading.Signal.Types.{
  wrong_schema, wrong_ordinal, blank_stream, wrong_time, no_event, unknown_event, wrong_book,
  SignalEvent, trade_event, book_event, other_event, Envelope, SignedTrade, SignalSettings,
  SignalState, SignalOutcome, emitted, signal_error,
}

abbrev pub stream_text : Option String → Option String
stream_text none = none
stream_text (some t) = required_text t

abbrev pub is_schema : Option ℕ → Bool
is_schema none = false
is_schema (some n) = n == 1

module _ {F : Type 0} ⦃a : Arith F⦄ where
  -- Python's `sum`, from 0.
  unfoldable pub sum_from : F → List F → F
  sum_from total [] = total
  sum_from total (x ∷ xs) = sum_from (total ⊕ x) xs

  unfoldable pub values_if : (F → Bool) → List (SignedTrade F) → List F
  values_if test [] = []
  values_if test (t ∷ trades) =
      let rest = values_if test trades in
      if test t.signed_value then t.signed_value ∷ rest else rest

  unfoldable pub first_sizes : ℕ → List (DepthLevel F) → List F
  first_sizes zero levels = []
  first_sizes (suc n) [] = []
  first_sizes (suc n) (level ∷ levels) = level.base_size ∷ first_sizes n levels

  abbrev depth_of : List (DepthLevel F) → F
  depth_of levels = sum_from zero_f (first_sizes 5 levels)

  -- The part of two amounts by which the first is larger.
  abbrev balance : F → F → F
  balance x y = if zero_f <? (x ⊕ y) then (x ⊖ y) ⊘ (x ⊕ y) else zero_f

  unfoldable pub flow_of : List (SignedTrade F) → F
  flow_of trades =
      let bought = sum_from zero_f (values_if (λ v. zero_f <? v) trades) in
      let sold = a.negative 1 1 ⊗ sum_from zero_f (values_if (λ v. v <? zero_f) trades) in
      balance bought sold

  unfoldable pub imbalance_of : PublicOrderBook F → F
  imbalance_of book =
      let ask = depth_of book.asks in
      let bid = depth_of book.bids in
      if zero_f <? (ask ⊕ bid) then (bid ⊖ ask) ⊘ (ask ⊕ bid) else zero_f

  unfoldable pub spread_of : F → F → F
  spread_of ask bid = (ask ⊖ bid) ⊘ ((ask ⊕ bid) ⊘ a.literal 2 1) ⊗ a.literal 10_000 1

  -- An order book of the feed; its constructor has seen that both sides have a level.
  unfoldable pub take_book :
      SignalSettings F
      → Option (PublicOrderBook F)
      → SignalState F
      → SignalState F × SignalOutcome F
  take_book c none s = (s, signal_error wrong_book)
  take_book c (some book) s =
      let s' = record s { books_seen = s.books_seen + 1 } in
      let imbalance = imbalance_of book in
      let flow = flow_of s.signed_trades in
      elim (best_of book.asks) [
        | none ↦ (s', signal_error wrong_book)
        | some ask ↦ elim (best_of book.bids) [
          | none ↦ (s', signal_error wrong_book)
          | some bid ↦ (
            s',
            emitted (record {
              snapshot_book = book;
              ready = leb c.signal_warmup s'.books_seen;
              snapshot_books_seen = s'.books_seen;
              book_imbalance = imbalance;
              trade_flow = flow;
              snapshot_signal = c.book_weight ⊗ imbalance ⊕ c.flow_weight ⊗ flow;
              spread_bps = spread_of ask bid;
              model_version = c.signal_model;
            }),
          )
        ]
      ]

  unfoldable pub take_event :
      SignalSettings F → ℕ → SignalEvent F → SignalState F → SignalState F × SignalOutcome F
  take_event c now (trade_event sequence price volume side) s =
      take_trade now sequence price volume side s
  take_event c now (book_event book) s = take_book c book s
  take_event c now other_event s = (s, signal_error unknown_event)

  -- The record after `_continuity`.
  unfoldable pub feed_record :
      SignalSettings F → Envelope F → SignalState F → SignalState F × SignalOutcome F
  feed_record c e s = elim e.record_received_ns [
    | none ↦ (s, signal_error wrong_time)
    | some now ↦ elim e.event [
      | none ↦ (s, signal_error no_event)
      | some event ↦ take_event c now event (pruned c now s)
    ]
  ]

  unfoldable pub feed :
      SignalSettings F → Envelope F → SignalState F → SignalState F × SignalOutcome F
  feed c e s =
      if not (is_schema e.schema_version)
      then (s, signal_error wrong_schema)
      else elim e.record_ordinal [
        | none ↦ (s, signal_error wrong_ordinal)
        | some ordinal ↦
            if ltb ordinal 1
            then (s, signal_error wrong_ordinal)
            else elim (stream_text e.record_capture) [
              | none ↦ (s, signal_error blank_stream)
              | some capture ↦ elim (stream_text e.record_connection) [
                | none ↦ (s, signal_error blank_stream)
                | some connection ↦ feed_record c e (continuity e ordinal capture connection s)
              ]
            ]
      ]
