-- ===== src/Signal/Breaks.antt =====
-- src/coinpilot/hft_shadow_signal.py: what the snapshot of a record after a break counts.
use ai_coin_trading.Prelude.{
  ℕ, ◌+◌, String, ◌≡◌, ap, ◌∙◌, ◌≢◌, inl, inr, true, false, ◌||◌, Option, none, some, List, [],
  arith, str_eq, eq_iff, leb, Bool-cases, Option-cases,
}
use ai_coin_trading.Arith.{Arith}
use ai_coin_trading.Depth.{PublicOrderBook, OrderSide}
use ai_coin_trading.Signal.Feed.{stream_text, flow_of, take_book, take_event, feed_record, feed}
use ai_coin_trading.Signal.Stream.{reset, is_boundary, continuity, prune, pruned, take_trade}
use ai_coin_trading.Signal.Tracking.{str_eq_sym}
use ai_coin_trading.Signal.Types.{
  SignalEvent, trade_event, book_event, other_event, Envelope, SignedTrade, SignalSettings,
  SignalState, DiagnosticSnapshot, emitted,
}

text_apart : (x y : String) (t : Option String) → t ≡ some x → t ≢ some y → str_eq x y ≡ false
text_apart x y t is_x not_y = elim (Bool-cases (str_eq x y)) [
  | inr apart ↦ apart
  | inl met ↦ absurd (not_y (is_x ∙ ap some ((eq_iff x y).0 met)))
]

module _ {F : Type 0} ⦃a : Arith F⦄ where
  -- A record that does not continue the stream.
  pub data Breaks (e : Envelope F) (s : SignalState F) : Type 0 where
    marked_gap : e.record_gap ≡ true → Breaks e s
    marked_regression : e.record_regression ≡ true → Breaks e s
    lost_record :
        (k : String) (m n : ℕ)
        → s.stream_capture ≡ some k
        → s.last_ordinal ≡ some m
        → e.record_ordinal ≡ some n
        → n ≢ m + 1
        → Breaks e s
    other_capture :
        (k : String)
        → s.stream_capture ≡ some k
        → stream_text e.record_capture ≢ some k
        → Breaks e s
    other_connection :
        (k l : String)
        → s.stream_capture ≡ some k
        → s.stream_connection ≡ some l
        → stream_text e.record_connection ≢ some l
        → Breaks e s

  -- The parts of a record that has given a snapshot.
  record Emits (c : SignalSettings F) (e : Envelope F) (s s' : SignalState F)
      (snap : DiagnosticSnapshot F) : Type 0 where
    pub ordinal : ℕ
    pub capture : String
    pub connection : String
    pub now : ℕ
    pub numbered : e.record_ordinal ≡ some ordinal
    pub captured : stream_text e.record_capture ≡ some capture
    pub connected : stream_text e.record_connection ≡ some connection
    pub timed : e.record_received_ns ≡ some now
    pub counted : s'.books_seen ≡ (continuity e ordinal capture connection s).books_seen + 1
    pub window :
        s'.signed_trades
        ≡ (prune c.window_ns now
            (continuity e ordinal capture connection s).signed_trades
            (continuity e ordinal capture connection s).trade_ids).0
    pub shown : snap.snapshot_books_seen ≡ s'.books_seen
    pub flow : snap.trade_flow ≡ flow_of s'.signed_trades
    pub readied : snap.ready ≡ leb c.signal_warmup s'.books_seen

  take_trade_silent :
      (now : ℕ) (sequence : String) (price volume : Option F) (side : Option OrderSide)
      (s s' : SignalState F) (snap : DiagnosticSnapshot F)
      → take_trade now sequence price volume side s ≢ (s', emitted snap)
  unfolding take_trade
  take_trade_silent now sequence price volume side s s' snap h = ground arith

  take_book_emits :
      (c : SignalSettings F) (book : Option (PublicOrderBook F)) (s s' : SignalState F)
      (snap : DiagnosticSnapshot F)
      → take_book c book s ≡ (s', emitted snap)
      → (s'.books_seen ≡ s.books_seen + 1)
        × (s'.signed_trades ≡ s.signed_trades)
        × (snap.snapshot_books_seen ≡ s'.books_seen)
        × (snap.trade_flow ≡ flow_of s'.signed_trades)
        × (snap.ready ≡ leb c.signal_warmup s'.books_seen)
  unfolding take_book
  take_book_emits c none s s' snap h = absurd (ground arith)
  take_book_emits c (some book) s s' snap h =
      (ground arith, ground arith, ground arith, ground arith, ground arith)

  take_event_emits :
      (c : SignalSettings F) (now : ℕ) (event : SignalEvent F) (s s' : SignalState F)
      (snap : DiagnosticSnapshot F)
      → take_event c now event s ≡ (s', emitted snap)
      → (s'.books_seen ≡ s.books_seen + 1)
        × (s'.signed_trades ≡ s.signed_trades)
        × (snap.snapshot_books_seen ≡ s'.books_seen)
        × (snap.trade_flow ≡ flow_of s'.signed_trades)
        × (snap.ready ≡ leb c.signal_warmup s'.books_seen)
  unfolding take_event
  take_event_emits c now (trade_event sequence price volume side) s s' snap h =
      absurd (take_trade_silent now sequence price volume side s s' snap h)
  take_event_emits c now (book_event book) s s' snap h = take_book_emits c book s s' snap h
  take_event_emits c now other_event s s' snap h = absurd (ground arith)

  feed_record_emits :
      (c : SignalSettings F) (e : Envelope F) (s s' : SignalState F) (snap : DiagnosticSnapshot F)
      → feed_record c e s ≡ (s', emitted snap)
      → (now : ℕ) × (event : SignalEvent F) × (e.record_received_ns ≡ some now)
        × (take_event c now event (pruned c now s) ≡ (s', emitted snap))
  unfolding feed_record
  feed_record_emits c e s s' snap h = elim (Option-cases e.record_received_ns) [
    | inl lost ↦ absurd (ground (arith, lost))
    | inr (now, timed) ↦ elim (Option-cases e.event) [
      | inl none_there ↦ absurd (ground (arith, timed, none_there))
      | inr (event, there) ↦ (now, event, timed, ground (arith, timed, there))
    ]
  ]

  feed_emits :
      (c : SignalSettings F) (e : Envelope F) (s s' : SignalState F) (snap : DiagnosticSnapshot F)
      → feed c e s ≡ (s', emitted snap)
      → (n : ℕ) × (k : String) × (l : String) × (e.record_ordinal ≡ some n)
        × (stream_text e.record_capture ≡ some k)
        × (stream_text e.record_connection ≡ some l)
        × (feed_record c e (continuity e n k l s) ≡ (s', emitted snap))
  unfolding feed
  feed_emits c e s s' snap h = elim (Option-cases e.record_ordinal) [
    | inl lost ↦ absurd (ground (arith, lost))
    | inr (n, ordinal) ↦ elim (Option-cases (stream_text e.record_capture)) [
      | inl blank ↦ absurd (ground (arith, ordinal, blank))
      | inr (k, capture) ↦ elim (Option-cases (stream_text e.record_connection)) [
        | inl blank ↦ absurd (ground (arith, ordinal, capture, blank))
        | inr (l, connection) ↦
            (n, k, l, ordinal, capture, connection, ground (arith, ordinal, capture, connection))
      ]
    ]
  ]

  feed-Emits :
      (c : SignalSettings F) (e : Envelope F) (s s' : SignalState F) (snap : DiagnosticSnapshot F)
      → feed c e s ≡ (s', emitted snap)
      → Emits c e s s' snap
  feed-Emits c e s s' snap h =
      let (n, k, l, ordinal, capture, connection, records) = feed_emits c e s s' snap h in
      let (now, event, timed, takes) =
        feed_record_emits c e (continuity e n k l s) s' snap records in
      let (counted, window, shown, flow, readied) =
        take_event_emits c now event (pruned c now (continuity e n k l s)) s' snap takes in
      record {
        ordinal = n;
        capture = k;
        connection = l;
        now = now;
        numbered = ordinal;
        captured = capture;
        connected = connection;
        timed = timed;
        counted = counted;
        window = window;
        shown = shown;
        flow = flow;
        readied = readied;
      }

  -- Every kind of break is one that `_continuity` sees.
  broken_stream :
      (e : Envelope F) (s : SignalState F) (n : ℕ) (k l : String)
      → e.record_ordinal ≡ some n
      → stream_text e.record_capture ≡ some k
      → stream_text e.record_connection ≡ some l
      → Breaks e s
      → (is_boundary n k l s || e.record_gap || e.record_regression) ≡ true
  unfolding is_boundary
  broken_stream e s n k l ordinal capture connection (marked_gap gap) = ground (arith, gap)
  broken_stream e s n k l ordinal capture connection (marked_regression back) = ground (arith, back)
  broken_stream e s n k l ordinal capture connection
        (lost_record old m n' begun last number skipped) =
      let same : n ≡ n' = ground (arith, ordinal, number) in
      ground (arith, begun, last, skipped, same)
  broken_stream e s n k l ordinal capture connection (other_capture old begun other) =
      let apart : str_eq k old ≡ false =
        text_apart k old (stream_text e.record_capture) capture other in
      ground (arith, begun, apart)
  broken_stream e s n k l ordinal capture connection (other_connection old old_l begun last other) =
      let apart : str_eq old_l l ≡ false =
        str_eq_sym l old_l
          (text_apart l old_l (stream_text e.record_connection) connection other) in
      ground (arith, begun, last, apart)

  continuity_resets :
      (e : Envelope F) (n : ℕ) (k l : String) (s : SignalState F)
      → (is_boundary n k l s || e.record_gap || e.record_regression) ≡ true
      → ((continuity e n k l s).books_seen ≡ 0) × ((continuity e n k l s).signed_trades ≡ [])
  unfolding continuity reset
  continuity_resets e n k l s breaks = (ground (arith, breaks), ground (arith, breaks))

  prune_empty :
      (window now : ℕ) (trades : List (SignedTrade F)) (ids : List String)
      → trades ≡ []
      → (prune window now trades ids).0 ≡ []
  unfolding prune
  prune_empty window now trades ids empty = ap (λ z. (prune window now z ids).0) empty

  -- The snapshot of a record that does not continue the stream - it is marked, its number is not the
  -- next one, or its capture or connection is another - counts its own book only and no trade: it is
  -- the first of a warm-up, and its trade flow is that of an empty window.
  pub feed_break :
      (c : SignalSettings F) (e : Envelope F) (s s' : SignalState F) (snap : DiagnosticSnapshot F)
      → Breaks e s
      → feed c e s ≡ (s', emitted snap)
      → (snap.snapshot_books_seen ≡ 1)
        × (snap.ready ≡ leb c.signal_warmup 1)
        × (s'.signed_trades ≡ [])
        × (snap.trade_flow ≡ flow_of [])
  feed_break c e s s' snap breaks h =
      let p = feed-Emits c e s s' snap h in
      let (books, trades) = continuity_resets e p.ordinal p.capture p.connection s (
        broken_stream e s p.ordinal p.capture p.connection p.numbered p.captured p.connected
          breaks) in
      let one : s'.books_seen ≡ 1 = ground (arith, p.counted, books) in
      let empty =
        p.window
        ∙ prune_empty c.window_ns p.now
            (continuity e p.ordinal p.capture p.connection s).signed_trades
            (continuity e p.ordinal p.capture p.connection s).trade_ids trades in
      (p.shown ∙ one, p.readied ∙ ap (leb c.signal_warmup) one, empty, p.flow ∙ ap flow_of empty)
