-- ===== src/Signal/Stream.antt =====
-- src/coinpilot/hft_shadow_signal.py: the state of `OnlineDiagnosticSignal` along the stream of records.
use ai_coin_trading.Prelude.{
  ℕ, ◌+◌, ◌*◌, String, Bool, true, false, not, ◌&&◌, ◌||◌, Option, none, some, List, [], ◌∷◌, ◌++◌,
  str_eq, ltb, ◌==◌, if◌then◌else◌,
}
use ai_coin_trading.Arith.{Arith, ◌⊕◌, ◌⊗◌, ◌⊘◌, ◌<?◌, ◌≤?◌, zero_f, one_f}
use ai_coin_trading.Depth.{OrderSide, buy_order}
use ai_coin_trading.Outbox.{required_text}
use ai_coin_trading.Signal.Types.{
  blank_sequence, wrong_trade, Envelope, SignedTrade, SignalSettings, SignalState, SignalOutcome,
  no_snapshot, signal_error,
}

-- `_trade_ids`, a set.
unfoldable pub has_text : String → List String → Bool
has_text id [] = false
has_text id (x ∷ ids) = let rest = has_text id ids in str_eq x id || rest

unfoldable pub discard : String → List String → List String
discard id [] = []
discard id (x ∷ ids) = let rest = discard id ids in if str_eq x id then rest else x ∷ rest

abbrev is_that : Option String → String → Bool
is_that none t = false
is_that (some x) t = str_eq x t

abbrev pub follows : Option ℕ → ℕ → Bool
follows none n = false
follows (some m) n = n == m + 1

abbrev side_ok : Option OrderSide → Bool
side_ok none = false
side_ok (some side) = true

module _ {F : Type 0} ⦃a : Arith F⦄ where
  -- `__init__`: the settings and the first state, from the settings as they are given.
  unfoldable new_signal : ℕ → ℕ → String → F → F → Option (SignalSettings F × SignalState F)
  new_signal books window_ms version book flow = elim (required_text version) [
    | none ↦ none
    | some version' ↦
        if ltb 0 books
          && ltb 0 window_ms
          && a.finite book
          && (zero_f ≤? book)
          && a.finite flow
          && (zero_f ≤? flow)
          && not ((book ⊕ flow) ≤? zero_f)
        then some (
          record {
            signal_warmup = books;
            window_ns = window_ms * 1_000_000;
            signal_model = version';
            book_weight = book ⊘ (book ⊕ flow);
            flow_weight = flow ⊘ (book ⊕ flow);
          },
          record {
            stream_connection = none;
            stream_capture = none;
            last_ordinal = none;
            books_seen = 0;
            signed_trades = [];
            trade_ids = [];
          },
        )
        else none
  ]

  unfoldable pub reset : SignalState F → SignalState F
  reset s = record s { books_seen = 0; signed_trades = []; trade_ids = [] }

  -- Whether the record breaks the stream.
  unfoldable pub is_boundary : ℕ → String → String → SignalState F → Bool
  is_boundary ordinal capture connection s = elim s.stream_capture [
    | none ↦ false
    | some old ↦
        not (str_eq capture old)
        || not (is_that s.stream_connection connection)
        || not (follows s.last_ordinal ordinal)
  ]

  -- `_continuity`, after its fields are read.
  unfoldable pub continuity : Envelope F → ℕ → String → String → SignalState F → SignalState F
  continuity e ordinal capture connection s =
      let kept =
        if is_boundary ordinal capture connection s || e.record_gap || e.record_regression
        then reset s
        else s in
      record kept {
        stream_capture = some capture;
        stream_connection = some connection;
        last_ordinal = some ordinal;
      }

  -- `_prune`, a loop over the front of the deque.
  unfoldable pub prune :
      ℕ → ℕ → List (SignedTrade F) → List String → List (SignedTrade F) × List String
  prune window now [] ids = ([], ids)
  prune window now (t ∷ trades) ids =
      let rest = prune window now trades (discard t.trade_id ids) in
      if ltb (t.trade_time + window) now then rest else (t ∷ trades, ids)

  abbrev pub pruned : SignalSettings F → ℕ → SignalState F → SignalState F
  pruned c now s =
      let kept = prune c.window_ns now s.signed_trades s.trade_ids in
      record s { signed_trades = kept.0; trade_ids = kept.1 }

  abbrev pub direction_of : Option OrderSide → F
  direction_of (some buy_order) = one_f
  direction_of _ = a.negative 1 1

  abbrev pub is_valid_trade : F → F → Option OrderSide → Bool
  is_valid_trade price volume side =
      a.finite price && a.finite volume && (zero_f <? price) && (zero_f <? volume) && side_ok side

  abbrev pub with_trade : ℕ → String → F → SignalState F → SignalState F
  with_trade now id value s = record s {
    signed_trades =
        s.signed_trades ++ record { trade_time = now; trade_id = id; signed_value = value } ∷ [];
    trade_ids = id ∷ s.trade_ids;
  }

  -- A trade of the feed.
  unfoldable pub take_trade :
      ℕ
      → String
      → Option F
      → Option F
      → Option OrderSide
      → SignalState F
      → SignalState F × SignalOutcome F
  take_trade now sequence price volume side s = elim (required_text sequence) [
    | none ↦ (s, signal_error blank_sequence)
    | some id ↦ if has_text id s.trade_ids then (s, no_snapshot) else elim price [
      | none ↦ (s, signal_error wrong_trade)
      | some p ↦ elim volume [
        | none ↦ (s, signal_error wrong_trade)
        | some v ↦
            if is_valid_trade p v side
            then (with_trade now id (direction_of side ⊗ p ⊗ v) s, no_snapshot)
            else (s, signal_error wrong_trade)
      ]
    ]
  ]
