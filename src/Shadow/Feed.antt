-- ===== src/Shadow/Feed.antt =====
-- src/coinpilot/hft_shadow.py: how a book follows the last one that the account has taken.
use ai_coin_trading.Prelude.{
  ℕ, ◌*◌, String, Bool, false, not, ◌&&◌, Option, none, some, str_eq, leb, ◌==◌, if◌then◌else◌,
}
use ai_coin_trading.Arith.{Arith}
use ai_coin_trading.Depth.{PublicOrderBook}
use ai_coin_trading.Shadow.Rows.{ShadowState}
use ai_coin_trading.Shadow.Same.{same_number}
use ai_coin_trading.Shadow.Types.{
  Step, refused, ContinuityReason, regression_marker, capture_changed, connection_changed,
  gap_marker, ordinal_regressed, time_regressed, done,
}

abbrev is_at : Option ℕ → ℕ → Bool
is_at none n = false
is_at (some m) n = m == n

abbrev is_text : Option String → String → Bool
is_text none s = false
is_text (some t) s = str_eq t s

abbrev not_after : Option ℕ → ℕ → Bool
not_after none n = false
not_after (some m) n = leb n m

module _ {F : Type 0} ⦃a : Arith F⦄ where
  unfoldable pub event_wall_ns : PublicOrderBook F → ℕ
  event_wall_ns book = elim book.received_wall_ns [
    | some wall ↦ wall
    | none ↦ elim book.exchange_timestamp_ms [
      | some ms ↦ ms * 1_000_000
      | none ↦ book.received_monotonic_ns
    ]
  ]

  abbrev same_feed : ShadowState F → PublicOrderBook F → Bool
  same_feed s book =
      is_text s.last_capture_id book.capture_id && is_text s.last_connection_id book.connection_id

  unfoldable pub is_exact_duplicate : ShadowState F → PublicOrderBook F → Bool
  is_exact_duplicate s book =
      same_feed s book
      && is_at s.last_book_ordinal book.ordinal
      && is_at s.last_book_monotonic_ns book.received_monotonic_ns
      && same_number s.last_book_wall_ns book.received_wall_ns

  unfoldable pub reject_regressed : ShadowState F → PublicOrderBook F → Step (Unit {0})
  reject_regressed s book =
      if same_feed s book && not_after s.last_book_ordinal book.ordinal
      then refused ordinal_regressed
      else if same_feed s book && not_after s.last_book_monotonic_ns book.received_monotonic_ns
      then refused time_regressed
      else done tt

  unfoldable pub continuity_of : ShadowState F → PublicOrderBook F → Option ContinuityReason
  continuity_of s book =
      if book.monotonic_regression
      then some regression_marker
      else if book.gap_before
      then some (gap_marker book.gap_reason)
      else elim s.last_capture_id [
        | none ↦ none
        | some capture ↦
            if not (str_eq capture book.capture_id)
            then some capture_changed
            else if not (is_text s.last_connection_id book.connection_id)
            then some connection_changed
            else none
      ]
