-- ===== src/Depth.antt =====
-- src/coinpilot/hft_depth.py: the order books and the orders of a replay, the runs of books without a
-- break, and the book at which an order is due (`_ReplayBookIndex`).
pub mod Runs
pub mod Search
pub mod Selection
pub mod Sweep
pub mod Levels
pub mod Replay
pub mod Outcomes
mod Examples
use Prim.Native.Nat.{Ordering}
use Prim.Native.String.{compare}
use ai_coin_trading.Prelude.{
  ℕ, zero, suc, ◌-◌, String, Bool, true, false, not, ◌&&◌, ◌||◌, Option, none, some, List, [], ◌∷◌,
  ◌++◌, str_eq, ltb, leb, ◌==◌, if◌then◌else◌,
}

-- A displayed price level.
pub record DepthLevel (F : Type 0) : Type 0 where
  pub price : F
  pub base_size : F

pub record PublicOrderBook (F : Type 0) : Type 0 where
  pub capture_id : String
  pub connection_id : String
  pub ordinal : ℕ
  pub market : String
  pub received_monotonic_ns : ℕ
  pub received_wall_ns : Option ℕ
  pub exchange_timestamp_ms : Option ℕ
  pub asks : List (DepthLevel F)
  pub bids : List (DepthLevel F)
  pub gap_before : Bool
  pub gap_reason : Option String
  pub monotonic_regression : Bool

pub data OrderSide : Type 0 where
  buy_order sell_order : OrderSide

pub record IndependentTakerOrder (F : Type 0) : Type 0 where
  pub order_id : String
  pub order_capture_id : String
  pub order_connection_id : String
  pub order_market : String
  pub side : OrderSide
  pub decision_book_ordinal : ℕ
  pub decision_monotonic_ns : ℕ
  pub base_quantity : Option F
  pub quote_notional : Option F

-- The reasons of an order that gets no book; the first four also end a run.
pub data Refusal : Type 0 where
  connection_boundary receive_regression book_gap : Refusal
  archive_gap : Option String → Refusal
  decision_book_not_found decision_time_mismatch no_book_at_or_after_due : Refusal

pub record BookRun (F : Type 0) : Type 0 where
  pub books : List (PublicOrderBook F)
  pub end_reason : Option Refusal

-- The books of one capture and market, in the order of their ordinals.
pub record Stream (F : Type 0) : Type 0 where
  pub stream_capture : String
  pub stream_market : String
  pub stream_books : List (PublicOrderBook F)

pub data Built (A : Type 0) : Type 0 where
  built : A → Built A
  duplicate_ordinals duplicate_decision_keys : Built A

pub data Selected (F : Type 0) : Type 0 where
  chosen : PublicOrderBook F → Selected F
  refused_for : Refusal → Selected F
  -- RuntimeError("selected book precedes latency due")
  precedes_due : Selected F

-- Lists are read and measured by native numbers.
unfoldable pub get_elem? {ℓ} : {A : Type ℓ} → List A → ℕ → Option A
get_elem? [] i = none
get_elem? (x ∷ xs) zero = some x
get_elem? (x ∷ xs) (suc i) = get_elem? xs i

abbrev pub max_index : ℕ → ℕ → ℕ
max_index i j = if ltb i j then j else i

abbrev pub next_index : Option ℕ → Option ℕ
next_index none = none
next_index (some i) = some (suc i)

-- Two texts in Python's order, by code points, with what decides between equal ones.
abbrev pub text_then : String → String → Bool → Bool
text_then s t next = elim (compare s t) [
  | Ordering.lt ↦ true
  | Ordering.eq ↦ next
  | Ordering.gt ↦ false
]

module _ {F : Type 0} where
  -- `(capture_id, market, ordinal)` of one is at most that of the other.
  abbrev pub at_most : PublicOrderBook F → PublicOrderBook F → Bool
  at_most x y =
      text_then x.capture_id y.capture_id (text_then x.market y.market (leb x.ordinal y.ordinal))

  unfoldable pub insert_book :
      PublicOrderBook F → List (PublicOrderBook F) → List (PublicOrderBook F)
  insert_book b [] = b ∷ []
  insert_book b (c ∷ books) = if at_most b c then b ∷ c ∷ books else c ∷ insert_book b books

  -- `sorted(books, key=…)`
  unfoldable pub sort_books : List (PublicOrderBook F) → List (PublicOrderBook F)
  sort_books [] = []
  sort_books (b ∷ books) = insert_book b (sort_books books)

  abbrev pub same_archive_key : PublicOrderBook F → PublicOrderBook F → Bool
  same_archive_key x y = str_eq x.capture_id y.capture_id && x.ordinal == y.ordinal

  abbrev pub same_decision_key : PublicOrderBook F → PublicOrderBook F → Bool
  same_decision_key x y =
      str_eq x.capture_id y.capture_id
      && str_eq x.market y.market
      && str_eq x.connection_id y.connection_id
      && x.ordinal == y.ordinal

  unfoldable pub occurs :
      (PublicOrderBook F → PublicOrderBook F → Bool)
      → PublicOrderBook F
      → List (PublicOrderBook F)
      → Bool
  occurs same b [] = false
  occurs same b (c ∷ books) = same b c || occurs same b books

  unfoldable pub has_duplicates :
      (PublicOrderBook F → PublicOrderBook F → Bool) → List (PublicOrderBook F) → Bool
  has_duplicates same [] = false
  has_duplicates same (b ∷ books) = occurs same b books || has_duplicates same books

  -- `grouped[(book.capture_id, book.market)].append(book)`, on a dict in the order of insertion.
  unfoldable pub add_to_stream : PublicOrderBook F → List (Stream F) → List (Stream F)
  add_to_stream b [] =
      record { stream_capture = b.capture_id; stream_market = b.market; stream_books = b ∷ [] } ∷ []
  add_to_stream b (g ∷ streams) =
      if str_eq b.capture_id g.stream_capture && str_eq b.market g.stream_market
      then record g { stream_books = g.stream_books ++ b ∷ [] } ∷ streams
      else g ∷ add_to_stream b streams

  unfoldable pub grouped : List (Stream F) → List (PublicOrderBook F) → List (Stream F)
  grouped streams [] = streams
  grouped streams (b ∷ books) = grouped (add_to_stream b streams) books

  -- Why a book does not continue the run of the previous one.
  unfoldable pub boundary : Option ℕ → PublicOrderBook F → PublicOrderBook F → Option Refusal
  boundary max_gap_ns previous b =
      if not (str_eq b.connection_id previous.connection_id)
      then some connection_boundary
      else if b.monotonic_regression || ltb b.received_monotonic_ns previous.received_monotonic_ns
      then some receive_regression
      else if b.gap_before
      then some (archive_gap b.gap_reason)
      else elim max_gap_ns [
        | none ↦ none
        | some gap ↦
            if ltb gap (b.received_monotonic_ns - previous.received_monotonic_ns)
            then some book_gap
            else none
      ]

  -- The runs of a stream from the current run and its last book on.
  unfoldable pub continue_run :
      Option ℕ
      → List (PublicOrderBook F)
      → PublicOrderBook F
      → List (PublicOrderBook F)
      → List (BookRun F)
  continue_run max_gap_ns current previous [] = record { books = current; end_reason = none } ∷ []
  continue_run max_gap_ns current previous (b ∷ stream) = elim (boundary max_gap_ns previous b) [
    | none ↦ continue_run max_gap_ns (current ++ b ∷ []) b stream
    | some reason ↦
        record { books = current; end_reason = some reason }
        ∷ continue_run max_gap_ns (b ∷ []) b stream
  ]

  unfoldable pub stream_runs : Option ℕ → List (PublicOrderBook F) → List (BookRun F)
  stream_runs max_gap_ns [] = []
  stream_runs max_gap_ns (b ∷ stream) = continue_run max_gap_ns (b ∷ []) b stream

  unfoldable pub all_runs : Option ℕ → List (Stream F) → List (BookRun F)
  all_runs max_gap_ns [] = []
  all_runs max_gap_ns (g ∷ streams) =
      stream_runs max_gap_ns g.stream_books ++ all_runs max_gap_ns streams

  -- `_ReplayBookIndex.__init__`
  unfoldable pub build_index : List (PublicOrderBook F) → Option ℕ → Built (List (BookRun F))
  build_index books max_gap_ns =
      let ordered = sort_books books in
      if has_duplicates same_archive_key ordered
      then duplicate_ordinals
      else if has_duplicates same_decision_key ordered
      then duplicate_decision_keys
      else built (all_runs max_gap_ns (grouped [] ordered))

  abbrev pub is_decision_book : IndependentTakerOrder F → PublicOrderBook F → Bool
  is_decision_book order b =
      str_eq b.capture_id order.order_capture_id
      && str_eq b.market order.order_market
      && str_eq b.connection_id order.order_connection_id
      && b.ordinal == order.decision_book_ordinal

  -- The position of the decision book in a run.
  unfoldable pub index_of : IndependentTakerOrder F → List (PublicOrderBook F) → Option ℕ
  index_of order [] = none
  index_of order (b ∷ books) =
      if is_decision_book order b then some 0 else next_index (index_of order books)

  -- `decision_books.get(key)`: the dict holds each book of the runs under its key, and the keys differ.
  unfoldable pub find_anchor : IndependentTakerOrder F → List (BookRun F) → Option (BookRun F × ℕ)
  find_anchor order [] = none
  find_anchor order (run ∷ runs) = elim (index_of order run.books) [
    | none ↦ find_anchor order runs
    | some i ↦ some (run, i)
  ]

  -- `bisect.bisect_left(run.times, due)` on times in order: how many are less than `due`.
  unfoldable pub bisect_left : List (PublicOrderBook F) → ℕ → ℕ
  bisect_left [] due = 0
  bisect_left (b ∷ books) due =
      let rest = bisect_left books due in if ltb b.received_monotonic_ns due then suc rest else 0

  unfoldable pub pick : BookRun F → ℕ → ℕ → Selected F
  pick run index_in_run due =
      elim (get_elem? run.books (max_index index_in_run (bisect_left run.books due))) [
        | some candidate ↦
            if ltb candidate.received_monotonic_ns due then precedes_due else chosen candidate
        | none ↦ elim run.end_reason [
          | some reason ↦ refused_for reason
          | none ↦ refused_for no_book_at_or_after_due
        ]
      ]

  -- The index of the anchor is always one of its run.
  unfoldable pub select : List (BookRun F) → IndependentTakerOrder F → ℕ → Selected F
  select runs order due = elim (find_anchor order runs) [
    | none ↦ refused_for decision_book_not_found
    | some (run, i) ↦ elim (get_elem? run.books i) [
      | none ↦ refused_for decision_book_not_found
      | some anchor ↦
          if not (anchor.received_monotonic_ns == order.decision_monotonic_ns)
          then refused_for decision_time_mismatch
          else pick run i due
    ]
  ]
