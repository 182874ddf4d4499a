-- ===== src/Signal/Tracking.antt =====
-- src/coinpilot/hft_shadow_signal.py: the trades of the window beside the set of their ids.
use mathlib.Core.Path.{subst}
use ai_coin_trading.Prelude.{
  ℕ, ◌+◌, String, ◌≡◌, refl, sym, ap, ◌∙◌, ◌⊎◌, inl, inr, false, ◌||◌, Option, none, some, List, [],
  ◌∷◌, ◌++◌, arith, str_eq, eq_iff, ltb, Bool-cases, Option-cases,
}
use ai_coin_trading.Arith.{Arith, ◌⊗◌}
use ai_coin_trading.Depth.{PublicOrderBook, OrderSide}
use ai_coin_trading.Outbox.{required_text}
use ai_coin_trading.Signal.Feed.{stream_text, is_schema, take_book, take_event, feed_record, feed}
use ai_coin_trading.Signal.Stream.{
  has_text, discard, reset, is_boundary, continuity, prune, pruned, direction_of, is_valid_trade,
  with_trade, take_trade,
}
use ai_coin_trading.Signal.Types.{
  SignalEvent, trade_event, book_event, other_event, Envelope, SignedTrade, SignalSettings,
  SignalState,
}

unfoldable pub ids_of : {F : Type 0} → List (SignedTrade F) → List String
ids_of [] = []
ids_of (t ∷ trades) = t.trade_id ∷ ids_of trades

-- No text stands twice in the list.
unfoldable pub HasNoRepeats : List String → Type 0
unfolding has_text
HasNoRepeats [] = Unit
HasNoRepeats (x ∷ ids) = (has_text x ids ≡ false) × HasNoRepeats ids

has_text-discard_same : (id : String) (ids : List String) → has_text id (discard id ids) ≡ false
unfolding has_text discard
has_text-discard_same id [] = refl
has_text-discard_same id (x ∷ ids) =
    let rest = has_text-discard_same id ids in
    elim (Bool-cases (str_eq x id)) [
      | inl here ↦ ground (arith, here, rest)
      | inr there ↦ ground (arith, there, rest)
    ]

has_text-discard_other :
    (gone id : String) (ids : List String)
    → str_eq gone id ≡ false
    → has_text id (discard gone ids) ≡ has_text id ids
unfolding has_text discard
has_text-discard_other gone id [] other = refl
has_text-discard_other gone id (x ∷ ids) other =
    let rest = has_text-discard_other gone id ids other in
    elim (Bool-cases (str_eq x gone)) [
      | inr there ↦ ground (arith, there, rest)
      | inl here ↦
          let same : x ≡ gone = (eq_iff x gone).0 here in
          let away : str_eq x id ≡ false = ap (λ z. str_eq z id) same ∙ other in
          ground (arith, here, away, rest)
    ]

has_text-append :
    (id last : String) (ids : List String)
    → has_text id (ids ++ last ∷ []) ≡ (has_text id ids || str_eq last id)
unfolding has_text
has_text-append id last [] = elim (Bool-cases (str_eq last id)) [
  | inl here ↦ ground (arith, here)
  | inr there ↦ ground (arith, there)
]
has_text-append id last (x ∷ ids) =
    let rest = has_text-append id last ids in
    elim (Bool-cases (str_eq x id)) [
      | inl here ↦ ground (arith, here, rest)
      | inr there ↦ ground (arith, there, rest)
    ]

pub str_eq_sym : (x y : String) → str_eq x y ≡ false → str_eq y x ≡ false
str_eq_sym x y apart = elim (Bool-cases (str_eq y x)) [
  | inr there ↦ there
  | inl here ↦
      let met = (eq_iff x y).1 (sym ((eq_iff y x).0 here)) in absurd (ground (arith, apart, met))
]

HasNoRepeats-append :
    (last : String) (ids : List String)
    → HasNoRepeats ids
    → has_text last ids ≡ false
    → HasNoRepeats (ids ++ last ∷ [])
unfolding HasNoRepeats has_text
HasNoRepeats-append last [] once new = (refl, tt)
HasNoRepeats-append last (x ∷ ids) (once, rest) new =
    let away : str_eq last x ≡ false = str_eq_sym x last (ground (arith, new)) in
    let there = has_text-append x last ids in
    (ground (arith, there, away, once), HasNoRepeats-append last ids rest (ground (arith, new)))

module _ {F : Type 0} where
  ids_of-append :
      (trades : List (SignedTrade F)) (t : SignedTrade F)
      → ids_of (trades ++ t ∷ []) ≡ ids_of trades ++ t.trade_id ∷ []
  unfolding ids_of
  ids_of-append [] t = refl
  ids_of-append (x ∷ trades) t = ap (λ z. x.trade_id ∷ z) (ids_of-append trades t)

  -- The set has the ids of the deque, in which no id stands twice.
  pub record Agree (trades : List (SignedTrade F)) (ids : List String) : Type 0 where
    pub same : (id : String) → has_text id ids ≡ has_text id (ids_of trades)
    pub once : HasNoRepeats (ids_of trades)

  Agree-rest :
      (t : SignedTrade F) (trades : List (SignedTrade F)) (ids : List String)
      → Agree (t ∷ trades) ids
      → Agree trades (discard t.trade_id ids)
  unfolding ids_of HasNoRepeats has_text
  Agree-rest t trades ids g =
      let (alone, rest) = g.once in
      record {
        same = λ id. elim (Bool-cases (str_eq t.trade_id id)) [
          | inl here ↦
              let equal : t.trade_id ≡ id = (eq_iff t.trade_id id).0 here in
              ap (λ z. has_text z (discard t.trade_id ids)) (sym equal)
              ∙ has_text-discard_same t.trade_id ids
              ∙ sym alone
              ∙ ap (λ z. has_text z (ids_of trades)) equal
          | inr there ↦
              let all = g.same id in
              let other = has_text-discard_other t.trade_id id ids there in
              ground (arith, there, all, other)
        ];
        once = rest;
      }

module _ {F : Type 0} ⦃a : Arith F⦄ where
  prune-Agree :
      (window now : ℕ) (trades : List (SignedTrade F)) (ids : List String)
      → Agree trades ids
      → Agree (prune window now trades ids).0 (prune window now trades ids).1
  unfolding prune
  prune-Agree window now [] ids g = g
  prune-Agree window now (t ∷ trades) ids g =
      let rest =
        prune-Agree window now trades (discard t.trade_id ids) (Agree-rest t trades ids g) in
      elim (Bool-cases (ltb (t.trade_time + window) now)) [
        | inl old ↦
            let same : prune window now (t ∷ trades) ids
                ≡ prune window now trades (discard t.trade_id ids) =
              ground (arith, old) in
            subst (λ z. Agree z.0 z.1) (sym same) rest
        | inr new ↦
            let shown : List (SignedTrade F) × List String = (t ∷ trades, ids) in
            let same : prune window now (t ∷ trades) ids ≡ shown = ground (arith, new) in
            subst (λ z. Agree z.0 z.1) (sym same) g
      ]

  abbrev pub IsTracked : SignalState F → Type 0
  IsTracked s = Agree s.signed_trades s.trade_ids

  with_trade-IsTracked :
      (now : ℕ) (id : String) (value : F) (s : SignalState F)
      → has_text id s.trade_ids ≡ false
      → IsTracked s
      → IsTracked (with_trade now id value s)
  unfolding has_text
  with_trade-IsTracked now id value s new g =
      let t : SignedTrade F = record { trade_time = now; trade_id = id; signed_value = value } in
      let ids = ids_of-append s.signed_trades t in
      record {
        same = λ x.
            let grown = has_text-append x id (ids_of s.signed_trades) in
            let before = g.same x in
            let all : has_text x (id ∷ s.trade_ids)
                ≡ (has_text x (ids_of s.signed_trades) || str_eq id x) =
              ground (arith, before) in
            all ∙ sym grown ∙ ap (has_text x) (sym ids);
        once =
            subst HasNoRepeats (sym ids)
              (HasNoRepeats-append id (ids_of s.signed_trades) g.once (sym (g.same id) ∙ new));
      }

  -- A trade is added to the window, or nothing changes.
  take_trade_state :
      (now : ℕ) (sequence : String) (price volume : Option F) (side : Option OrderSide)
      (s : SignalState F)
      → ((take_trade now sequence price volume side s).0 ≡ s)
        ⊎ ((id : String) × (value : F) × (has_text id s.trade_ids ≡ false)
            × ((take_trade now sequence price volume side s).0 ≡ with_trade now id value s))
  unfolding take_trade
  take_trade_state now sequence none volume side s = inl (ground arith)
  take_trade_state now sequence (some p) none side s = inl (ground arith)
  take_trade_state now sequence (some p) (some v) side s =
      elim (Option-cases (required_text sequence)) [
        | inl blank ↦ inl (ground (arith, blank))
        | inr (id, named) ↦ elim (Bool-cases (has_text id s.trade_ids)) [
          | inl known ↦ inl (ground (arith, named, known))
          | inr new ↦ elim (Bool-cases (is_valid_trade p v side)) [
            | inr wrong ↦ inl (ground (arith, named, new, wrong))
            | inl valid ↦
                inr (id, direction_of side ⊗ p ⊗ v, new, ground (arith, named, new, valid))
          ]
        ]
      ]

  take_book_state :
      (c : SignalSettings F) (book : Option (PublicOrderBook F)) (s : SignalState F)
      → ((take_book c book s).0.signed_trades ≡ s.signed_trades)
        × ((take_book c book s).0.trade_ids ≡ s.trade_ids)
  unfolding take_book
  take_book_state c none s = (refl, refl)
  take_book_state c (some book) s = (ground arith, ground arith)

  take_event-IsTracked :
      (c : SignalSettings F) (now : ℕ) (event : SignalEvent F) (s : SignalState F)
      → IsTracked s
      → IsTracked (take_event c now event s).0
  unfolding take_event
  take_event-IsTracked c now (trade_event sequence price volume side) s g =
      elim (take_trade_state now sequence price volume side s) [
        | inl same ↦ subst IsTracked (sym same) g
        | inr (id, value, new, same) ↦
            subst IsTracked (sym same) (with_trade-IsTracked now id value s new g)
      ]
  take_event-IsTracked c now (book_event book) s g =
      let (trades, ids) = take_book_state c book s in
      subst (λ x. Agree (take_book c book s).0.signed_trades x) (sym ids)
        (subst (λ x. Agree x s.trade_ids) (sym trades) g)
  take_event-IsTracked c now other_event s g = g

  feed_record-IsTracked :
      (c : SignalSettings F) (e : Envelope F) (s : SignalState F)
      → IsTracked s
      → IsTracked (feed_record c e s).0
  unfolding feed_record
  feed_record-IsTracked c e s g = elim (Option-cases e.record_received_ns) [
    | inl lost ↦
        let same : s ≡ (feed_record c e s).0 = ground (arith, lost) in subst IsTracked same g
    | inr (now, timed) ↦ elim (Option-cases e.event) [
      | inl none_there ↦
          let same : s ≡ (feed_record c e s).0 = ground (arith, timed, none_there) in
          subst IsTracked same g
      | inr (event, there) ↦
          let same : (take_event c now event (pruned c now s)).0 ≡ (feed_record c e s).0 =
            ground (arith, timed, there) in
          subst IsTracked same (
            take_event-IsTracked c now event (pruned c now s)
              (prune-Agree c.window_ns now s.signed_trades s.trade_ids g))
    ]
  ]

  -- The empty window after a reset.
  reset-IsTracked : (s : SignalState F) → IsTracked (reset s)
  unfolding reset ids_of HasNoRepeats
  reset-IsTracked s = record { same = λ id. refl; once = tt }

  continuity_trades :
      (e : Envelope F) (ordinal : ℕ) (capture connection : String) (s : SignalState F)
      → (((continuity e ordinal capture connection s).signed_trades ≡ s.signed_trades)
          × ((continuity e ordinal capture connection s).trade_ids ≡ s.trade_ids))
        ⊎ (((continuity e ordinal capture connection s).signed_trades ≡ (reset s).signed_trades)
            × ((continuity e ordinal capture connection s).trade_ids ≡ (reset s).trade_ids))
  unfolding continuity
  continuity_trades e ordinal capture connection s =
      elim (Bool-cases
        (is_boundary ordinal capture connection s || e.record_gap || e.record_regression)) [
          | inl breaks ↦ inr (ground (arith, breaks), ground (arith, breaks))
          | inr goes ↦ inl (ground (arith, goes), ground (arith, goes))
        ]

  Agree-along :
      (x y : SignalState F)
      → x.signed_trades ≡ y.signed_trades
      → x.trade_ids ≡ y.trade_ids
      → IsTracked y
      → IsTracked x
  Agree-along x y trades ids g =
      subst (λ z. Agree x.signed_trades z) (sym ids)
        (subst (λ z. Agree z y.trade_ids) (sym trades) g)

  continuity-IsTracked :
      (e : Envelope F) (ordinal : ℕ) (capture connection : String) (s : SignalState F)
      → IsTracked s
      → IsTracked (continuity e ordinal capture connection s)
  continuity-IsTracked e ordinal capture connection s g =
      let after = continuity e ordinal capture connection s in
      elim (continuity_trades e ordinal capture connection s) [
        | inl (trades, ids) ↦ Agree-along after s trades ids g
        | inr (trades, ids) ↦ Agree-along after (reset s) trades ids (reset-IsTracked s)
      ]

  -- `feed` either stops at a field of the record and changes nothing, or goes on after `_continuity`.
  feed_cases :
      (c : SignalSettings F) (e : Envelope F) (s : SignalState F)
      → ((feed c e s).0 ≡ s)
        ⊎ ((ordinal : ℕ) × (capture : String) × (connection : String) × (feed c e s
              ≡ feed_record c e (continuity e ordinal capture connection s)))
  unfolding feed
  feed_cases c e s = elim (Bool-cases (is_schema e.schema_version)) [
    | inr other ↦ inl (ground (arith, other))
    | inl schema ↦ elim (Option-cases e.record_ordinal) [
      | inl lost ↦ inl (ground (arith, schema, lost))
      | inr (n, ordinal) ↦ elim (Bool-cases (ltb n 1)) [
        | inl small ↦ inl (ground (arith, schema, ordinal, small))
        | inr big ↦ elim (Option-cases (stream_text e.record_capture)) [
          | inl blank ↦ inl (ground (arith, schema, ordinal, big, blank))
          | inr (k, capture) ↦ elim (Option-cases (stream_text e.record_connection)) [
            | inl blank ↦ inl (ground (arith, schema, ordinal, big, capture, blank))
            | inr (l, connection) ↦
                inr (n, k, l, ground (arith, schema, ordinal, big, capture, connection))
          ]
        ]
      ]
    ]
  ]

  -- Every record, also one that `feed` refuses with an error, leaves the set of the trade ids and the
  -- deque of the trades in agreement: the set has exactly the ids of the deque, in which no id stands
  -- twice.
  pub feed-IsTracked :
      (c : SignalSettings F) (e : Envelope F) (s : SignalState F)
      → IsTracked s
      → IsTracked (feed c e s).0
  feed-IsTracked c e s g = elim (feed_cases c e s) [
    | inl same ↦ subst IsTracked (sym same) g
    | inr (ordinal, capture, connection, same) ↦
        subst (λ z. IsTracked z.0) (sym same)
          (feed_record-IsTracked c e (continuity e ordinal capture connection s)
            (continuity-IsTracked e ordinal capture connection s g))
  ]
