-- ===== src/Depth/Outcomes.antt =====
-- What a replay returns and what it can raise.
use mathlib.Core.Path.{subst}
use ai_coin_trading.Prelude.{
  ℕ, ◌+◌, ◌≤◌, ◌≡◌, refl, sym, ◌≢◌, ◌⊎◌, inl, inr, true, ◌&&◌, none, some, List, [], ◌∷◌, arith,
  eq_iff, Bool-cases,
}
use ai_coin_trading.Arith.{Arith}
use ai_coin_trading.Depth.{
  PublicOrderBook, IndependentTakerOrder, Refusal, BookRun, built, Selected, chosen, refused_for,
  precedes_due, build_index, select,
}
use ai_coin_trading.Depth.Replay.{
  DepthReplayConfig, TakerReplayOutcome, valid_gap, empty_outcome, full_outcome, replay_order,
  replay_orders, replay_independent_taker_orders,
}
use ai_coin_trading.Depth.Selection.{build_index_total, select-chosen, select_never_precedes}
use ai_coin_trading.Depth.Sweep.{
  DepthError, book_mismatch, selection_precedes_due, Replayed, replayed, failed, valid_fee, matches,
  finish_sweep, sweep_visible_depth,
}

-- Not the errors of a book that is not the order's, and of one before the due time.
abbrev pub IsExpected : DepthError → Type 0
IsExpected e = (e ≢ book_mismatch) × (e ≢ selection_precedes_due)

Replayed-cases :
    {A : Type 0} (r : Replayed A)
    → ((e : DepthError) × (r ≡ failed e)) ⊎ ((x : A) × (r ≡ replayed x))
Replayed-cases (failed e) = inl (e, refl)
Replayed-cases (replayed x) = inr (x, refl)

Selected-cases :
    {F : Type 0} (s : Selected F)
    → ((why : Refusal) × (s ≡ refused_for why))
      ⊎ (((x : PublicOrderBook F) × (s ≡ chosen x)) ⊎ (s ≡ precedes_due))
Selected-cases (refused_for why) = inl (why, refl)
Selected-cases (chosen x) = inr (inl (x, refl))
Selected-cases precedes_due = inr (inr refl)

module _ {F : Type 0} ⦃a : Arith F⦄ where
  -- The outcome is of this order, is due after the latency, and no selected book is before that.
  abbrev pub IsTimelyOutcome :
      DepthReplayConfig F → IndependentTakerOrder F → TakerReplayOutcome F → Type 0
  IsTimelyOutcome config order o =
      (o.outcome_order_id ≡ order.order_id)
      × (o.due_monotonic_ns ≡ order.decision_monotonic_ns + config.latency_ns)
      × ((o.selected_book_monotonic_ns ≡ none)
          ⊎ ((t : ℕ) × (o.selected_book_monotonic_ns ≡ some t) × (o.due_monotonic_ns ≤ t)))

  -- As many outcomes as orders, each of its order.
  abbrev pub AllTimely :
      DepthReplayConfig F → List (IndependentTakerOrder F) → List (TakerReplayOutcome F) → Type 0
  AllTimely config [] [] = Unit
  AllTimely config (order ∷ orders) (o ∷ outcomes) =
      IsTimelyOutcome config order o × AllTimely config orders outcomes
  AllTimely config _ _ = ⊥

  sweep_errors :
      (book : PublicOrderBook F) (order : IndependentTakerOrder F) (rate : F) (e : DepthError)
      → matches book order ≡ true
      → sweep_visible_depth book order rate ≡ failed e
      → IsExpected e
  unfolding sweep_visible_depth finish_sweep
  sweep_errors book order rate e same h = (λ m. ground (arith, same), λ p. ground (arith, same))

module _ {F : Type 0} ⦃a : Arith F⦄ (books : List (PublicOrderBook F)) (runs : List (BookRun F))
    (config : DepthReplayConfig F)
    (index : build_index books config.max_book_gap_ns ≡ built runs) where
  chosen_matches :
      (order : IndependentTakerOrder F) (due : ℕ) (x : PublicOrderBook F)
      → select runs order due ≡ chosen x
      → (matches x order ≡ true) × (due ≤ x.received_monotonic_ns)
  chosen_matches order due x h =
      let (cap, mar, con, after, in_time) =
        select-chosen books config.max_book_gap_ns runs order due index x h in
      (
        ground (
          arith,
          (eq_iff order.order_capture_id x.capture_id).1 (sym cap),
          (eq_iff order.order_connection_id x.connection_id).1 (sym con),
          (eq_iff order.order_market x.market).1 (sym mar),
        ),
        in_time,
      )

  replay_order_timely :
      (order : IndependentTakerOrder F) (o : TakerReplayOutcome F)
      → replay_order runs config order ≡ replayed o
      → IsTimelyOutcome config order o
  unfolding replay_order empty_outcome full_outcome
  replay_order_timely order o h =
      let due = order.decision_monotonic_ns + config.latency_ns in
      elim (Selected-cases (select runs order due)) [
        | inl (why, bookless) ↦
            (ground (arith, bookless), ground (arith, bookless), inl (ground (arith, bookless)))
        | inr (inl (x, found)) ↦
            let timely = chosen_matches order due x found in
            elim (Replayed-cases (sweep_visible_depth x order config.fee_rate)) [
              | inl (e, stopped) ↦ absurd (ground (arith, found, stopped))
              | inr (e, swept) ↦ (
                ground (arith, found, swept),
                ground (arith, found, swept),
                inr (
                  x.received_monotonic_ns,
                  ground (arith, found, swept),
                  ground (arith, found, swept, timely.1),
                ),
              )
            ]
        | inr (inr early) ↦ absurd (ground (arith, early))
      ]

  replay_order_errors :
      (order : IndependentTakerOrder F) (e : DepthError)
      → replay_order runs config order ≡ failed e
      → IsExpected e
  unfolding replay_order
  replay_order_errors order e h =
      let due = order.decision_monotonic_ns + config.latency_ns in
      elim (Selected-cases (select runs order due)) [
        | inl (why, bookless) ↦ absurd (ground (arith, bookless))
        | inr (inl (x, found)) ↦
            let timely = chosen_matches order due x found in
            elim (Replayed-cases (sweep_visible_depth x order config.fee_rate)) [
              | inl (d, stopped) ↦
                  let same : d ≡ e = grind (arith, h, found, stopped) in
                  subst IsExpected same (sweep_errors x order config.fee_rate d timely.0 stopped)
              | inr (y, swept) ↦ absurd (ground (arith, found, swept))
            ]
        | inr (inr early) ↦
            absurd (select_never_precedes books config.max_book_gap_ns runs order due index early)
      ]

  replay_orders_timely :
      (orders : List (IndependentTakerOrder F)) (outcomes : List (TakerReplayOutcome F))
      → replay_orders runs config orders ≡ replayed outcomes
      → AllTimely config orders outcomes
  unfolding replay_orders
  replay_orders_timely [] [] h = tt
  replay_orders_timely [] (o ∷ outcomes) h = absurd (ground arith)
  replay_orders_timely (order ∷ orders) outcomes h =
      elim (Replayed-cases (replay_order runs config order)) [
        | inl (e, stopped) ↦ absurd (ground (arith, stopped))
        | inr (o, first) ↦ elim (Replayed-cases (replay_orders runs config orders)) [
          | inl (e, stopped) ↦ absurd (ground (arith, first, stopped))
          | inr (rest, others) ↦
              let all : (o ∷ rest) ≡ outcomes = ground (arith, first, others) in
              subst (AllTimely config (order ∷ orders)) all
                (replay_order_timely order o first, replay_orders_timely orders rest others)
        ]
      ]

  replay_orders_errors :
      (orders : List (IndependentTakerOrder F)) (e : DepthError)
      → replay_orders runs config orders ≡ failed e
      → IsExpected e
  unfolding replay_orders
  replay_orders_errors [] e h = absurd (ground arith)
  replay_orders_errors (order ∷ orders) e h =
      elim (Replayed-cases (replay_order runs config order)) [
        | inl (d, stopped) ↦
            let same : d ≡ e = grind (arith, h, stopped) in
            subst IsExpected same (replay_order_errors order d stopped)
        | inr (o, first) ↦ elim (Replayed-cases (replay_orders runs config orders)) [
          | inl (d, stopped) ↦
              let same : d ≡ e = grind (arith, h, first, stopped) in
              subst IsExpected same (replay_orders_errors orders d stopped)
          | inr (rest, others) ↦ absurd (ground (arith, first, others))
        ]
      ]

-- A replay that returns has one outcome for each order, in their order; each is due after the
-- latency, and the book that it names, if any, was not received before that.
pub replay_timely :
    {F : Type 0} ⦃a : Arith F⦄ (books : List (PublicOrderBook F))
    (orders : List (IndependentTakerOrder F)) (config : DepthReplayConfig F)
    (outcomes : List (TakerReplayOutcome F))
    → replay_independent_taker_orders books orders config ≡ replayed outcomes
    → AllTimely config orders outcomes
unfolding replay_independent_taker_orders
replay_timely books orders config outcomes h =
    elim (build_index_total books config.max_book_gap_ns) [
      | inl twice ↦ absurd (ground (arith, twice))
      | inr (runs, index) ↦
          replay_orders_timely books runs config index orders outcomes (ground (arith, index))
    ]

-- A replay never raises the error of a book that is not the order's, nor that of a book before the
-- due time.
pub replay_errors :
    {F : Type 0} ⦃a : Arith F⦄ (books : List (PublicOrderBook F))
    (orders : List (IndependentTakerOrder F)) (config : DepthReplayConfig F) (e : DepthError)
    → replay_independent_taker_orders books orders config ≡ failed e
    → IsExpected e
unfolding replay_independent_taker_orders
replay_errors books orders config e h = elim (build_index_total books config.max_book_gap_ns) [
  | inl twice ↦ (λ m. ground (arith, twice), λ p. ground (arith, twice))
  | inr (runs, index) ↦
      elim (Bool-cases (valid_fee config.fee_rate && valid_gap config.max_book_gap_ns)) [
        | inl valid ↦
            replay_orders_errors books runs config index orders e (ground (arith, index, valid))
        | inr bad ↦ (λ m. ground (arith, bad), λ p. ground (arith, bad))
      ]
]
