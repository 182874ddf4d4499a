-- ===== src/Depth/Selection.antt =====
-- `_ReplayBookIndex`: when it is and which book `select` returns.
use mathlib.Core.Path.{subst}
use ai_coin_trading.Prelude.{
  ℕ, ◌≤◌, ◌≡◌, refl, sym, ap, ◌∙◌, ◌≢◌, ◌⊎◌, inl, inr, true, false, Option, some, List, [], ◌∷◌,
  arith, eq_iff, ltb, ◌==◌, if◌then◌else◌, Bool-cases, Option-cases,
}
use ai_coin_trading.Depth.{
  PublicOrderBook, IndependentTakerOrder, Refusal, decision_book_not_found, decision_time_mismatch,
  no_book_at_or_after_due, BookRun, built, duplicate_ordinals, chosen, refused_for, precedes_due,
  get_elem?, max_index, sort_books, same_archive_key, same_decision_key, occurs, has_duplicates,
  grouped, all_runs, build_index, is_decision_book, index_of, find_anchor, bisect_left, pick,
  select,
}
use ai_coin_trading.Depth.Runs.{IsOneRun, AllRuns, build_index-AllRuns}
use ai_coin_trading.Depth.Search.{
  get_elem?-chain, chain_in_order, bisect_left-due, bisect_left_early, index_of-is_decision_book,
  get_elem?-before,
}
use ai_coin_trading.Depth.Sweep.{matches}

module _ {F : Type 0} where
  occurs_decision :
      (b : PublicOrderBook F) (books : List (PublicOrderBook F))
      → occurs same_archive_key b books ≡ false
      → occurs same_decision_key b books ≡ false
  unfolding occurs
  occurs_decision b [] h = refl
  occurs_decision b (c ∷ books) h = ground (arith, occurs_decision b books)

  has_duplicates_decision :
      (books : List (PublicOrderBook F))
      → has_duplicates same_archive_key books ≡ false
      → has_duplicates same_decision_key books ≡ false
  unfolding has_duplicates
  has_duplicates_decision [] h = refl
  has_duplicates_decision (b ∷ books) h =
      ground (arith, occurs_decision b books, has_duplicates_decision books)

  -- The index of a replay is built, or it is refused since two books of one capture have one ordinal:
  -- the later check of the decision keys never refuses.
  pub build_index_total :
      (books : List (PublicOrderBook F)) (gap : Option ℕ)
      → (build_index books gap ≡ duplicate_ordinals)
        ⊎ ((runs : List (BookRun F)) × (build_index books gap ≡ built runs))
  unfolding build_index
  build_index_total books gap =
      elim (Bool-cases (has_duplicates same_archive_key (sort_books books))) [
        | inl twice ↦ inl (rw twice refl)
        | inr once ↦ inr (
          all_runs gap (grouped [] (sort_books books)),
          rw (once, has_duplicates_decision (sort_books books) once) refl,
        )
      ]

  -- What `find_anchor` returns: a run of the index, and where the decision book stands in it.
  find_anchor_parts :
      (order : IndependentTakerOrder F) (runs : List (BookRun F)) (run : BookRun F) (i : ℕ)
      → AllRuns runs
      → find_anchor order runs ≡ some (run, i)
      → IsOneRun run × (index_of order run.books ≡ some i)
  unfolding find_anchor
  find_anchor_parts order [] run i all h = absurd (ground arith)
  find_anchor_parts order (first ∷ runs) run i all h =
      elim (Option-cases (index_of order first.books)) [
        | inl nowhere ↦ find_anchor_parts order runs run i all.1 (ground (arith, nowhere))
        | inr (k, there) ↦
            let here : (first, k) ≡ (run, i) = grind (arith, h, there) in
            let same : first ≡ run = ap (λ (p : BookRun F × ℕ). p.0) here in
            let index : k ≡ i = ap (λ (p : BookRun F × ℕ). p.1) here in
            (subst IsOneRun same all.0, rw (sym same, sym index) there)
      ]

  -- A run of the index with its decision book, and the place of the candidate.
  Place : List (BookRun F) → IndependentTakerOrder F → ℕ → PublicOrderBook F → Type 0
  Place runs order due x =
      (run : BookRun F) × (i : ℕ) × (anchor : PublicOrderBook F) × (find_anchor order runs
        ≡ some (run, i))
      × (get_elem? run.books i ≡ some anchor)
      × (anchor.received_monotonic_ns ≡ order.decision_monotonic_ns)
      × (get_elem? run.books (max_index i (bisect_left run.books due)) ≡ some x)

  pick_candidate :
      (run : BookRun F) (i due : ℕ)
      → ((reason : Refusal) × (pick run i due ≡ refused_for reason))
        ⊎ ((x : PublicOrderBook F) × (get_elem? run.books (max_index i (bisect_left run.books due))
              ≡ some x)
            × (pick run i due
                ≡ (if ltb x.received_monotonic_ns due then precedes_due else chosen x)))
  unfolding pick
  pick_candidate run i due =
      elim (Option-cases (get_elem? run.books (max_index i (bisect_left run.books due)))) [
        | inr (x, read) ↦ inr (x, read, ground (arith, read))
        | inl beyond ↦ elim (Option-cases run.end_reason) [
          | inl last_run ↦ inl (no_book_at_or_after_due, ground (arith, beyond, last_run))
          | inr (reason, ends) ↦ inl (reason, ground (arith, beyond, ends))
        ]
      ]

  select_candidate :
      (runs : List (BookRun F)) (order : IndependentTakerOrder F) (due : ℕ)
      → ((reason : Refusal) × (select runs order due ≡ refused_for reason))
        ⊎ ((x : PublicOrderBook F) × Place runs order due x
            × (select runs order due
                ≡ (if ltb x.received_monotonic_ns due then precedes_due else chosen x)))
  unfolding select Place
  select_candidate runs order due = elim (Option-cases (find_anchor order runs)) [
    | inl missing ↦ inl (decision_book_not_found, ground (arith, missing))
    | inr ((run, i), found) ↦ elim (Option-cases (get_elem? run.books i)) [
      | inl missing ↦ inl (decision_book_not_found, ground (arith, found, missing))
      | inr (anchor, read) ↦
          elim (Bool-cases (anchor.received_monotonic_ns == order.decision_monotonic_ns)) [
            | inr apart ↦ inl (decision_time_mismatch, ground (arith, found, read, apart))
            | inl matches ↦ elim (pick_candidate run i due) [
              | inl (reason, bookless) ↦
                  inl (reason, ground (arith, found, read, matches, bookless))
              | inr (x, there, picked) ↦ inr (
                x,
                (run, i, anchor, found, read, ground arith, there),
                ground (arith, found, read, matches, picked),
              )
            ]
          ]
    ]
  ]

module _ {F : Type 0} (books : List (PublicOrderBook F)) (gap : Option ℕ) (runs : List (BookRun F))
    (order : IndependentTakerOrder F) (due : ℕ) (index : build_index books gap ≡ built runs) where
  -- A book in its place is the order's, is not before the decision, and is not before the due time.
  Place-facts :
      (x : PublicOrderBook F)
      → Place runs order due x
      → (x.capture_id ≡ order.order_capture_id)
        × (x.market ≡ order.order_market)
        × (x.connection_id ≡ order.order_connection_id)
        × (order.decision_monotonic_ns ≤ x.received_monotonic_ns)
        × (due ≤ x.received_monotonic_ns)
  unfolding Place
  Place-facts x (run, i, anchor, found, read, matches, there) =
      let ((c, m, n, high, chain), position) =
        find_anchor_parts order runs run i (build_index-AllRuns books gap runs index) found in
      let (b, read', right) = index_of-is_decision_book order run.books i position in
      let same : b ≡ anchor = grind (arith, read, read') in
      let key : is_decision_book order anchor ≡ true =
        subst (λ (z : PublicOrderBook F). is_decision_book order z ≡ true) same right in
      let (ac, am, an, ab) = get_elem?-chain c m n 0 run.books high i anchor chain read in
      let j = max_index i (bisect_left run.books due) in
      let (xc, xm, xn, xb) = get_elem?-chain c m n 0 run.books high j x chain there in
      let later =
        chain_in_order c m n 0 run.books high i j anchor x chain read there (ground arith) in
      (
        xc ∙ sym ac ∙ (eq_iff anchor.capture_id order.order_capture_id).0 (ground (arith, key)),
        xm ∙ sym am ∙ (eq_iff anchor.market order.order_market).0 (ground (arith, key)),
        xn
            ∙ sym an
            ∙ (eq_iff anchor.connection_id order.order_connection_id).0 (ground (arith, key)),
        ground (arith, later, matches),
        bisect_left-due c m n 0 run.books high due j x chain (ground arith) there,
      )

  -- A book that is selected in a built index is of the order's capture, market and connection, and
  -- was received neither before the decision nor before the due time.
  pub select-chosen :
      (x : PublicOrderBook F)
      → select runs order due ≡ chosen x
      → (x.capture_id ≡ order.order_capture_id)
        × (x.market ≡ order.order_market)
        × (x.connection_id ≡ order.order_connection_id)
        × (order.decision_monotonic_ns ≤ x.received_monotonic_ns)
        × (due ≤ x.received_monotonic_ns)
  select-chosen x h = elim (select_candidate runs order due) [
    | inl (reason, bookless) ↦ absurd (ground (arith, bookless))
    | inr (y, place, picked) ↦
        let same : y ≡ x = grind (arith, picked, h, Place-facts y place) in
        Place-facts x (subst (Place runs order due) same place)
  ]

  -- In a built index the error of a selected book that precedes the due time is never raised.
  pub select_never_precedes : select runs order due ≢ precedes_due
  select_never_precedes h = elim (select_candidate runs order due) [
    | inl (reason, bookless) ↦ ground (arith, bookless)
    | inr (y, place, picked) ↦ let facts = Place-facts y place in ground (arith, picked, facts.4)
  ]

  select-Place : (x : PublicOrderBook F) → Place runs order due x → select runs order due ≡ chosen x
  unfolding Place select pick
  select-Place x place =
      let facts = Place-facts x place in
      let (run, i, anchor, found, read, matches, there) = place in
      ground (arith, found, read, matches, there, facts.4)

  -- If the order's decision book stands in a run of a built index, received when the order says, and
  -- the run has a book at or after it that was received at or after the due time, then a book is
  -- selected, and it was received no later than that one.
  pub select_earliest :
      (run : BookRun F) (i j : ℕ) (anchor y : PublicOrderBook F)
      → find_anchor order runs ≡ some (run, i)
      → get_elem? run.books i ≡ some anchor
      → anchor.received_monotonic_ns ≡ order.decision_monotonic_ns
      → get_elem? run.books j ≡ some y
      → i ≤ j
      → due ≤ y.received_monotonic_ns
      → (x : PublicOrderBook F) × (select runs order due ≡ chosen x)
        × (x.received_monotonic_ns ≤ y.received_monotonic_ns)
  unfolding Place
  select_earliest run i j anchor y found read matches eligible after in_time =
      let k = max_index i (bisect_left run.books due) in
      let reached : k ≤ j =
        ground (arith, bisect_left_early run.books due j y, eligible, after, in_time) in
      let (x, there) = get_elem?-before run.books k j y eligible reached in
      let ((c, m, n, high, chain), position) =
        find_anchor_parts order runs run i (build_index-AllRuns books gap runs index) found in
      (
        x,
        select-Place x (run, i, anchor, found, read, matches, there),
        chain_in_order c m n 0 run.books high k j x y chain there eligible reached,
      )
