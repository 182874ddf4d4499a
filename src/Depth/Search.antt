-- ===== src/Depth/Search.antt =====
-- What a search in one run finds: the first book that is not before a time.
use mathlib.Core.Path.{subst}
use ai_coin_trading.Prelude.{
  ℕ, zero, suc, ◌≤◌, ◌<◌, String, ◌≡◌, refl, inl, inr, true, some, List, [], ◌∷◌, arith, Bool-cases,
  Option-cases,
}
use ai_coin_trading.Depth.{
  PublicOrderBook, IndependentTakerOrder, get_elem?, is_decision_book, index_of, bisect_left,
}
use ai_coin_trading.Depth.Runs.{IsChain}

module _ {F : Type 0} where
  -- Every book that is read from a chain has its capture, market and connection, and is not earlier
  -- than its beginning.
  pub get_elem?-chain :
      (c m n : String) (low : ℕ) (books : List (PublicOrderBook F)) (high i : ℕ)
      (x : PublicOrderBook F)
      → IsChain c m n low books high
      → get_elem? books i ≡ some x
      → (x.capture_id ≡ c)
        × (x.market ≡ m)
        × (x.connection_id ≡ n)
        × (low ≤ x.received_monotonic_ns)
  unfolding get_elem?
  get_elem?-chain c m n low [] high i x chain h = absurd (ground arith)
  get_elem?-chain c m n low (b ∷ books) high zero x chain h =
      let same : b ≡ x = grind (arith, h) in
      subst
        (λ (y : PublicOrderBook F).
          (y.capture_id ≡ c)
          × (y.market ≡ m)
          × (y.connection_id ≡ n)
          × (low ≤ y.received_monotonic_ns))
        same (chain.0, chain.1, chain.2, chain.3)
  get_elem?-chain c m n low (b ∷ books) high (suc i) x chain h =
      let (cap, mar, con, later) =
        get_elem?-chain c m n b.received_monotonic_ns books high i x chain.4 h in
      (cap, mar, con, ground (arith, chain.3, later))

  -- Of two books of a chain the later one is not earlier in time.
  pub chain_in_order :
      (c m n : String) (low : ℕ) (books : List (PublicOrderBook F)) (high i j : ℕ)
      (x y : PublicOrderBook F)
      → IsChain c m n low books high
      → get_elem? books i ≡ some x
      → get_elem? books j ≡ some y
      → i ≤ j
      → x.received_monotonic_ns ≤ y.received_monotonic_ns
  unfolding get_elem?
  chain_in_order c m n low [] high i j x y chain h k order = absurd (ground arith)
  chain_in_order c m n low (b ∷ books) high zero zero x y chain h k order =
      let same : x ≡ y = grind (arith, h, k) in rw same (omega arith)
  chain_in_order c m n low (b ∷ books) high zero (suc j) x y chain h k order =
      let same : b ≡ x = grind (arith, h) in
      let (cap, mar, con, later) =
        get_elem?-chain c m n b.received_monotonic_ns books high j y chain.4 k in
      subst (λ (z : PublicOrderBook F). z.received_monotonic_ns ≤ y.received_monotonic_ns) same
        later
  chain_in_order c m n low (b ∷ books) high (suc i) zero x y chain h k order = absurd (omega arith)
  chain_in_order c m n low (b ∷ books) high (suc i) (suc j) x y chain h k order =
      chain_in_order c m n b.received_monotonic_ns books high i j x y chain.4 h k (omega arith)

  -- From the index that `bisect_left` returns on, no book is before the time.
  pub bisect_left-due :
      (c m n : String) (low : ℕ) (books : List (PublicOrderBook F)) (high due j : ℕ)
      (x : PublicOrderBook F)
      → IsChain c m n low books high
      → bisect_left books due ≤ j
      → get_elem? books j ≡ some x
      → due ≤ x.received_monotonic_ns
  unfolding get_elem? bisect_left
  bisect_left-due c m n low [] high due j x chain from h = absurd (ground arith)
  bisect_left-due c m n low (b ∷ books) high due zero x chain from h =
      let same : b ≡ x = grind (arith, h) in
      subst (λ (z : PublicOrderBook F). due ≤ z.received_monotonic_ns) same (ground arith)
  bisect_left-due c m n low (b ∷ books) high due (suc j) x chain from h =
      let (cap, mar, con, later) =
        get_elem?-chain c m n b.received_monotonic_ns books high j x chain.4 h in
      ground
        (arith, later, bisect_left-due c m n b.received_monotonic_ns books high due j x chain.4)

  -- Before the index that `bisect_left` returns every book is before the time.
  pub bisect_left_early :
      (books : List (PublicOrderBook F)) (due j : ℕ) (x : PublicOrderBook F)
      → j < bisect_left books due
      → get_elem? books j ≡ some x
      → x.received_monotonic_ns < due
  unfolding get_elem? bisect_left
  bisect_left_early [] due j x before h = absurd (ground arith)
  bisect_left_early (b ∷ books) due zero x before h =
      let same : b ≡ x = grind (arith, h) in
      subst (λ (z : PublicOrderBook F). z.received_monotonic_ns < due) same (ground arith)
  bisect_left_early (b ∷ books) due (suc j) x before h =
      ground (arith, bisect_left_early books due j x)

  -- The position of the decision book is one where the run has a book of the order's key.
  pub index_of-is_decision_book :
      (order : IndependentTakerOrder F) (books : List (PublicOrderBook F)) (i : ℕ)
      → index_of order books ≡ some i
      → (b : PublicOrderBook F) × (get_elem? books i ≡ some b) × (is_decision_book order b ≡ true)
  unfolding get_elem? index_of
  index_of-is_decision_book order [] i h = absurd (ground arith)
  index_of-is_decision_book order (b ∷ books) i h = elim (Bool-cases (is_decision_book order b)) [
    | inl here ↦ let first : i ≡ 0 = ground (arith, here) in rw first (b, refl, here)
    | inr later ↦ elim (Option-cases (index_of order books)) [
      | inl nowhere ↦ absurd (ground (arith, later, nowhere))
      | inr (k, there) ↦
          let next : i ≡ suc k = ground (arith, later, there) in
          let (d, read, right) = index_of-is_decision_book order books k there in
          rw next (d, read, right)
    ]
  ]

  pub get_elem?-before :
      (books : List (PublicOrderBook F)) (i j : ℕ) (y : PublicOrderBook F)
      → get_elem? books j ≡ some y
      → i ≤ j
      → (x : PublicOrderBook F) × (get_elem? books i ≡ some x)
  unfolding get_elem?
  get_elem?-before [] i j y h order = absurd (ground arith)
  get_elem?-before (b ∷ books) zero j y h order = (b, refl)
  get_elem?-before (b ∷ books) (suc i) zero y h order = absurd (omega arith)
  get_elem?-before (b ∷ books) (suc i) (suc j) y h order =
      get_elem?-before books i j y h (omega arith)
