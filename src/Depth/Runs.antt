-- ===== src/Depth/Runs.antt =====
-- Every run is of one capture, market and connection, and its books are in the order of their times.
use mathlib.Core.Path.{subst}
use ai_coin_trading.Prelude.{
  ℕ, ◌≤◌, String, ◌≡◌, refl, sym, inl, inr, ◌&&◌, Option, none, List, [], ◌∷◌, ◌++◌, arith, str_eq,
  eq_iff, Bool-cases, Option-cases,
}
use ai_coin_trading.Depth.{
  PublicOrderBook, BookRun, Stream, built, sort_books, add_to_stream, grouped, boundary,
  continue_run, stream_runs, all_runs, build_index,
}

module _ {F : Type 0} where
  -- The books are of this capture, market and connection, and their times do not fall, from `low` to
  -- `high`, which is the last one's time, or `low`.
  abbrev pub IsChain : String → String → String → ℕ → List (PublicOrderBook F) → ℕ → Type 0
  IsChain c m n low [] high = low ≡ high
  IsChain c m n low (b ∷ books) high =
      (b.capture_id ≡ c)
      × (b.market ≡ m)
      × (b.connection_id ≡ n)
      × (low ≤ b.received_monotonic_ns)
      × IsChain c m n b.received_monotonic_ns books high

  pub IsChain-snoc :
      (c m n : String) (low : ℕ) (books : List (PublicOrderBook F)) (high : ℕ)
      (b : PublicOrderBook F)
      → IsChain c m n low books high
      → b.capture_id ≡ c
      → b.market ≡ m
      → b.connection_id ≡ n
      → high ≤ b.received_monotonic_ns
      → IsChain c m n low (books ++ b ∷ []) b.received_monotonic_ns
  IsChain-snoc c m n low [] high b chain cap mar con later = (cap, mar, con, rw chain later, refl)
  IsChain-snoc c m n low (d ∷ books) high b chain cap mar con later = (
    chain.0,
    chain.1,
    chain.2,
    chain.3,
    IsChain-snoc c m n d.received_monotonic_ns books high b chain.4 cap mar con later,
  )

  abbrev pub AllOf : String → String → List (PublicOrderBook F) → Type 0
  AllOf c m [] = Unit
  AllOf c m (b ∷ books) = (b.capture_id ≡ c) × (b.market ≡ m) × AllOf c m books

  AllOf-snoc :
      (c m : String) (books : List (PublicOrderBook F)) (b : PublicOrderBook F)
      → AllOf c m books
      → b.capture_id ≡ c
      → b.market ≡ m
      → AllOf c m (books ++ b ∷ [])
  AllOf-snoc c m [] b all cap mar = (cap, mar, tt)
  AllOf-snoc c m (d ∷ books) b all cap mar = (all.0, all.1, AllOf-snoc c m books b all.2 cap mar)

  abbrev pub Sorted : List (Stream F) → Type 0
  Sorted [] = Unit
  Sorted (g ∷ streams) = AllOf g.stream_capture g.stream_market g.stream_books × Sorted streams

  add_to_stream-Sorted :
      (b : PublicOrderBook F) (streams : List (Stream F))
      → Sorted streams
      → Sorted (add_to_stream b streams)
  unfolding add_to_stream
  add_to_stream-Sorted b [] all = ((refl, refl, tt), tt)
  add_to_stream-Sorted b (g ∷ streams) all =
      elim (Bool-cases (str_eq b.capture_id g.stream_capture && str_eq b.market g.stream_market)) [
        | inl here ↦
            let cap : b.capture_id ≡ g.stream_capture =
              (eq_iff b.capture_id g.stream_capture).0 (ground (arith, here)) in
            let mar : b.market ≡ g.stream_market =
              (eq_iff b.market g.stream_market).0 (ground (arith, here)) in
            rw here
              (AllOf-snoc g.stream_capture g.stream_market g.stream_books b all.0 cap mar, all.1)
        | inr elsewhere ↦ rw elsewhere (all.0, add_to_stream-Sorted b streams all.1)
      ]

  grouped-Sorted :
      (streams : List (Stream F)) (books : List (PublicOrderBook F))
      → Sorted streams
      → Sorted (grouped streams books)
  unfolding grouped
  grouped-Sorted streams [] all = all
  grouped-Sorted streams (b ∷ books) all =
      grouped-Sorted (add_to_stream b streams) books (add_to_stream-Sorted b streams all)

  -- A run is a chain.
  abbrev pub IsOneRun : BookRun F → Type 0
  IsOneRun run =
      (c : String) × (m : String) × (n : String) × (high : ℕ) × IsChain c m n 0 run.books high

  abbrev pub AllRuns : List (BookRun F) → Type 0
  AllRuns [] = Unit
  AllRuns (run ∷ runs) = IsOneRun run × AllRuns runs

  boundary-none :
      (gap : Option ℕ) (previous b : PublicOrderBook F)
      → boundary gap previous b ≡ none
      → (b.connection_id ≡ previous.connection_id)
        × (previous.received_monotonic_ns ≤ b.received_monotonic_ns)
  unfolding boundary
  boundary-none gap previous b h =
      ((eq_iff b.connection_id previous.connection_id).0 (ground arith), ground arith)

  continue_run-AllRuns :
      (gap : Option ℕ) (c m : String) (current : List (PublicOrderBook F))
      (previous : PublicOrderBook F) (stream : List (PublicOrderBook F))
      → IsChain c m previous.connection_id 0 current previous.received_monotonic_ns
      → AllOf c m stream
      → AllRuns (continue_run gap current previous stream)
  unfolding continue_run
  continue_run-AllRuns gap c m current previous [] chain all =
      ((c, m, previous.connection_id, previous.received_monotonic_ns, chain), tt)
  continue_run-AllRuns gap c m current previous (b ∷ stream) chain all =
      elim (Option-cases (boundary gap previous b)) [
        | inl same ↦
            let (con, later) = boundary-none gap previous b same in
            let longer =
              IsChain-snoc c m previous.connection_id 0 current previous.received_monotonic_ns b
                chain all.0 all.1 con later in
            rw (same, AllRuns, continue_run)
              (continue_run-AllRuns gap c m (current ++ b ∷ []) b stream
                (subst (λ (n : String). IsChain c m n 0 (current ++ b ∷ []) b.received_monotonic_ns)
                  (sym con) longer)
                all.2)
        | inr (reason, ends) ↦
            rw (ends, AllRuns, continue_run)
              (
                (c, m, previous.connection_id, previous.received_monotonic_ns, chain),
                continue_run-AllRuns gap c m (b ∷ []) b stream
                    (all.0, all.1, refl, omega arith, refl) all.2,
              )
      ]

  stream_runs-AllRuns :
      (gap : Option ℕ) (c m : String) (stream : List (PublicOrderBook F))
      → AllOf c m stream
      → AllRuns (stream_runs gap stream)
  unfolding stream_runs
  stream_runs-AllRuns gap c m [] all = tt
  stream_runs-AllRuns gap c m (b ∷ stream) all =
      continue_run-AllRuns gap c m (b ∷ []) b stream (all.0, all.1, refl, omega arith, refl) all.2

  append-AllRuns :
      (runs more : List (BookRun F)) → AllRuns runs → AllRuns more → AllRuns (runs ++ more)
  append-AllRuns [] more h k = k
  append-AllRuns (run ∷ runs) more h k = (h.0, append-AllRuns runs more h.1 k)

  all_runs-AllRuns :
      (gap : Option ℕ) (streams : List (Stream F)) → Sorted streams → AllRuns (all_runs gap streams)
  unfolding all_runs
  all_runs-AllRuns gap [] all = tt
  all_runs-AllRuns gap (g ∷ streams) all =
      append-AllRuns (stream_runs gap g.stream_books) (all_runs gap streams)
        (stream_runs-AllRuns gap g.stream_capture g.stream_market g.stream_books all.0)
        (all_runs-AllRuns gap streams all.1)

  pub build_index-AllRuns :
      (books : List (PublicOrderBook F)) (gap : Option ℕ) (runs : List (BookRun F))
      → build_index books gap ≡ built runs
      → AllRuns runs
  unfolding build_index
  build_index-AllRuns books gap runs h =
      let ordered = sort_books books in
      let same : all_runs gap (grouped [] ordered) ≡ runs = ground arith in
      subst AllRuns same (all_runs-AllRuns gap (grouped [] ordered) (grouped-Sorted [] ordered tt))
