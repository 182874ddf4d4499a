-- ===== src/Depth/Levels.antt =====
-- What `sweep_visible_depth` takes from the visible levels.
use ai_coin_trading.Prelude.{
  ◌+◌, ◌≤◌, ◌≡◌, refl, inl, inr, true, List, [], ◌∷◌, ◌++◌, arith, if◌then◌else◌, length,
  Option-cases,
}
use ai_coin_trading.Arith.{Arith, ◌≤?◌, zero_f}
use ai_coin_trading.Depth.{DepthLevel, PublicOrderBook, IndependentTakerOrder}
use ai_coin_trading.Depth.Sweep.{
  RequestKind, replayed, VisibleDepthExecution, SweepState, is_buy, kind_of, requested, take_level,
  sweep_levels, execution_of, best_of, finish_sweep, sweep_visible_depth,
}

module _ {F : Type 0} ⦃a : Arith F⦄ where
  take_level-consumed :
      (kind : RequestKind) (level : DepthLevel F) (s : SweepState F)
      → (take_level kind level s).consumed ≤ s.consumed + 1
  unfolding take_level
  take_level-consumed kind level s = ground arith

  sweep_levels-consumed :
      (kind : RequestKind) (levels : List (DepthLevel F)) (s : SweepState F)
      → (sweep_levels kind levels s).consumed ≤ s.consumed + length levels
  unfolding sweep_levels
  sweep_levels-consumed kind [] s = omega arith
  sweep_levels-consumed kind (level ∷ levels) s = ground (
    arith,
    sweep_levels-consumed kind levels (take_level kind level s),
    take_level-consumed kind level s,
  )

  sweep_levels_done :
      (kind : RequestKind) (levels : List (DepthLevel F)) (s : SweepState F)
      → (s.remaining ≤? zero_f) ≡ true
      → sweep_levels kind levels s ≡ s
  unfolding sweep_levels
  sweep_levels_done kind [] s done = refl
  sweep_levels_done kind (level ∷ levels) s done = ground (arith, done)

  -- Levels behind those that fill the order change nothing in the sweep.
  sweep_levels_enough :
      (kind : RequestKind) (levels deeper : List (DepthLevel F)) (s : SweepState F)
      → ((sweep_levels kind levels s).remaining ≤? zero_f) ≡ true
      → sweep_levels kind (levels ++ deeper) s ≡ sweep_levels kind levels s
  unfolding sweep_levels
  sweep_levels_enough kind [] deeper s done = sweep_levels_done kind deeper s done
  sweep_levels_enough kind (level ∷ levels) deeper s done =
      ground (arith, sweep_levels_enough kind levels deeper (take_level kind level s))

  finish_sweep-consumed :
      (book : PublicOrderBook F) (order : IndependentTakerOrder F) (rate : F) (s : SweepState F)
      (e : VisibleDepthExecution F)
      → finish_sweep book order rate s ≡ replayed e
      → e.levels_consumed ≡ s.consumed
  unfolding finish_sweep execution_of
  finish_sweep-consumed book order rate s e h = elim (Option-cases (best_of book.asks)) [
    | inl none_asked ↦ absurd (ground (arith, none_asked))
    | inr (ask, asked) ↦ elim (Option-cases (best_of book.bids)) [
      | inl none_bid ↦ absurd (ground (arith, asked, none_bid))
      | inr (bid, offered) ↦ ground (arith, asked, offered)
    ]
  ]

  -- A sweep consumes no more levels than the order's side of the book shows.
  sweep_visible_depth-consumed :
      (book : PublicOrderBook F) (order : IndependentTakerOrder F) (rate : F)
      (e : VisibleDepthExecution F)
      → sweep_visible_depth book order rate ≡ replayed e
      → e.levels_consumed ≤ length (if is_buy order.side then book.asks else book.bids)
  unfolding sweep_visible_depth
  sweep_visible_depth-consumed book order rate e h =
      let levels = if is_buy order.side then book.asks else book.bids in
      let start : SweepState F = record {
        remaining = requested order;
        swept_base = zero_f;
        swept_quote = zero_f;
        consumed = 0;
      } in
      let swept = sweep_levels (kind_of order) levels start in
      let returned : finish_sweep book order rate swept ≡ replayed e = ground arith in
      let bound = sweep_levels-consumed (kind_of order) levels start in
      let same = finish_sweep-consumed book order rate swept e returned in
      ground (arith, bound, same)
