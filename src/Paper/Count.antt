-- ===== src/Paper/Count.antt =====
-- The fills among the events of a snapshot.
use ai_coin_trading.Prelude.{ℕ, ◌+◌, ◌≡◌, List, [], ◌∷◌, ◌++◌, arith}
use ai_coin_trading.Broker.{Side, buy_side, sell_side}
use ai_coin_trading.Paper.Types.{fill, Notice, PaperEvent}

abbrev pub is_fill : {F : Type 0} → Side → Notice F → ℕ
is_fill side (fill f) = elim f.side [
  | buy_side ↦ elim side [ buy_side ↦ 1 | sell_side ↦ 0 ]
  | sell_side ↦ elim side [ buy_side ↦ 0 | sell_side ↦ 1 ]
]
is_fill side _ = 0

-- The number of fills of one side.
unfoldable pub fills : {F : Type 0} → Side → List (PaperEvent F) → ℕ
fills side [] = 0
fills side (e ∷ events) = is_fill side e.notice + fills side events

pub fills-snoc :
    {F : Type 0} (side : Side) (xs : List (PaperEvent F)) (e : PaperEvent F)
    → fills side (xs ++ e ∷ []) ≡ fills side xs + is_fill side e.notice
unfolding fills
fills-snoc side [] e = omega arith
fills-snoc side (x ∷ xs) e = omega (arith, fills-snoc side xs e)

pub fills-append :
    {F : Type 0} (side : Side) (xs ys : List (PaperEvent F))
    → fills side (xs ++ ys) ≡ fills side xs + fills side ys
unfolding fills
fills-append side [] ys = omega arith
fills-append side (x ∷ xs) ys = omega (arith, fills-append side xs ys)
