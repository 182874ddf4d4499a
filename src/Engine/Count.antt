-- ===== src/Engine/Count.antt =====
-- The fills of each side among the events of a bar.
use ai_coin_trading.Prelude.{ℕ, suc, ◌+◌, ◌≡◌, refl, ap, List, [], ◌∷◌, ◌++◌, arith, length}
use ai_coin_trading.Broker.{Side, buy_side, sell_side}
use ai_coin_trading.Engine.Types.{Payload, fill, Event}

abbrev pub side_of : {F : Type 0} → Payload F → Side → ℕ
side_of (fill f) side = elim f.side [
  | buy_side ↦ elim side [ buy_side ↦ 1 | sell_side ↦ 0 ]
  | sell_side ↦ elim side [ buy_side ↦ 0 | sell_side ↦ 1 ]
]
side_of _ side = 0

-- The number of fills of one side among the events.
unfoldable pub fills : {F : Type 0} → Side → List (Event F) → ℕ
fills side [] = 0
fills side (e ∷ events) = side_of e.payload side + fills side events

pub fills-snoc :
    {F : Type 0} (side : Side) (xs : List (Event F)) (e : Event F)
    → fills side (xs ++ e ∷ []) ≡ fills side xs + side_of e.payload side
unfolding fills
fills-snoc side [] e = omega arith
fills-snoc side (x ∷ xs) e = omega (arith, fills-snoc side xs e)

pub length-snoc {ℓ} : {A : Type ℓ} (xs : List A) (x : A) → length (xs ++ x ∷ []) ≡ suc (length xs)
length-snoc [] x = refl
length-snoc (y ∷ xs) x = ap suc (length-snoc xs x)
