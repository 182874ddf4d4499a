-- ===== src/Arith.antt =====
-- Python's floats. The arithmetic is a parameter of the model, passed as an instance: the
-- operations that the code calls, with no law, so a definition means the same for any rounding.
-- What a theorem assumes of the arithmetic is a hypothesis of that theorem.
use ai_coin_trading.Prelude.{ℕ, ◌≡◌, Bool, true, false, Option, none, some, if◌then◌else◌}

pub record Arith (F : Type 0) : Type 0 where
  pub add : F → F → F
  pub sub : F → F → F
  pub mul : F → F → F
  pub div : F → F → F
  pub lt : F → F → Bool
  pub le : F → F → Bool
  -- `np.isfinite`
  pub finite : F → Bool
  -- the literal n / d, and its negation
  pub literal : ℕ → ℕ → F
  pub negative : ℕ → ℕ → F

-- Laws of the order that IEEE comparisons have, also at infinities and NaN: a comparison with NaN
-- is false.
pub record IsOrdered {F : Type 0} (a : Arith F) : Type 0 where
  pub lt_irrefl : (x : F) → a.lt x x ≡ false
  pub not_le_of_lt : (x y : F) → a.lt x y ≡ true → a.le y x ≡ false
  pub lt_trans : (x y z : F) → a.lt x y ≡ true → a.lt y z ≡ true → a.lt x z ≡ true
  pub le_lt_trans : (x y z : F) → a.le x y ≡ true → a.lt y z ≡ true → a.lt x z ≡ true
  pub lt_le_trans : (x y z : F) → a.lt x y ≡ true → a.le y z ≡ true → a.lt x z ≡ true

module _ {F : Type 0} ⦃a : Arith F⦄ where
  infixl 65 ◌⊕◌ ◌⊖◌
  infixl 70 ◌⊗◌ ◌⊘◌
  infix 50 ◌<?◌ ◌≤?◌
  abbrev pub ◌⊕◌ : F → F → F
  x ⊕ y = a.add x y

  abbrev pub ◌⊖◌ : F → F → F
  x ⊖ y = a.sub x y

  abbrev pub ◌⊗◌ : F → F → F
  x ⊗ y = a.mul x y

  abbrev pub ◌⊘◌ : F → F → F
  x ⊘ y = a.div x y

  abbrev pub ◌<?◌ : F → F → Bool
  x <? y = a.lt x y

  abbrev pub ◌≤?◌ : F → F → Bool
  x ≤? y = a.le x y

  abbrev pub zero_f : F
  zero_f = a.literal 0 1

  abbrev pub one_f : F
  one_f = a.literal 1 1

  -- Python's `max(x, y)` returns `y` only if it is greater than `x`, and `min` likewise.
  abbrev pub max_f : F → F → F
  max_f x y = if x <? y then y else x

  abbrev pub min_f : F → F → F
  min_f x y = if y <? x then y else x

  -- `float(x) if x is not None and np.isfinite(x) else None`
  abbrev pub usable : Option F → Option F
  usable none = none
  usable (some x) = if a.finite x then some x else none
