-- ===== src/Decimal.antt =====
-- An arithmetic for examples: signed decimals with sixteen places, whose products and quotients are
-- cut off. It shows that the laws assumed of the floats can hold, and runs the model.
use ai_coin_trading.Prelude.{
  ℕ, suc, ◌+◌, ◌-◌, ◌*◌, ◌/◌, ◌^◌, ◌≡◌, Bool, true, false, arith, ltb, leb, if◌then◌else◌,
}
use ai_coin_trading.Arith.{Arith, IsOrdered}

-- `negsuc n` is -(n + 1).
pub data ℤ : Type 0 where
  pos : ℕ → ℤ
  negsuc : ℕ → ℤ

abbrev pub pos_part : ℤ → ℕ
pos_part (pos n) = n
pos_part (negsuc n) = 0

abbrev pub neg_part : ℤ → ℕ
neg_part (pos n) = 0
neg_part (negsuc n) = suc n

abbrev pub sub_ℕ : ℕ → ℕ → ℤ
sub_ℕ a b = if leb b a then pos (a - b) else negsuc (b - a - 1)

-- A number of this many units is 1.
abbrev scale : ℕ
scale = 10 ^ 16

abbrev add_ℤ : ℤ → ℤ → ℤ
add_ℤ a b = sub_ℕ (pos_part a + pos_part b) (neg_part a + neg_part b)

abbrev sub_ℤ : ℤ → ℤ → ℤ
sub_ℤ a b = sub_ℕ (pos_part a + neg_part b) (neg_part a + pos_part b)

abbrev mul_ℤ : ℤ → ℤ → ℤ
mul_ℤ a b =
    sub_ℕ ((pos_part a * pos_part b + neg_part a * neg_part b) / scale)
      ((pos_part a * neg_part b + neg_part a * pos_part b) / scale)

abbrev div_ℤ : ℤ → ℤ → ℤ
div_ℤ a b =
    sub_ℕ (pos_part a * scale / pos_part b + neg_part a * scale / neg_part b)
      (pos_part a * scale / neg_part b + neg_part a * scale / pos_part b)

abbrev lt_ℤ : ℤ → ℤ → Bool
lt_ℤ a b = ltb (pos_part a + neg_part b) (pos_part b + neg_part a)

abbrev le_ℤ : ℤ → ℤ → Bool
le_ℤ a b = leb (pos_part a + neg_part b) (pos_part b + neg_part a)

-- The decimal n / d.
abbrev pub decimal : ℕ → ℕ → ℤ
decimal n d = pos (n * scale / d)

instance abbrev pub decimals : Arith ℤ
decimals = record {
  add = add_ℤ;
  sub = sub_ℤ;
  mul = mul_ℤ;
  div = div_ℤ;
  lt = lt_ℤ;
  le = le_ℤ;
  finite = λ x. true;
  literal = decimal;
  negative = λ n d. sub_ℕ 0 (n * scale / d);
}

lt_irrefl : (x : ℤ) → lt_ℤ x x ≡ false
lt_irrefl x = ground arith

not_le_of_lt : (x y : ℤ) → lt_ℤ x y ≡ true → le_ℤ y x ≡ false
not_le_of_lt x y h = ground arith

lt_trans : (x y z : ℤ) → lt_ℤ x y ≡ true → lt_ℤ y z ≡ true → lt_ℤ x z ≡ true
lt_trans x y z h k = ground arith

le_lt_trans : (x y z : ℤ) → le_ℤ x y ≡ true → lt_ℤ y z ≡ true → lt_ℤ x z ≡ true
le_lt_trans x y z h k = ground arith

lt_le_trans : (x y z : ℤ) → lt_ℤ x y ≡ true → le_ℤ y z ≡ true → lt_ℤ x z ≡ true
lt_le_trans x y z h k = ground arith

pub decimals-IsOrdered : IsOrdered decimals
decimals-IsOrdered = record {
  lt_irrefl = lt_irrefl;
  not_le_of_lt = not_le_of_lt;
  lt_trans = lt_trans;
  le_lt_trans = le_lt_trans;
  lt_le_trans = lt_le_trans;
}
