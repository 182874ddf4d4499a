-- ===== src/Prelude/Results.antt =====
-- Python exceptions as values. A method that mutates an object and raises leaves what it has
-- written, so `raised` carries the state of the object at that point.
use mathlib.Core.Path.{◌≡◌, refl}
use mathlib.Core.Logic.{◌⊎◌, inl, inr}
use native.Mathlib.Omega.{arith}

pub data Error : Type 0 where
  -- broker.py
  already_open non_positive_notional negative_cash no_inventory missing_entry_time : Error
  -- engine.py
  market_mismatch bars_not_increasing : Error
  -- paper.py
  ticker_market_mismatch ticker_predates_candle no_exchange_trade_after_close : Error
  ticker_stale ticker_rewinds_time ticker_rewinds_exchange_time older_than_state : Error
  no_persisted_bar : Error

pub data Result (S A : Type 0) : Type 0 where
  ok : A → Result S A
  raised : Error → S → Result S A

infixl 5 ◌>>=◌
abbrev pub ◌>>=◌ : {S A B : Type 0} → Result S A → (A → Result S B) → Result S B
raised e left >>= rest = raised e left
ok x >>= rest = rest x

-- A chain that has raised did so at its first step, or in the rest after a first step that returned.
pub >>=-raised :
    {S A B : Type 0} {e : Error} {left : S} (first : Result S A) (rest : A → Result S B)
    → (first >>= rest) ≡ raised e left
    → (first ≡ raised e left) ⊎ ((x : A) × (first ≡ ok x) × (rest x ≡ raised e left))
>>=-raised (raised _ _) rest h = inl (ground arith)
>>=-raised (ok x) rest h = inr (x, refl, h)

-- A chain that has returned got through its first step and through the rest after it.
pub >>=-returned :
    {S A B : Type 0} {y : B} (first : Result S A) (rest : A → Result S B)
    → (first >>= rest) ≡ ok y
    → (x : A) × (first ≡ ok x) × (rest x ≡ ok y)
>>=-returned (raised _ _) rest h = absurd (ground arith)
>>=-returned (ok x) rest h = (x, refl, h)
