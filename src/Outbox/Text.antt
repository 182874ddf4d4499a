-- ===== src/Outbox/Text.antt =====
-- `_required_text`: Python's `strip`, and the refusal of what is then empty.
use Prim.Native.Char.{code}
use Prim.Native.String.{[], ◌∷◌}
use ai_coin_trading.Prelude.{
  ℕ, Bool, ◌&&◌, ◌||◌, String, Option, none, some, str_eq, ◌==◌, leb, if◌then◌else◌,
}

-- `str.isspace` of one character.
is_space : ℕ → Bool
is_space c =
    leb 9 c && leb c 13
    || leb 28 c && leb c 32
    || c == 133
    || c == 160
    || c == 5760
    || leb 8192 c && leb c 8202
    || c == 8232
    || c == 8233
    || c == 8239
    || c == 8287
    || c == 12288

strip_left : String → String
strip_left [] = []
strip_left (c ∷ s) = let rest = strip_left s in if is_space (code c) then rest else c ∷ s

strip_right : String → String
strip_right [] = []
strip_right (c ∷ s) =
    let rest = strip_right s in if is_space (code c) && str_eq rest "" then [] else c ∷ rest

unfoldable pub required_text : String → Option String
unfolding strip_left strip_right is_space
required_text value = let t = strip_right (strip_left value) in if str_eq t "" then none else some t
