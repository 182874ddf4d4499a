-- ===== src/Shadow/Counts.antt =====
-- Counts of the rows of a table, after an append and after an update.
use ai_coin_trading.Prelude.{
  ◌+◌, ◌≤◌, ◌≡◌, refl, inl, inr, Bool, true, false, none, List, [], ◌∷◌, ◌++◌, arith, Bool-cases,
}
use ai_coin_trading.Shadow.Ledger.{find_row, update_rows, count_rows}

-- A change that no kept row survives leaves no more kept rows.
pub count_rows-update_rows :
    {R : Type 0} (test keep : R → Bool) (change : R → R) (rows : List R)
    → ((x : R) → keep (change x) ≡ false)
    → count_rows keep (update_rows test change rows) ≤ count_rows keep rows
unfolding count_rows update_rows
count_rows-update_rows test keep change [] ends = ground arith
count_rows-update_rows test keep change (x ∷ rows) ends =
    let rest = count_rows-update_rows test keep change rows ends in
    elim (Bool-cases (test x)) [
      | inl hit ↦ ground (arith, hit, rest, ends x)
      | inr miss ↦ ground (arith, miss, rest)
    ]

pub count_rows-none :
    {R : Type 0} (keep : R → Bool) (rows : List R)
    → find_row keep rows ≡ none
    → count_rows keep rows ≡ 0
unfolding count_rows find_row
count_rows-none keep [] h = ground arith
count_rows-none keep (x ∷ rows) h = elim (Bool-cases (keep x)) [
  | inl here ↦ absurd (ground (arith, here))
  | inr there ↦
      let rest = count_rows-none keep rows (ground (arith, there)) in ground (arith, there, rest)
]

pub count_rows-append :
    {R : Type 0} (keep : R → Bool) (rows : List R) (last : R)
    → count_rows keep (rows ++ last ∷ []) ≤ count_rows keep rows + 1
unfolding count_rows
count_rows-append keep [] last = elim (Bool-cases (keep last)) [
  | inl here ↦ ground (arith, here)
  | inr there ↦ ground (arith, there)
]
count_rows-append keep (x ∷ rows) last =
    let rest = count_rows-append keep rows last in ground (arith, rest)

-- The last of the kept rows ends in an update.
pub count_rows-end :
    {R : Type 0} (test keep : R → Bool) (change : R → R) (rows : List R) (last : R)
    → ((x : R) → keep (change x) ≡ false)
    → test last ≡ true
    → find_row keep rows ≡ none
    → count_rows keep (update_rows test change (rows ++ last ∷ [])) ≡ 0
unfolding count_rows update_rows find_row
count_rows-end test keep change [] last ends hit h = ground (arith, ends last)
count_rows-end test keep change (x ∷ rows) last ends hit h = elim (Bool-cases (keep x)) [
  | inl here ↦ absurd (ground (arith, here))
  | inr there ↦
      let rest = count_rows-end test keep change rows last ends hit (ground (arith, there)) in
      elim (Bool-cases (test x)) [
        | inl meets ↦ ground (arith, meets, rest, ends x)
        | inr misses ↦ ground (arith, misses, there, rest)
      ]
]

pub find_row_zero :
    {R : Type 0} (keep : R → Bool) (rows : List R)
    → count_rows keep rows ≡ 0
    → find_row keep rows ≡ none
unfolding count_rows find_row
find_row_zero keep [] h = refl
find_row_zero keep (x ∷ rows) h = elim (Bool-cases (keep x)) [
  | inl here ↦ absurd (ground (arith, here))
  | inr there ↦
      let rest = find_row_zero keep rows (ground (arith, there)) in ground (arith, there, rest)
]

pub count_rows-all :
    {R : Type 0} (keep : R → Bool) (change : R → R) (rows : List R)
    → ((x : R) → keep (change x) ≡ false)
    → count_rows keep (update_rows keep change rows) ≡ 0
unfolding count_rows update_rows
count_rows-all keep change [] ends = ground arith
count_rows-all keep change (x ∷ rows) ends =
    let rest = count_rows-all keep change rows ends in
    elim (Bool-cases (keep x)) [
      | inl hit ↦ ground (arith, hit, rest, ends x)
      | inr miss ↦ ground (arith, miss, rest)
    ]
