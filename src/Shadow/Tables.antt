-- ===== src/Shadow/Tables.antt =====
-- Rows of a table: the one that a query finds, and those that an update leaves.
use mathlib.Core.Path.{subst}
use ai_coin_trading.Prelude.{
  ◌≡◌, refl, ap, ◌∙◌, ◌⊎◌, inl, inr, Bool, true, false, none, some, List, [], ◌∷◌, ◌++◌, arith,
  Bool-cases, Option-cases,
}
use ai_coin_trading.Shadow.Ledger.{find_row, update_rows, insert_exact}
use ai_coin_trading.Shadow.Types.{done}

-- A row of the table.
abbrev pub Within : {R : Type 0} → R → List R → Type 0
Within row [] = ⊥
Within row (x ∷ rows) = (x ≡ row) ⊎ Within row rows

pub find_row_test :
    {R : Type 0} (test : R → Bool) (rows : List R) (row : R)
    → find_row test rows ≡ some row
    → (test row ≡ true) × Within row rows
unfolding find_row
find_row_test test [] row h = absurd (ground arith)
find_row_test test (x ∷ rows) row h = elim (Bool-cases (test x)) [
  | inl here ↦
      let same : x ≡ row = ground (arith, here) in (subst (λ z. test z ≡ true) same here, inl same)
  | inr there ↦
      let (good, within) = find_row_test test rows row (ground (arith, there)) in (good, inr within)
]

-- A kept row of an updated table is one that no change has met.
pub update_rows-Within :
    {R : Type 0} (test keep : R → Bool) (change : R → R) (rows : List R) (row : R)
    → ((x : R) → keep (change x) ≡ false)
    → keep row ≡ true
    → Within row (update_rows test change rows)
    → Within row rows
unfolding update_rows
update_rows-Within test keep change [] row ends kept within = within
update_rows-Within test keep change (x ∷ rows) row ends kept (inl here) =
    elim (Bool-cases (test x)) [
      | inl hit ↦ absurd (ground (arith, hit, here, ends x))
      | inr miss ↦ inl (ground (arith, miss, here))
    ]
update_rows-Within test keep change (x ∷ rows) row ends kept (inr there) =
    inr (update_rows-Within test keep change rows row ends kept there)

pub find_row-none :
    {R : Type 0} (test : R → Bool) (rows : List R) (row : R)
    → find_row test rows ≡ none
    → Within row rows
    → test row ≡ false
unfolding find_row
find_row-none test [] row h within = absurd within
find_row-none test (x ∷ rows) row h (inl here) = elim (Bool-cases (test x)) [
  | inl good ↦ absurd (ground (arith, good))
  | inr bad ↦ subst (λ z. test z ≡ false) here bad
]
find_row-none test (x ∷ rows) row h (inr there) = elim (Bool-cases (test x)) [
  | inl good ↦ absurd (ground (arith, good))
  | inr bad ↦ find_row-none test rows row (ground (arith, bad)) there
]

pub Within-append :
    {R : Type 0} (rows : List R) (last row : R)
    → Within row (rows ++ last ∷ [])
    → Within row rows ⊎ (last ≡ row)
Within-append [] last row (inl here) = inr here
Within-append [] last row (inr h) = absurd h
Within-append (x ∷ rows) last row (inl here) = inl (inl here)
Within-append (x ∷ rows) last row (inr there) = elim (Within-append rows last row there) [
  | inl within ↦ inl (inr within)
  | inr end ↦ inr end
]

-- The found row of an updated table is the changed one.
pub find_row-update_rows :
    {R : Type 0} (test : R → Bool) (change : R → R) (rows : List R) (old : R)
    → test (change old) ≡ true
    → find_row test rows ≡ some old
    → find_row test (update_rows test change rows) ≡ some (change old)
unfolding find_row update_rows
find_row-update_rows test change [] old good h = absurd (ground arith)
find_row-update_rows test change (x ∷ rows) old good h = elim (Bool-cases (test x)) [
  | inl here ↦
      let same : x ≡ old = ground (arith, here) in
      let kept : test (change x) ≡ true = ap (λ z. test (change z)) same ∙ good in
      ground (arith, here, same, kept)
  | inr there ↦
      let rest = find_row-update_rows test change rows old good (ground (arith, there)) in
      ground (arith, there, rest)
]

-- The row that an append adds, and a row that it leaves.
pub find_row-append :
    {R : Type 0} (test : R → Bool) (rows : List R) (last : R)
    → find_row test rows ≡ none
    → test last ≡ true
    → find_row test (rows ++ last ∷ []) ≡ some last
unfolding find_row
find_row-append test [] last h good = ground arith
find_row-append test (x ∷ rows) last h good = elim (Bool-cases (test x)) [
  | inl here ↦ absurd (ground (arith, here))
  | inr there ↦
      let rest = find_row-append test rows last (ground (arith, there)) good in
      ground (arith, there, rest)
]

pub find_row-append_found :
    {R : Type 0} (test : R → Bool) (rows : List R) (last old : R)
    → find_row test rows ≡ some old
    → find_row test (rows ++ last ∷ []) ≡ some old
unfolding find_row
find_row-append_found test [] last old h = absurd (ground arith)
find_row-append_found test (x ∷ rows) last old h = elim (Bool-cases (test x)) [
  | inl here ↦ ground (arith, here)
  | inr there ↦
      let rest = find_row-append_found test rows last old (ground (arith, there)) in
      ground (arith, there, rest)
]

-- A row that was inserted is there, or one that counts as the same.
pub insert_exact_there :
    {R : Type 0} (test same : R → Bool) (row : R) (rows rows' : List R)
    → test row ≡ true
    → insert_exact true test test same row rows ≡ done rows'
    → (found : R) × (find_row test rows' ≡ some found) × ((row ≡ found) ⊎ (same found ≡ true))
unfolding insert_exact
insert_exact_there test same row rows rows' good h = elim (Option-cases (find_row test rows)) [
  | inl new ↦
      let there = find_row-append test rows row new good in
      let grown : rows' ≡ rows ++ row ∷ [] = ground (arith, new) in
      (row, ap (find_row test) grown ∙ there, inl refl)
  | inr (old, found) ↦
      let kept : rows' ≡ rows = ground (arith, found) in
      (old, ap (find_row test) kept ∙ found, inr (ground (arith, found)))
]

-- A row that is found is found after an insertion.
pub insert_exact_keeps :
    {R : Type 0} (query test same : R → Bool) (row old : R) (rows rows' : List R)
    → insert_exact true test test same row rows ≡ done rows'
    → find_row query rows ≡ some old
    → find_row query rows' ≡ some old
unfolding insert_exact
insert_exact_keeps query test same row old rows rows' h there =
    elim (Option-cases (find_row test rows)) [
      | inl new ↦
          let grown : rows' ≡ rows ++ row ∷ [] = ground (arith, new) in
          ap (find_row query) grown ∙ find_row-append_found query rows row old there
      | inr (other, found) ↦
          let kept : rows' ≡ rows = ground (arith, found) in ap (find_row query) kept ∙ there
    ]
