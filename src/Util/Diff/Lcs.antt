-- ===== src/Util/Diff/Lcs.antt =====
-- The table of `lcs_ops` holds the lengths of longest common subsequences, and the walk through it
-- keeps as many lines as any common subsequence has.
use simple_coder.Prelude.{
  Bytes, List, [], ap, append_assoc, arith, bytes_eq, bytes_eq_iff, false, get_or, if◌then◌else◌,
  length, length-append, max, refl, replicate, suc, sym, true, ℕ, ◌++◌, ◌+◌, ◌∙◌, ◌∷◌, ◌≡◌, ◌≤◌,
}
use simple_coder.Util.Diff.{Op, is_equal, dp_row, dp_table, backtrack, lcs_ops}

-- A common subsequence of two lists of lines, with its length.
pub data Common : List Bytes → List Bytes → ℕ → Type 0 where
  none_left : {a b : List Bytes} → Common a b 0
  both :
      {x y : Bytes} {a b : List Bytes} {n : ℕ}
      → x ≡ y
      → Common a b n
      → Common (x ∷ a) (y ∷ b) (suc n)
  skip_old : {x : Bytes} {a b : List Bytes} {n : ℕ} → Common a b n → Common (x ∷ a) b n
  skip_new : {y : Bytes} {a b : List Bytes} {n : ℕ} → Common a b n → Common a (y ∷ b) n

lcs : List Bytes → List Bytes → ℕ
lcs [] b = 0
lcs (x ∷ xs) [] = 0
lcs (x ∷ xs) (y ∷ ys) = elim (bytes_eq x y) [
  | true ↦ lcs xs ys + 1
  | false ↦ max (lcs xs (y ∷ ys)) (lcs (x ∷ xs) ys)
]

lcs-nil : (a : List Bytes) → lcs a [] ≡ 0
unfolding lcs
lcs-nil [] = refl
lcs-nil (x ∷ xs) = refl

-- One more line on a side adds at most one, and takes nothing away.
mono_old_of :
    (x : Bytes) (xs b : List Bytes)
    → ((y : Bytes) (ys : List Bytes) → lcs xs (y ∷ ys) ≤ lcs xs ys + 1)
    → lcs xs b ≤ lcs (x ∷ xs) b
unfolding lcs
mono_old_of x xs [] g = omega (arith, lcs-nil xs)
mono_old_of x xs (y ∷ ys) g = ground (arith, g y ys)

grow_new : (a : List Bytes) (y : Bytes) (ys : List Bytes) → lcs a (y ∷ ys) ≤ lcs a ys + 1
unfolding lcs
grow_new [] y ys = omega arith
grow_new (x ∷ xs) y ys = ground (arith, grow_new xs y ys, mono_old_of x xs ys (grow_new xs))

mono_new_of :
    (y : Bytes) (ys a : List Bytes)
    → ((x : Bytes) (xs : List Bytes) → lcs (x ∷ xs) ys ≤ lcs xs ys + 1)
    → lcs a ys ≤ lcs a (y ∷ ys)
unfolding lcs
mono_new_of y ys [] g = omega arith
mono_new_of y ys (x ∷ xs) g = ground (arith, g x xs)

grow_old : (b : List Bytes) (x : Bytes) (xs : List Bytes) → lcs (x ∷ xs) b ≤ lcs xs b + 1
unfolding lcs
grow_old [] x xs = omega arith
grow_old (y ∷ ys) x xs = ground (arith, grow_old ys x xs, mono_new_of y ys xs (grow_old ys))

both-le :
    (x y : Bytes) (a b : List Bytes) {n : ℕ} → x ≡ y → n ≤ lcs a b → suc n ≤ lcs (x ∷ a) (y ∷ b)
unfolding lcs
both-le x y a b e h = ground (arith, (bytes_eq_iff x y).1 e)

Common-le : {a b : List Bytes} {n : ℕ} → Common a b n → n ≤ lcs a b
Common-le none_left = omega arith
Common-le (both {x} {y} {a} {b} e c) = both-le x y a b e (Common-le c)
Common-le (skip_old {x} {a} {b} c) = omega (arith, Common-le c, mono_old_of x a b (grow_new a))
Common-le (skip_new {y} {a} {b} c) = omega (arith, Common-le c, mono_new_of y b a (grow_old b))

-- The row of the table for the old lines `a`, and the rows for all their ends.
row : List Bytes → List Bytes → List ℕ
row a [] = lcs a [] ∷ []
row a (y ∷ ys) = lcs a (y ∷ ys) ∷ row a ys

rows : List Bytes → List Bytes → List (List ℕ)
rows [] b = row [] b ∷ []
rows (x ∷ xs) b = row (x ∷ xs) b ∷ rows xs b

row_head : (a b : List Bytes) → get_or (row a b) 0 0 ≡ lcs a b
unfolding row
row_head a [] = refl
row_head a (y ∷ ys) = refl

rows_head : (a b : List Bytes) → get_or (rows a b) 0 [] ≡ row a b
unfolding rows
rows_head [] b = refl
rows_head (x ∷ xs) b = refl

dp_row-row : (x : Bytes) (xs b : List Bytes) → dp_row x b (row xs b) ≡ row (x ∷ xs) b
unfolding dp_row row lcs
dp_row-row x xs [] = refl
dp_row-row x xs (y ∷ ys) =
    rw (dp_row-row x xs ys)
      (ap (λ (t : ℕ). t ∷ row (x ∷ xs) ys) (ground (arith, row_head xs ys, row_head (x ∷ xs) ys)))

row-nil : (b : List Bytes) → replicate (length b + 1) 0 ≡ row [] b
unfolding row lcs
row-nil [] = refl
row-nil (y ∷ ys) =
    let e : suc (length ys) + 1 ≡ suc (length ys + 1) = omega arith in
    rw e (ap (◌∷◌ 0) (row-nil ys))

dp_table-rows : (a b : List Bytes) → dp_table a b ≡ rows a b
unfolding dp_table rows
dp_table-rows [] b = ap (λ (t : List ℕ). t ∷ []) (row-nil b)
dp_table-rows (x ∷ xs) b = rw (dp_table-rows xs b, rows_head xs b, dp_row-row x xs b)

row-append : (a pre b : List Bytes) → get_or (row a (pre ++ b)) (length pre) 0 ≡ lcs a b
unfolding row
row-append a [] b = row_head a b
row-append a (p ∷ pre) b = row-append a pre b

row-append_next :
    (a pre : List Bytes) (y : Bytes) (ys : List Bytes)
    → get_or (row a (pre ++ y ∷ ys)) (length pre + 1) 0 ≡ lcs a ys
unfolding row
row-append_next a [] y ys = row_head a ys
row-append_next a (p ∷ pre) y ys =
    let e : suc (length pre) + 1 ≡ suc (length pre + 1) = omega arith in
    rw e (row-append_next a pre y ys)

unfoldable pub equal_count : List Op → ℕ
equal_count [] = 0
equal_count (o ∷ ops) = (if is_equal o.kind then 1 else 0) + equal_count ops

-- The place before `ys` in the whole list of new lines.
record At (full pre b : List Bytes) (j : ℕ) : Type 0 where
  whole : full ≡ pre ++ b
  column : j ≡ length pre

advance :
    (full pre : List Bytes) (y : Bytes) (ys : List Bytes) (j : ℕ)
    → At full pre (y ∷ ys) j
    → At full (pre ++ y ∷ []) ys (j + 1)
advance full pre y ys j at = record {
  whole = at.whole ∙ sym (append_assoc pre (y ∷ []) ys);
  column = omega (arith, at.column, length-append pre (y ∷ []));
}

-- The two entries that a step of the walk compares.
module _ (x y : Bytes) (xs ys full pre : List Bytes) (j : ℕ) (at : At full pre (y ∷ ys) j) where
  entry_below : get_or (get_or (rows (x ∷ xs) full) 1 []) j 0 ≡ lcs xs (y ∷ ys)
  unfolding rows
  entry_below = rw (at.whole, at.column) (rw rows_head (row-append xs pre (y ∷ ys)))

  entry_right : get_or (get_or (rows (x ∷ xs) full) 0 []) (j + 1) 0 ≡ lcs (x ∷ xs) ys
  unfolding rows
  entry_right = rw (at.whole, at.column) (row-append_next (x ∷ xs) pre y ys)

-- From any place of the walk on, as many lines are kept as the entry at that place says.
equal_count-backtrack :
    (a b full pre : List Bytes) (j : ℕ)
    → At full pre b j
    → equal_count (backtrack a b (rows a full) j) ≡ lcs a b
unfolding backtrack equal_count lcs rows
equal_count-backtrack [] [] full pre j at = refl
equal_count-backtrack [] (y ∷ ys) full pre j at =
    omega (arith, equal_count-backtrack [] ys full _ (j + 1) (advance full pre y ys j at))
equal_count-backtrack (x ∷ xs) [] full pre j at =
    omega (arith, equal_count-backtrack xs [] full pre j at, lcs-nil xs)
equal_count-backtrack (x ∷ xs) (y ∷ ys) full pre j at =
    let next = advance full pre y ys j at in
    ground (
      arith,
      entry_below x y xs ys full pre j at,
      entry_right x y xs ys full pre j at,
      equal_count-backtrack xs ys full (pre ++ y ∷ []) (j + 1) next,
      equal_count-backtrack xs (y ∷ ys) full pre j at,
      equal_count-backtrack (x ∷ xs) ys full (pre ++ y ∷ []) (j + 1) next,
    )

-- The diff is minimal: `lcs_ops` keeps at least as many lines as any common subsequence of the old
-- and the new lines holds.
pub lcs_ops-Common : (a b : List Bytes) {n : ℕ} → Common a b n → n ≤ equal_count (lcs_ops a b)
unfolding lcs_ops
lcs_ops-Common a b c =
    rw
      (dp_table-rows a b, equal_count-backtrack a b b [] 0 (record { whole = refl; column = refl }))
      (Common-le c)
