-- ===== src/Util/Diff.antt =====
-- src/util/Diff.cpp: `unified_diff`, the preview of an edit. `int` counts stay below `max_lines`.
pub mod Ops
pub mod Lcs
pub mod Preview
use simple_coder.Prelude.{
  Bool, Bytes, List, [], bytes_eq, codes, drop, false, get_or, if◌then◌else◌, leb, length, ltb, max,
  min, not, replicate, set, suc, to_string, true, zero, ℕ, ◌&&◌, ◌++◌, ◌+◌, ◌-◌, ◌==◌, ◌||◌, ◌∷◌,
}

-- `if (!cur.empty()) out.push_back(cur);`
unfinished : Bytes → List Bytes
unfinished [] = []
unfinished (c ∷ s) = (c ∷ s) ∷ []

-- The loop of `split_lines`, with `cur`.
split_from : Bytes → Bytes → List Bytes
unfolding unfinished
split_from cur [] = unfinished cur
split_from cur (c ∷ s) = elim (c == b'\n') [
  | true ↦ cur ∷ split_from [] s
  | false ↦ split_from (cur ++ c ∷ []) s
]

unfoldable pub split_lines : Bytes → List Bytes
unfolding split_from
split_lines s = split_from [] s

pub data Kind : Type 0 where
  equal del add : Kind

pub record Op : Type 0 where
  pub kind : Kind
  pub text : Bytes

-- `dp[i]` from `dp[i + 1]`, from the last column to the first.
dp_row : Bytes → List Bytes → List ℕ → List ℕ
dp_row x [] below = 0 ∷ []
dp_row x (y ∷ ys) below =
    let right = dp_row x ys (drop 1 below) in
    (if bytes_eq x y then get_or below 1 0 + 1 else max (get_or below 0 0) (get_or right 0 0))
    ∷ right

-- `dp[i]`, `dp[i + 1]`, … for the lines `a[i..]`.
dp_table : List Bytes → List Bytes → List (List ℕ)
unfolding dp_row
dp_table [] b = replicate (length b + 1) 0 ∷ []
dp_table (x ∷ xs) b = let rest = dp_table xs b in dp_row x b (get_or rest 0 []) ∷ rest

abbrev op : Kind → Bytes → Op
op k s = record { kind = k; text = s }

-- The three loops at the end of `lcs_ops`, on the lines that are left. The table holds the rows from
-- `i` on, and `j` is the column.
backtrack : List Bytes → List Bytes → List (List ℕ) → ℕ → List Op
backtrack [] [] dp j = []
backtrack [] (y ∷ ys) dp j = op add y ∷ backtrack [] ys dp (j + 1)
backtrack (x ∷ xs) [] dp j = op del x ∷ backtrack xs [] (drop 1 dp) j
backtrack (x ∷ xs) (y ∷ ys) dp j = elim (bytes_eq x y) [
  | true ↦ op equal x ∷ backtrack xs ys (drop 1 dp) (j + 1)
  | false ↦ elim (leb (get_or (get_or dp 0 []) (j + 1) 0) (get_or (get_or dp 1 []) j 0)) [
    | true ↦ op del x ∷ backtrack xs (y ∷ ys) (drop 1 dp) j
    | false ↦ op add y ∷ backtrack (x ∷ xs) ys dp (j + 1)
  ]
]

unfoldable pub lcs_ops : List Bytes → List Bytes → List Op
unfolding backtrack dp_table bytes_eq
lcs_ops a b = backtrack a b (dp_table a b) 0

abbrev is_equal : Kind → Bool
is_equal equal = true
is_equal _ = false

-- `for (k = first; …) keep[k] = true`, with the rounds that are left.
mark : ℕ → ℕ → List Bool → List Bool
mark zero k keep = keep
mark (suc rounds) k keep = mark rounds (k + 1) (set keep k true)

-- The loop that fills `keep`, over the operations from `i` on.
mark_changes : ℕ → ℕ → ℕ → List Op → List Bool → List Bool
unfolding mark
mark_changes n context i [] keep = keep
mark_changes n context i (o ∷ ops) keep =
    let first = i - context in
    let last = min (n - 1) (i + context) in
    mark_changes n context (i + 1) ops
      (if is_equal o.kind then keep else mark (last + 1 - first) first keep)

abbrev marker : Kind → ℕ
marker equal = b' '
marker del = b'-'
marker add = b'+'

-- The loop that prints, with `in_gap` and `wrote_any`.
print_from : List Op → List Bool → Bool → Bool → Bytes
print_from [] keep in_gap wrote_any = []
print_from (o ∷ ops) keep in_gap wrote_any = elim (is_equal o.kind && not (get_or keep 0 false)) [
  | true ↦ print_from ops (drop 1 keep) true wrote_any
  | false ↦
      (if in_gap && wrote_any then codes "@@\n" else [])
      ++ marker o.kind ∷ (o.text ++ b'\n' ∷ print_from ops (drop 1 keep) false true)
]

-- The UTF-8 bytes of `→`.
abbrev arrow : Bytes
arrow = 0xE2 ∷ 0x86 ∷ 0x92 ∷ []

unfoldable pub unified_diff : Bytes → Bytes → ℕ → ℕ → Bytes
unfolding split_lines lcs_ops mark_changes print_from to_string
unified_diff old_text new_text context max_lines =
    if bytes_eq old_text new_text
    then []
    else let a = split_lines old_text in
      let b = split_lines new_text in
      if ltb max_lines (length a) || ltb max_lines (length b)
      then codes "("
        ++ to_string (length a)
        ++ codes " lines "
        ++ arrow
        ++ codes " "
        ++ to_string (length b)
        ++ codes " lines; diff too large to preview)"
      else let ops = lcs_ops a b in
        let n = length ops in
        let keep = mark_changes n context 0 ops (replicate n false) in
        print_from ops keep false false
