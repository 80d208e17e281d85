-- ===== src/Util/Diff/Preview.antt =====
-- When the preview is empty.
use simple_coder.Prelude.{
  All, Bool, Bool-cases, Bytes, List, [], ap, arith, bytes_eq, bytes_eq_cases, bytes_eq_self, drop,
  false, get_or, inl, inr, length, ltb, not, refl, replicate, sym, true, ℕ, ◌&&◌, ◌++◌, ◌+◌, ◌↔◌,
  ◌∙◌, ◌∷◌, ◌≡◌, ◌≢◌, ◌≤◌,
}
use simple_coder.Util.Diff.Ops.{old_side, new_side, lcs_ops-sides}
use simple_coder.Util.Diff.{
  Op, is_equal, backtrack, mark_changes, print_from, split_lines, lcs_ops, unified_diff,
}

-- Operations that all keep their line.
abbrev AllEqual : List Op → Type 0
AllEqual = All (λ o. is_equal o.kind ≡ true)

AllEqual-sides : (ops : List Op) → AllEqual ops → old_side ops ≡ new_side ops
unfolding old_side new_side
AllEqual-sides [] h = refl
AllEqual-sides (o ∷ ops) (h, hs) = ground (arith, AllEqual-sides ops hs)

append-cons-ne-nil : (xs ys : Bytes) (y : ℕ) → xs ++ y ∷ ys ≢ []
append-cons-ne-nil [] ys y h = cc
append-cons-ne-nil (x ∷ xs) ys y h = cc

and-not-true : (a b : Bool) → (a && not b) ≡ true → a ≡ true
and-not-true a b h = ground arith

-- Printing nothing means that there was no change.
print_from-nil :
    (ops : List Op) (keep : List Bool) (in_gap wrote_any : Bool)
    → print_from ops keep in_gap wrote_any ≡ []
    → AllEqual ops
unfolding print_from
print_from-nil [] keep in_gap wrote_any h = tt
print_from-nil (o ∷ ops) keep in_gap wrote_any h =
    elim (Bool-cases (is_equal o.kind && not (get_or keep 0 false))) [
      | inl e ↦ (
        and-not-true _ (get_or keep 0 false) e,
        print_from-nil ops (drop 1 keep) true wrote_any (rw (e, print_from) at h),
      )
      | inr e ↦ absurd (append-cons-ne-nil _ _ _ (rw (e, print_from) at h))
    ]

print_from-AllEqual :
    (ops : List Op) (in_gap wrote_any : Bool)
    → AllEqual ops
    → print_from ops (replicate (length ops) false) in_gap wrote_any ≡ []
unfolding print_from
print_from-AllEqual [] in_gap wrote_any h = refl
print_from-AllEqual (o ∷ ops) in_gap wrote_any (h, hs) =
    rw (h, print_from) (print_from-AllEqual ops true wrote_any hs)

mark_changes-AllEqual :
    (n context i : ℕ) (ops : List Op) (keep : List Bool)
    → AllEqual ops
    → mark_changes n context i ops keep ≡ keep
unfolding mark_changes
mark_changes-AllEqual n context i [] keep h = refl
mark_changes-AllEqual n context i (o ∷ ops) keep (h, hs) =
    rw h (mark_changes-AllEqual n context (i + 1) ops keep hs)

backtrack_same : (a : List Bytes) (dp : List (List ℕ)) (j : ℕ) → AllEqual (backtrack a a dp j)
unfolding backtrack
backtrack_same [] dp j = tt
backtrack_same (x ∷ xs) dp j =
    rw (bytes_eq_self x, backtrack) (refl, backtrack_same xs (drop 1 dp) (j + 1))

lcs_ops_same : (a : List Bytes) → AllEqual (lcs_ops a a)
unfolding lcs_ops
lcs_ops_same a = backtrack_same a _ 0

-- The preview of two different texts below the limit.
preview : Bytes → Bytes → ℕ → Bytes
preview old_text new_text context =
    let ops = lcs_ops (split_lines old_text) (split_lines new_text) in
    let n = length ops in
    print_from ops (mark_changes n context 0 ops (replicate n false)) false false

not_ltb : (a b : ℕ) → a ≤ b → ltb b a ≡ false
not_ltb a b h = ground arith

unified_diff_small :
    (old_text new_text : Bytes) (context max_lines : ℕ)
    → length (split_lines old_text) ≤ max_lines
    → length (split_lines new_text) ≤ max_lines
    → bytes_eq old_text new_text ≡ false
    → unified_diff old_text new_text context max_lines ≡ preview old_text new_text context
unfolding unified_diff preview
unified_diff_small old_text new_text context max_lines h k e =
    rw (e, not_ltb _ _ h, not_ltb _ _ k) refl

preview-nil_iff :
    (old_text new_text : Bytes) (context : ℕ)
    → (preview old_text new_text context ≡ []) ↔ (split_lines old_text ≡ split_lines new_text)
unfolding preview
preview-nil_iff old_text new_text context = (
  λ p.
      let a = split_lines old_text in
      let b = split_lines new_text in
      let sides = lcs_ops-sides a b in
      let same = AllEqual-sides (lcs_ops a b) (print_from-nil (lcs_ops a b) _ false false p) in
      sym sides.0 ∙ same ∙ sides.1,
  λ e. rw e (
      let b = split_lines new_text in
      let ops = lcs_ops b b in
      let all_equal = lcs_ops_same b in
      rw (mark_changes-AllEqual (length ops) context 0 ops (replicate (length ops) false) all_equal)
        (print_from-AllEqual ops false false all_equal)),
)

-- Below the line limit, the preview is empty exactly when the two texts have the same lines, and so
-- also where they differ in a newline at the end, although the comment of `Diff.hpp` says
-- "identical".
pub unified_diff-nil_iff :
    (old_text new_text : Bytes) (context max_lines : ℕ)
    → length (split_lines old_text) ≤ max_lines
    → length (split_lines new_text) ≤ max_lines
    → (unified_diff old_text new_text context max_lines ≡ [])
      ↔ (split_lines old_text ≡ split_lines new_text)
unified_diff-nil_iff old_text new_text context max_lines h k =
    elim (bytes_eq_cases old_text new_text) [
      | inl (same, e) ↦ (λ _. ap split_lines e, λ _. unfold unified_diff in rw same)
      | inr (e, _) ↦
          rw (unified_diff_small old_text new_text context max_lines h k e)
            (preview-nil_iff old_text new_text context)
    ]
