-- ===== src/Util/Diff/Ops.antt =====
-- The operations of `lcs_ops` turn the old lines into the new ones.
use simple_coder.Prelude.{Bytes, List, [], arith, bytes_eq_iff, drop, refl, ℕ, ◌+◌, ◌∷◌, ◌≡◌}
use simple_coder.Util.Diff.{Kind, del, add, Op, backtrack, lcs_ops}

-- What a kind of operation leaves of its line in the old text, and in the new one.
abbrev in_old : Kind → Bytes → List Bytes → List Bytes
in_old add s rest = rest
in_old _ s rest = s ∷ rest

abbrev in_new : Kind → Bytes → List Bytes → List Bytes
in_new del s rest = rest
in_new _ s rest = s ∷ rest

unfoldable pub old_side : List Op → List Bytes
old_side [] = []
old_side (o ∷ ops) = in_old o.kind o.text (old_side ops)

unfoldable pub new_side : List Op → List Bytes
new_side [] = []
new_side (o ∷ ops) = in_new o.kind o.text (new_side ops)

backtrack-sides :
    (a b : List Bytes) (dp : List (List ℕ)) (j : ℕ)
    → (old_side (backtrack a b dp j) ≡ a) × (new_side (backtrack a b dp j) ≡ b)
unfolding backtrack old_side new_side
backtrack-sides [] [] dp j = (refl, refl)
backtrack-sides [] (y ∷ ys) dp j = ground (arith, backtrack-sides [] ys dp (j + 1))
backtrack-sides (x ∷ xs) [] dp j = ground (arith, backtrack-sides xs [] (drop 1 dp) j)
backtrack-sides (x ∷ xs) (y ∷ ys) dp j = ground (
  arith,
  bytes_eq_iff x y,
  backtrack-sides xs ys (drop 1 dp) (j + 1),
  backtrack-sides xs (y ∷ ys) (drop 1 dp) j,
  backtrack-sides (x ∷ xs) ys dp (j + 1),
)

-- The kept and removed lines are the old text, and the kept and added lines the new one, in order.
pub lcs_ops-sides : (a b : List Bytes) → (old_side (lcs_ops a b) ≡ a) × (new_side (lcs_ops a b) ≡ b)
unfolding lcs_ops
lcs_ops-sides a b = backtrack-sides a b _ 0
