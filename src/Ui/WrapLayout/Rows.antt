-- ===== src/Ui/WrapLayout/Rows.antt =====
-- The rows hold the whole buffer.
use mathlib.Core.List.{flatten}
use simple_coder.Prelude.{
  Bool, Bool-cases, Bytes, List, [], ap, append-nil, append_assoc, arith, drop, drop-length_le,
  drop-sum, false, if◌then◌else◌, inl, inr, leb, length, length-drop, length-take, ltb, ltb→lt,
  lt→ltb, max, not, refl, suc, sym, take, take-sum, true, zero, ℕ, ◌&&◌, ◌++◌, ◌+◌, ◌-◌, ◌<◌, ◌==◌,
  ◌||◌, ◌∙◌, ◌∷◌, ◌≡◌, ◌≤◌,
}
use simple_coder.Util.Utf8.{next_boundary}
use simple_coder.Util.Utf8.Boundary.{boundary_progress}
use simple_coder.Ui.InputBar.Cursor.{line_end-le}
use simple_coder.Ui.InputBar.{InputBar, line_end, until_newline}
use simple_coder.Ui.WrapLayout.{
  cols_from, bytes_for_cols, slice, Layout, prompt_of, budget, chunk_end, claim, add_row, wrap_line,
  wrap_lines, no_rows, pin, wrap_layout, no_rows,
}

-- The loop stays inside the text, and moves on where text is left.
cols_from-le :
    (s : Bytes) (cols i : ℕ)
    → i ≤ length s
    → (i ≤ cols_from s cols i) × (cols_from s cols i ≤ length s)
unfolding cols_from
cols_from-le s zero i h = (omega arith, h)
cols_from-le s (suc cols) i h = elim (Bool-cases (ltb i (length s))) [
  | inl e ↦
      let (_, _, forward, inside) = boundary_progress s i h in
      let (up, low) = cols_from-le s cols (next_boundary s i) inside in
      rw e (omega (arith, up, forward (ltb→lt i (length s) e)), low)
  | inr e ↦ rw e (omega arith, h)
]

bytes_for_cols-le : (s : Bytes) (cols : ℕ) → bytes_for_cols s cols ≤ length s
unfolding bytes_for_cols
bytes_for_cols-le s cols = (cols_from-le s cols 0 (omega arith)).1

bytes_for_cols-positive : (s : Bytes) (cols : ℕ) → 0 < length s → 0 < bytes_for_cols s (suc cols)
unfolding bytes_for_cols cols_from
bytes_for_cols-positive s cols h =
    let (_, _, forward, inside) = boundary_progress s 0 (omega arith) in
    let e : ltb 0 (length s) ≡ true = lt→ltb 0 (length s) h in
    rw e (omega (arith, forward h, (cols_from-le s cols (next_boundary s 0) inside).0))

budget-positive : (w col0 : ℕ) → (n : ℕ) × (budget w col0 ≡ suc n)
unfolding budget
budget-positive w col0 = (max 1 (w - 1 - col0) - 1, omega arith)

length-slice : (s : Bytes) (p q : ℕ) → q ≤ length s → length (slice s p q) ≡ q - p
length-slice s p q h = omega (arith, length-take (q - p) (drop p s), length-drop p s)

slice-join : (s : Bytes) (p q r : ℕ) → p ≤ q → q ≤ r → slice s p q ++ slice s q r ≡ slice s p r
slice-join s p q r h k =
    let e : p + (q - p) ≡ q = omega arith in
    let f : (q - p) + (r - q) ≡ r - p = omega arith in
    ap (λ (t : Bytes). take (q - p) (drop p s) ++ take (r - q) t)
      (ap (λ (n : ℕ). drop n s) (sym e) ∙ sym (drop-sum p (q - p) s))
    ∙ take-sum (q - p) (r - q) (drop p s)
    ∙ ap (λ (n : ℕ). take n (drop p s)) f

flatten-snoc : (rows : List Bytes) (r : Bytes) → flatten (rows ++ r ∷ []) ≡ flatten rows ++ r
unfolding flatten
flatten-snoc [] r = append-nil r
flatten-snoc (x ∷ rows) r =
    ap (◌++◌ x) (flatten-snoc rows r) ∙ sym (append_assoc x (flatten rows) r)

-- A text without its newlines.
pub visible : Bytes → Bytes
visible [] = []
visible (c ∷ s) = if c == b'\n' then visible s else c ∷ visible s

visible-split :
    (s : Bytes) → visible s ≡ take (until_newline s) s ++ visible (drop (suc (until_newline s)) s)
unfolding visible until_newline
visible-split [] = refl
visible-split (c ∷ s) = elim (Bool-cases (c == b'\n')) [
  | inl e ↦ rw e refl
  | inr e ↦ rw e (ap (◌∷◌ c) (visible-split s))
]

last_line : (s : Bytes) → length s ≤ until_newline s → visible s ≡ take (until_newline s) s
unfolding visible
last_line s h =
    visible-split s
    ∙ ap (λ (t : Bytes). take (until_newline s) s ++ visible t)
        (drop-length_le (suc (until_newline s)) s (omega arith))
    ∙ append-nil _

later_lines :
    (s : Bytes) (gstart gend : ℕ)
    → gend ≡ gstart + until_newline (drop gstart s)
    → visible (drop gstart s)
      ≡ take (until_newline (drop gstart s)) (drop gstart s) ++ visible (drop (gend + 1) s)
later_lines s gstart gend at =
    let u = until_newline (drop gstart s) in
    let e : gstart + suc u ≡ gend + 1 = omega (arith, at) in
    visible-split (drop gstart s)
    ∙ ap (λ (t : Bytes). take u (drop gstart s) ++ visible t)
        (drop-sum gstart (suc u) s ∙ ap (λ (n : ℕ). drop n s) e)

module _ (bar : InputBar) (w prompt_cols : ℕ) where
  chunk_end-bounds :
      (col0 p gend : ℕ)
      → p ≤ gend
      → gend ≤ length bar.buffer
      → (chunk_end bar w prompt_cols col0 p gend ≤ gend)
        × (p ≤ chunk_end bar w prompt_cols col0 p gend)
        × (p < gend → p < chunk_end bar w prompt_cols col0 p gend)
  unfolding chunk_end
  chunk_end-bounds col0 p gend h k =
      let (n, e) = budget-positive w col0 in
      let size = length-slice bar.buffer p gend k in
      (
        omega (arith, size, bytes_for_cols-le (slice bar.buffer p gend) (budget w col0)),
        omega arith,
        λ lt. rw e (
            omega
              (arith, bytes_for_cols-positive (slice bar.buffer p gend) n (omega (arith, size)))),
      )

  claim-rows :
      (col0 p stop gend : ℕ) (out : Layout)
      → (claim bar w prompt_cols col0 p stop gend out).rows ≡ out.rows
  unfolding claim
  claim-rows col0 p stop gend out =
      elim (Bool-cases (
        not out.cursor_set
        && leb p bar.cursor
        && leb bar.cursor stop
        && (ltb bar.cursor stop || stop == gend))) [ inl e ↦ rw e refl | inr e ↦ rw e refl ]

  added_rows :
      (col0 p stop gend : ℕ) (out : Layout)
      → flatten
          (add_row bar w prompt_cols p stop (claim bar w prompt_cols col0 p stop gend out)).rows
        ≡ flatten out.rows ++ slice bar.buffer p stop
  unfolding add_row
  added_rows col0 p stop gend out =
      flatten-snoc _ (slice bar.buffer p stop)
      ∙ ap (λ (r : List Bytes). flatten r ++ slice bar.buffer p stop)
          (claim-rows col0 p stop gend out)

  wrap_line-rows :
      (fuel : ℕ) (first_logical first_visual : Bool) (p gend : ℕ) (out : Layout)
      → p ≤ gend
      → gend ≤ length bar.buffer
      → gend - p < fuel
      → flatten (wrap_line bar w prompt_cols fuel first_logical first_visual p gend out).rows
        ≡ flatten out.rows ++ slice bar.buffer p gend
  unfolding wrap_line
  wrap_line-rows zero fl fv p gend out h k enough = absurd (omega arith)
  wrap_line-rows (suc fuel) fl fv p gend out h k enough =
      let col0 = prompt_of fl fv prompt_cols in
      let stop = chunk_end bar w prompt_cols col0 p gend in
      let (low, up, moves) = chunk_end-bounds col0 p gend h k in
      let out' = add_row bar w prompt_cols p stop (claim bar w prompt_cols col0 p stop gend out) in
      elim (Bool-cases (ltb stop gend)) [
        | inl e ↦ rw e (
            wrap_line-rows fuel fl false stop gend out' low k
              (omega (arith, ltb→lt stop gend e, moves (omega (arith, ltb→lt stop gend e))))
            ∙ ap (λ (t : Bytes). t ++ slice bar.buffer stop gend) (added_rows col0 p stop gend out)
            ∙ append_assoc (flatten out.rows) (slice bar.buffer p stop) (slice bar.buffer stop gend)
            ∙ ap (◌++◌ (flatten out.rows)) (slice-join bar.buffer p stop gend up low))
        | inr e ↦
            let same : stop ≡ gend = ground (arith, e, low) in
            rw e (
              added_rows col0 p stop gend out
              ∙ ap (λ (q : ℕ). flatten out.rows ++ slice bar.buffer p q) same)
      ]

  wrap_lines-rows :
      (fuel : ℕ) (first_logical : Bool) (gstart : ℕ) (out : Layout)
      → gstart ≤ length bar.buffer
      → length bar.buffer - gstart < fuel
      → flatten (wrap_lines bar w prompt_cols fuel first_logical gstart out).rows
        ≡ flatten out.rows ++ visible (drop gstart bar.buffer)
  unfolding wrap_lines line_end
  wrap_lines-rows zero fl gstart out h enough = absurd (omega arith)
  wrap_lines-rows (suc fuel) fl gstart out h enough =
      let s = bar.buffer in
      let u = until_newline (drop gstart s) in
      let gend = line_end s gstart in
      let start_in : ltb (length s) gstart ≡ false = ground arith in
      let at : gend ≡ gstart + u = rw start_in refl in
      let out' = wrap_line bar w prompt_cols (suc (gend - gstart)) fl true gstart gend out in
      let line =
        wrap_line-rows (suc (gend - gstart)) fl true gstart gend out (omega (arith, at))
          (line_end-le s gstart) (omega arith) in
      let size : gend - gstart ≡ u = omega (arith, at) in
      let row : slice s gstart gend ≡ take u (drop gstart s) =
        ap (λ (n : ℕ). take n (drop gstart s)) size in
      elim (Bool-cases (gend == length s)) [
        | inl e ↦ rw e (
            line
            ∙ ap (◌++◌ (flatten out.rows)) (
                row
                ∙ sym (last_line (drop gstart s) (ground (arith, e, at, length-drop gstart s)))))
        | inr e ↦
            let below : gend < length s = ground (arith, e, line_end-le s gstart) in
            rw e (
              wrap_lines-rows fuel false (gend + 1) out' (omega arith) (omega (arith, at))
              ∙ ap (λ (t : Bytes). t ++ visible (drop (gend + 1) s)) line
              ∙ append_assoc (flatten out.rows) (slice s gstart gend) (visible (drop (gend + 1) s))
              ∙ ap (◌++◌ (flatten out.rows)) (
                  ap (λ (t : Bytes). t ++ visible (drop (gend + 1) s)) row
                  ∙ sym (later_lines s gstart gend at)))
      ]

  pin-rows : (out : Layout) → (pin bar w prompt_cols out).rows ≡ out.rows
  unfolding pin
  pin-rows out = elim (Bool-cases out.cursor_set) [ inl e ↦ rw e refl | inr e ↦ rw e refl ]

-- The visual rows, one after the other, are the buffer without its newlines: whatever the width, no
-- character is lost, repeated or moved by the wrapping. The fuel of both loops is enough.
pub wrap_layout-rows :
    (width prompt_cols : ℕ) (bar : InputBar)
    → flatten (wrap_layout width prompt_cols bar).rows ≡ visible bar.buffer
unfolding wrap_layout flatten
wrap_layout-rows width prompt_cols bar =
    let laid = wrap_lines bar (max 1 width) prompt_cols (suc (length bar.buffer)) true 0 no_rows in
    ap (flatten {A = ℕ}) (pin-rows bar width prompt_cols laid)
    ∙ wrap_lines-rows bar (max 1 width) prompt_cols (suc (length bar.buffer)) true 0 no_rows
        (omega arith) (omega arith)
