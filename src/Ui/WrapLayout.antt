-- ===== src/Ui/WrapLayout.antt =====
-- `wrap_layout` of src/ui/InputBar.cpp: the buffer as visual rows. The two loops go on while text is
-- left; they recur on fuel, and the number of bytes that are left is enough of it.
pub mod Rows
use simple_coder.Prelude.{
  Bool, Bytes, List, [], drop, false, if◌then◌else◌, leb, length, ltb, max, not, suc, take, true,
  zero, ℕ, ◌&&◌, ◌++◌, ◌+◌, ◌-◌, ◌==◌, ◌||◌, ◌∷◌,
}
use simple_coder.Util.Utf8.{next_boundary, count}
use simple_coder.Ui.InputBar.{InputBar, line_end}

-- The loop of `bytes_for_cols` from byte `i` on.
cols_from : Bytes → ℕ → ℕ → ℕ
cols_from s zero i = i
cols_from s (suc cols) i =
    let more = cols_from s cols (next_boundary s i) in if ltb i (length s) then more else i

bytes_for_cols : Bytes → ℕ → ℕ
unfolding cols_from
bytes_for_cols s max_cols = cols_from s max_cols 0

-- The bytes from `p` up to `q`.
abbrev pub slice : Bytes → ℕ → ℕ → Bytes
slice s p q = take (q - p) (drop p s)

pub record Layout : Type 0 where
  pub rows : List Bytes
  pub cursor_row : ℕ
  pub cursor_col : ℕ
  pub cursor_set : Bool

abbrev no_rows : Layout
no_rows = record { rows = []; cursor_row = 0; cursor_col = 0; cursor_set = false }

-- The columns of the prompt, which only the very first row gives up.
prompt_of : Bool → Bool → ℕ → ℕ
prompt_of first_logical first_visual prompt_cols =
    if first_logical && first_visual then prompt_cols else 0

budget : ℕ → ℕ → ℕ
budget w col0 = max 1 (w - 1 - col0)

module _ (bar : InputBar) (w prompt_cols : ℕ) where
  chunk_end : ℕ → ℕ → ℕ → ℕ
  unfolding bytes_for_cols budget
  chunk_end col0 p gend = p + bytes_for_cols (slice bar.buffer p gend) (budget w col0)

  -- The cursor is claimed where it falls inside the chunk.
  claim : ℕ → ℕ → ℕ → ℕ → Layout → Layout
  claim col0 p stop gend out =
      if not out.cursor_set
        && leb p bar.cursor
        && leb bar.cursor stop
        && (ltb bar.cursor stop || stop == gend)
      then record out {
        cursor_row = length out.rows;
        cursor_col = col0 + count (take (bar.cursor - p) (drop p bar.buffer));
        cursor_set = true;
      }
      else out

  add_row : ℕ → ℕ → Layout → Layout
  add_row p stop out = record out { rows = out.rows ++ slice bar.buffer p stop ∷ [] }

  -- The inner loop.
  wrap_line : ℕ → Bool → Bool → ℕ → ℕ → Layout → Layout
  unfolding prompt_of chunk_end claim add_row
  wrap_line zero first_logical first_visual p gend out = out
  wrap_line (suc fuel) first_logical first_visual p gend out =
      let col0 = prompt_of first_logical first_visual prompt_cols in
      let stop = chunk_end col0 p gend in
      let out' = add_row p stop (claim col0 p stop gend out) in
      let more = wrap_line fuel first_logical false stop gend out' in
      if ltb stop gend then more else out'

  -- The outer loop.
  wrap_lines : ℕ → Bool → ℕ → Layout → Layout
  unfolding wrap_line line_end
  wrap_lines zero first_logical gstart out = out
  wrap_lines (suc fuel) first_logical gstart out =
      let gend = line_end bar.buffer gstart in
      let out' = wrap_line (suc (gend - gstart)) first_logical true gstart gend out in
      let more = wrap_lines fuel false (gend + 1) out' in
      if gend == length bar.buffer then out' else more

  -- The cursor is put into the last row if no row has claimed it.
  pin : Layout → Layout
  pin out = if out.cursor_set then out else record out { cursor_row = length out.rows - 1 }

-- `width` and `prompt_cols` below zero count as zero.
unfoldable pub wrap_layout : ℕ → ℕ → InputBar → Layout
unfolding wrap_lines pin
wrap_layout width prompt_cols bar = pin bar width prompt_cols (
    wrap_lines bar (max 1 width) prompt_cols (suc (length bar.buffer)) true 0
      (record { rows = []; cursor_row = 0; cursor_col = 0; cursor_set = false }))

unfoldable pub visual_line_count : ℕ → ℕ → InputBar → ℕ
unfolding wrap_layout
visual_line_count width prompt_cols bar = length (wrap_layout width prompt_cols bar).rows
