-- ===== src/Ui/InputBar/Cursor.antt =====
-- The cursor never leaves the buffer.
use simple_coder.Prelude.{
  Bool-cases, Bytes, [], arith, drop, inl, inr, leb, length, length-append, length-drop,
  length-take, ltb, suc, take, zero, ℕ, ◌&&◌, ◌++◌, ◌+◌, ◌-◌, ◌==◌, ◌||◌, ◌∷◌, ◌≤◌,
}
use simple_coder.Util.Utf8.{prev_boundary, next_boundary}
use simple_coder.Util.Utf8.Boundary.{boundary_progress}
use simple_coder.Ui.InputBar.{
  InputBar, Key, enter, backspace, delete, left, right, home, end, up, down, char, other,
  last_newline, line_start, until_newline, line_end, erase, insert_at, walk, column, move_up,
  move_down, insert_text, erase_back, erase_forward, type_char, handle_key,
}

unfoldable pub Valid : InputBar → Type 0
Valid bar = bar.cursor ≤ length bar.buffer

last_newline-le : (at seen : ℕ) (s : Bytes) → seen ≤ at → last_newline at seen s ≤ at + length s
unfolding last_newline
last_newline-le at seen [] h = omega arith
last_newline-le at seen (c ∷ s) h = elim (Bool-cases (c == b'\n')) [
  | inl e ↦ rw e (omega (arith, last_newline-le (suc at) (suc at) s (omega arith)))
  | inr e ↦ rw e (omega (arith, last_newline-le (suc at) seen s (omega arith)))
]

pub line_start-le : (s : Bytes) (pos : ℕ) → line_start s pos ≤ pos
unfolding line_start
line_start-le s pos = elim (Bool-cases (pos == 0)) [
  | inl e ↦ rw e (omega arith)
  | inr e ↦ rw e (omega (arith, last_newline-le 0 0 (take pos s) (omega arith), length-take pos s))
]

pub until_newline-le : (s : Bytes) → until_newline s ≤ length s
unfolding until_newline
until_newline-le [] = omega arith
until_newline-le (c ∷ s) = ground (arith, until_newline-le s)

pub line_end-le : (s : Bytes) (pos : ℕ) → line_end s pos ≤ length s
unfolding line_end
line_end-le s pos = ground (arith, until_newline-le (drop pos s), length-drop pos s)

next_boundary-le : (s : Bytes) (p : ℕ) → p ≤ length s → next_boundary s p ≤ length s
next_boundary-le s p h = (boundary_progress s p h).3

prev_boundary-le : (s : Bytes) (p : ℕ) → p ≤ length s → prev_boundary s p ≤ length s
prev_boundary-le s p h = (boundary_progress s p h).1

walk-le : (s : Bytes) (col target_end p : ℕ) → p ≤ length s → walk s col target_end p ≤ length s
unfolding walk
walk-le s zero target_end p h = h
walk-le s (suc col) target_end p h = elim (Bool-cases (ltb p target_end)) [
  | inl e ↦ rw e (walk-le s col target_end (next_boundary s p) (next_boundary-le s p h))
  | inr e ↦ rw e h
]

move_up-Valid : (bar : InputBar) → Valid bar → Valid (move_up bar)
unfolding move_up Valid
move_up-Valid bar v =
    let s = bar.buffer in
    let ls = line_start s bar.cursor in
    elim (Bool-cases (ls == 0)) [
      | inl e ↦ rw e v
      | inr e ↦ rw e (
          walk-le s (column bar) (ls - 1) (line_start s (ls - 1))
            (omega (arith, line_start-le s (ls - 1), line_start-le s bar.cursor, v)))
    ]

move_down-Valid : (bar : InputBar) → Valid bar → Valid (move_down bar)
unfolding move_down Valid
move_down-Valid bar v =
    let s = bar.buffer in
    let le = line_end s bar.cursor in
    elim (Bool-cases (le == length s)) [
      | inl e ↦ rw e v
      | inr e ↦ rw e (
          walk-le s (column bar) (line_end s (le + 1)) (le + 1)
            (ground (arith, e, line_end-le s bar.cursor)))
    ]

insert_text-Valid : (text : Bytes) (bar : InputBar) → Valid bar → Valid (insert_text text bar)
unfolding insert_text insert_at Valid
insert_text-Valid text bar v = omega (
  arith,
  length-append (take bar.cursor bar.buffer) (text ++ drop bar.cursor bar.buffer),
  length-append text (drop bar.cursor bar.buffer),
  length-take bar.cursor bar.buffer,
  length-drop bar.cursor bar.buffer,
)

length-erase_kept : (s : Bytes) (p n : ℕ) → p ≤ length s → p ≤ length (erase s p n)
unfolding erase
length-erase_kept s p n h =
    omega (arith, length-append (take p s) (drop (p + n) s), length-take p s)

erase_back-Valid : (bar : InputBar) → Valid bar → Valid (erase_back bar)
unfolding erase_back Valid
erase_back-Valid bar v =
    let p = prev_boundary bar.buffer bar.cursor in
    elim (Bool-cases (ltb 0 bar.cursor)) [
      | inl e ↦ rw e (
          length-erase_kept bar.buffer p (bar.cursor - p)
            (prev_boundary-le bar.buffer bar.cursor v))
      | inr e ↦ rw e v
    ]

erase_forward-Valid : (bar : InputBar) → Valid bar → Valid (erase_forward bar)
unfolding erase_forward Valid
erase_forward-Valid bar v = elim (Bool-cases (ltb bar.cursor (length bar.buffer))) [
  | inl e ↦ rw e (length-erase_kept bar.buffer bar.cursor _ v)
  | inr e ↦ rw e v
]

type_char-Valid : (ch : ℕ) (bar : InputBar) → Valid bar → Valid (type_char ch bar).1
unfolding type_char
type_char-Valid ch bar v = elim (Bool-cases (ch == 10 || ch == 13)) [
  | inl e ↦ rw e (unfold Valid in omega arith)
  | inr e ↦ elim (Bool-cases (ch == 127 || ch == 8)) [
    | inl f ↦ rw (e, f) (erase_back-Valid bar v)
    | inr f ↦ elim (Bool-cases (leb 32 ch && ltb ch 127)) [
      | inl g ↦ rw (e, f, g) (insert_text-Valid (ch ∷ []) bar v)
      | inr g ↦ rw (e, f, g) v
    ]
  ]
]

-- Whatever key is pressed, the cursor stays inside the buffer, or at its end.
pub handle_key-Valid : (key : Key) (bar : InputBar) → Valid bar → Valid (handle_key key bar).1
unfolding handle_key Valid
handle_key-Valid enter bar v = omega arith
handle_key-Valid backspace bar v = erase_back-Valid bar v
handle_key-Valid delete bar v = erase_forward-Valid bar v
handle_key-Valid left bar v = prev_boundary-le bar.buffer bar.cursor v
handle_key-Valid right bar v = next_boundary-le bar.buffer bar.cursor v
handle_key-Valid home bar v = omega (arith, line_start-le bar.buffer bar.cursor)
handle_key-Valid end bar v = line_end-le bar.buffer bar.cursor
handle_key-Valid up bar v = move_up-Valid bar v
handle_key-Valid down bar v = move_down-Valid bar v
handle_key-Valid (char ch) bar v = type_char-Valid ch bar v
handle_key-Valid other bar v = v
