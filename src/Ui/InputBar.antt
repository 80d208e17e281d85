-- ===== src/Ui/InputBar.antt =====
-- src/ui/InputBar.cpp, all but the drawing. A position is a byte index into the buffer. A key is what
-- ncurses reports; those that are no characters are constructors.
pub mod Cursor
pub mod Editing
use simple_coder.Prelude.{
  Bytes, Option, [], drop, if◌then◌else◌, leb, length, ltb, none, some, suc, take, zero, ℕ, ◌&&◌,
  ◌++◌, ◌+◌, ◌-◌, ◌==◌, ◌||◌, ◌∷◌,
}
use simple_coder.Util.Utf8.{prev_boundary, next_boundary, count}

pub record InputBar : Type 0 where
  pub buffer : Bytes
  pub cursor : ℕ

pub data Key : Type 0 where
  enter backspace delete left right home end up down : Key
  char : ℕ → Key
  other : Key

abbrev pub empty_bar : InputBar
empty_bar = record { buffer = []; cursor = 0 }

-- Behind the last newline of a text; `seen` is the position behind the last one so far.
last_newline : ℕ → ℕ → Bytes → ℕ
last_newline at seen [] = seen
last_newline at seen (c ∷ s) = last_newline (suc at) (if c == b'\n' then suc at else seen) s

-- `rfind('\n', pos - 1)` looks at the bytes before `pos`.
unfoldable pub line_start : Bytes → ℕ → ℕ
unfolding last_newline
line_start buffer pos = if pos == 0 then 0 else last_newline 0 0 (take pos buffer)

-- The bytes in front of the first newline.
unfoldable pub until_newline : Bytes → ℕ
until_newline [] = 0
until_newline (c ∷ s) = let rest = until_newline s in if c == b'\n' then 0 else suc rest

-- `find('\n', pos)`, or the size.
unfoldable pub line_end : Bytes → ℕ → ℕ
unfolding until_newline
line_end buffer pos =
    if ltb (length buffer) pos then length buffer else pos + until_newline (drop pos buffer)

-- `erase(from, n)`
unfoldable pub erase : Bytes → ℕ → ℕ → Bytes
erase s from n = take from s ++ drop (from + n) s

-- `insert(pos, text)`
unfoldable pub insert_at : Bytes → ℕ → Bytes → Bytes
insert_at s pos text = take pos s ++ (text ++ drop pos s)

-- The loop that walks `col` characters, at most to the end of the line.
unfoldable pub walk : Bytes → ℕ → ℕ → ℕ → ℕ
walk buffer zero target_end p = p
walk buffer (suc col) target_end p =
    let next = walk buffer col target_end (next_boundary buffer p) in
    if ltb p target_end then next else p

unfoldable pub column : InputBar → ℕ
unfolding line_start
column bar =
    let ls = line_start bar.buffer bar.cursor in count (take (bar.cursor - ls) (drop ls bar.buffer))

unfoldable pub move_up : InputBar → InputBar
unfolding line_start column walk
move_up bar =
    let ls = line_start bar.buffer bar.cursor in
    if ls == 0 then bar else record bar {
      cursor = walk bar.buffer (column bar) (ls - 1) (line_start bar.buffer (ls - 1));
    }

unfoldable pub move_down : InputBar → InputBar
unfolding line_end column walk
move_down bar =
    let le = line_end bar.buffer bar.cursor in
    if le == length bar.buffer then bar else record bar {
      cursor = walk bar.buffer (column bar) (line_end bar.buffer (le + 1)) (le + 1);
    }

unfoldable pub insert_text : Bytes → InputBar → InputBar
unfolding insert_at
insert_text s bar = record {
  buffer = insert_at bar.buffer bar.cursor s;
  cursor = bar.cursor + length s;
}

unfoldable pub insert_newline : InputBar → InputBar
unfolding insert_at
insert_newline bar = record {
  buffer = insert_at bar.buffer bar.cursor (b'\n' ∷ []);
  cursor = bar.cursor + 1;
}

unfoldable pub erase_back : InputBar → InputBar
unfolding erase
erase_back bar =
    let p = prev_boundary bar.buffer bar.cursor in
    if ltb 0 bar.cursor
    then record { buffer = erase bar.buffer p (bar.cursor - p); cursor = p }
    else bar

unfoldable pub erase_forward : InputBar → InputBar
unfolding erase
erase_forward bar =
    let n = next_boundary bar.buffer bar.cursor in
    if ltb bar.cursor (length bar.buffer)
    then record bar { buffer = erase bar.buffer bar.cursor (n - bar.cursor) }
    else bar

-- The codes of the characters that `handle_key` treats: the line feed, the carriage return, ^H, DEL
-- and what is printable.
unfoldable pub type_char : ℕ → InputBar → Option Bytes × InputBar
unfolding insert_text erase_back
type_char ch bar =
    if ch == 10 || ch == 13
    then (some bar.buffer, empty_bar)
    else if ch == 127 || ch == 8
    then (none, erase_back bar)
    else if leb 32 ch && ltb ch 127
    then (none, insert_text (ch ∷ []) bar)
    else (none, bar)

unfoldable pub handle_key : Key → InputBar → Option Bytes × InputBar
unfolding type_char erase_back erase_forward move_up move_down line_start line_end
handle_key enter bar = (some bar.buffer, empty_bar)
handle_key backspace bar = (none, erase_back bar)
handle_key delete bar = (none, erase_forward bar)
handle_key left bar = (none, record bar { cursor = prev_boundary bar.buffer bar.cursor })
handle_key right bar = (none, record bar { cursor = next_boundary bar.buffer bar.cursor })
handle_key home bar = (none, record bar { cursor = line_start bar.buffer bar.cursor })
handle_key end bar = (none, record bar { cursor = line_end bar.buffer bar.cursor })
handle_key up bar = (none, move_up bar)
handle_key down bar = (none, move_down bar)
handle_key (char ch) bar = type_char ch bar
handle_key other bar = (none, bar)

unfoldable pub line_count : InputBar → ℕ
line_count bar = go bar.buffer
  where
    go : Bytes → ℕ
    go [] = 1
    go (c ∷ s) = if c == b'\n' then suc (go s) else go s
