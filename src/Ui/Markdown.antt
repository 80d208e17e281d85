-- ===== src/Ui/Markdown.antt =====
-- src/ui/Markdown.cpp: the lines of a text by their kind.
pub mod Fences
use simple_coder.Prelude.{
  Bool, Bytes, List, Option, [], bytes_eq, codes, cut_lines, drop, drop_while, false, get_or,
  if◌then◌else◌, is_digit, leb, length, ltb, none, not, some, suc, take, ℕ, ◌&&◌, ◌++◌, ◌+◌, ◌==◌,
  ◌||◌, ◌∷◌,
}
use simple_coder.Util.Utf8.{utf8_text}

pub data MdKind : Type 0 where
  text header code list_item : MdKind

pub record MdLine : Type 0 where
  pub text : Bytes
  pub kind : MdKind

abbrev pub is_blank : ℕ → Bool
is_blank c = c == 32 || c == 9

unfoldable pub ltrim : Bytes → Bytes
ltrim = drop_while is_blank

-- `t.rfind("```", 0) == 0`
unfoldable pub is_fence : Bytes → Bool
is_fence t = bytes_eq (take 3 t) (codes "```")

-- How many bytes in front pass a test.
unfoldable pub run_length : (ℕ → Bool) → Bytes → ℕ
run_length p [] = 0
run_length p (c ∷ s) = let rest = run_length p s in if p c then suc rest else 0

-- One to six `#` and a blank.
unfoldable pub is_header : Bytes → Bool
unfolding run_length
is_header t =
    let h = run_length (λ c. c == b'#') t in
    ltb 0 h && leb h 6 && ltb h (length t) && get_or t h 0 == 32

unfoldable pub is_bullet : Bytes → Bool
is_bullet t =
    leb 2 (length t)
    && (get_or t 0 0 == b'-' || get_or t 0 0 == b'*' || get_or t 0 0 == b'+')
    && get_or t 1 0 == 32

unfoldable pub is_numbered : Bytes → Bool
unfolding run_length
is_numbered t =
    let d = run_length is_digit t in
    ltb 0 d && ltb (d + 1) (length t) && get_or t d 0 == b'.' && get_or t (d + 1) 0 == 32

-- A line outside fenced code; `t` is the line without the blanks in front.
unfoldable pub classify_text : Bytes → Bytes → MdLine
unfolding is_header is_bullet is_numbered run_length ltrim
classify_text line t =
    if is_header t
    then record { text = ltrim (drop (run_length (λ c. c == b'#') t + 1) t); kind = MdKind.header }
    else if is_bullet t
    then record { text = utf8_text "• " ++ drop 2 t; kind = MdKind.list_item }
    else if is_numbered t
    then record { text = t; kind = MdKind.list_item }
    else record { text = line; kind = MdKind.text }

-- Whether the next line is in fenced code, and the line that is put out, if one is.
unfoldable pub classify : Bytes → Bool → Bool × Option MdLine
unfolding is_fence ltrim classify_text
classify line in_code =
    if is_fence (ltrim line)
    then (not in_code, none)
    else if in_code
    then (in_code, some (record { text = line; kind = MdKind.code }))
    else (in_code, some (classify_text line (ltrim line)))

unfoldable pub cons_some {ℓ} : {A : Type ℓ} → Option A → List A → List A
cons_some none xs = xs
cons_some (some x) xs = x ∷ xs

unfoldable pub classify_lines : Bool → List Bytes → List MdLine
unfolding classify cons_some
classify_lines in_code [] = []
classify_lines in_code (line ∷ lines) =
    let (next, out) = classify line in_code in cons_some out (classify_lines next lines)

unfoldable pub markdown_lines : Bytes → List MdLine
unfolding classify_lines cut_lines
markdown_lines t = classify_lines false (cut_lines t)
