-- ===== src/App/SystemPrompt.antt =====
-- `stripCodeFence` of src/app/SystemPrompt.cpp. Positions are byte indices; `none` is `npos`.
use simple_coder.Prelude.{
  Bool, Bytes, Option, [], bytes_eq, codes, drop, if◌then◌else◌, leb, none, not, some, suc, take, ℕ,
  ◌&&◌, ◌+◌, ◌-◌, ◌==◌, ◌||◌, ◌∷◌,
}

-- `" \t\r\n"`
is_blank : ℕ → Bool
is_blank c = c == 32 || c == 9 || c == 13 || c == 10

is_newline : ℕ → Bool
is_newline c = c == b'\n'

-- The first position at or behind `at` whose character is wanted.
find_first : (ℕ → Bool) → ℕ → Bytes → Option ℕ
find_first wanted at [] = none
find_first wanted at (c ∷ s) =
    let later = find_first wanted (suc at) s in if wanted c then some at else later

-- The last such position, `seen` if there is no other.
find_last : (ℕ → Bool) → ℕ → Option ℕ → Bytes → Option ℕ
find_last wanted at seen [] = seen
find_last wanted at seen (c ∷ s) = find_last wanted (suc at) (if wanted c then some at else seen) s

-- `compare(at, 3, "```") == 0`
fence_at : ℕ → Bytes → Bool
unfolding bytes_eq
fence_at at s = bytes_eq (take 3 (drop at s)) (codes "```")

-- `rfind('\n', e - 3)`: at `e == 2` the position wraps around, and the whole text is searched.
newline_before : ℕ → Bytes → Option ℕ
unfolding find_last is_newline
newline_before e inner =
    find_last is_newline 0 none (if e == 2 then inner else take (e - 3 + 1) inner)

keep_before : Option ℕ → Bytes → Bytes
keep_before none inner = []
keep_before (some nl) inner = take (nl + 1) inner

strip_end : Option ℕ → Bytes → Bytes
unfolding fence_at newline_before keep_before
strip_end none inner = inner
strip_end (some e) inner =
    if leb 2 e && fence_at (e - 2) inner then keep_before (newline_before e inner) inner else inner

strip_lines : Option ℕ → Bytes → Bytes
unfolding strip_end find_last is_blank
strip_lines none s = s
strip_lines (some nl) s =
    let inner = drop (nl + 1) s in strip_end (find_last (λ c. not (is_blank c)) 0 none inner) inner

strip_begin : Option ℕ → Bytes → Bytes
unfolding fence_at strip_lines find_first is_newline
strip_begin none s = s
strip_begin (some b) s =
    if not (fence_at b s) then s else strip_lines (find_first is_newline b (drop b s)) s

unfoldable pub strip_code_fence : Bytes → Bytes
unfolding strip_begin find_first is_blank
strip_code_fence s = strip_begin (find_first (λ c. not (is_blank c)) 0 s) s
