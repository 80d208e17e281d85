-- ===== src/App/ConfigValue.antt =====
-- The values of src/app/Config.cpp: `trim`, `parse_value`, `parse_bool`, and the calls of `strtol`.
pub mod RoundTrip
use simple_coder.Prelude.{
  Bool, Bytes, Option, [], back_or, bytes_eq, codes, drop, drop_while, false, get_or, if◌then◌else◌,
  is_digit, is_empty, is_space, leb, length, ltb, map, min, none, some, suc, take, to_lower,
  trim_by, true, zero, ℕ, ◌%◌, ◌&&◌, ◌*◌, ◌++◌, ◌+◌, ◌-◌, ◌==◌, ◌^◌, ◌||◌, ◌∷◌,
}
use simple_coder.Llm.Message.{ℤ, pos, negsuc}

-- A result, or the message of a `ConfigError`.
pub data Checked (A : Type 0) : Type 0 where
  failed : Bytes → Checked A
  checked : A → Checked A

infixl 5 ◌>>=◌
abbrev pub ◌>>=◌ : {A B : Type 0} → Checked A → (A → Checked B) → Checked B
failed e >>= f = failed e
checked a >>= f = f a

unfoldable pub trim : Bytes → Bytes
trim = trim_by is_space

-- What one escape, of which the second character is given, appends to `out`.
unfoldable pub escaped : ℕ → Bytes
escaped c =
    if c == b'n'
    then 10 ∷ []
    else if c == b't'
    then 9 ∷ []
    else if c == 34
    then 34 ∷ []
    else if c == 92
    then 92 ∷ []
    else 92 ∷ c ∷ []

-- The loop of `parse_value`: `true` behind a backslash that begins an escape.
unfoldable pub unescape_from : Bool → Bytes → Bytes
unfolding escaped
unescape_from true [] = 92 ∷ []
unescape_from false [] = []
unescape_from true (c ∷ s) = escaped c ++ unescape_from false s
unescape_from false (c ∷ s) = elim (c == 92) [
  | true ↦ unescape_from true s
  | false ↦ c ∷ unescape_from false s
]

-- `raw.size() >= 2 && raw.front() == '"' && raw.back() == '"'`
unfoldable pub is_quoted : Bytes → Bool
is_quoted raw = leb 2 (length raw) && (get_or raw 0 0 == 34) && (back_or raw 0 == 34)

unfoldable pub parse_value : Bytes → Bytes
unfolding trim is_quoted unescape_from
parse_value text =
    let raw = trim text in
    if is_quoted raw then unescape_from false (take (length raw - 2) (drop 1 raw)) else raw

unfoldable pub parse_bool : Bytes → Bytes → Checked Bool
unfolding bytes_eq
parse_bool val key =
    let s = map to_lower val in
    if bytes_eq s (codes "true")
      || bytes_eq s (codes "1")
      || bytes_eq s (codes "yes")
      || bytes_eq s (codes "on")
    then checked true
    else if bytes_eq s (codes "false")
        || bytes_eq s (codes "0")
        || bytes_eq s (codes "no")
        || bytes_eq s (codes "off")
    then checked false
    else failed (codes "config: '" ++ key ++ codes "' must be true or false")

-- `c_str()` ends at the first zero byte.
unfoldable pub c_str : Bytes → Bytes
c_str [] = []
c_str (c ∷ s) = if c == 0 then [] else c ∷ c_str s

-- The digits that `strtol` reads, and what it leaves.
unfoldable pub read_digits : ℕ → Bytes → ℕ × Bytes
read_digits n [] = (n, [])
read_digits n (c ∷ s) = if is_digit c then read_digits (n * 10 + (c - 48)) s else (n, c ∷ s)

abbrev long_max : ℕ
long_max = 2 ^ 63 - 1

-- The smallest value is `negsuc long_max`.
unfoldable pub signed : Bool → ℕ → ℤ
signed false n = pos (min n long_max)
signed true zero = pos 0
signed true (suc n) = negsuc (min n long_max)

-- `strtol(s, &end, 10)`, `none` if `end == s || *end != '\0'`.
unfoldable pub whole_number : Bool → Bytes → Option ℤ
unfolding read_digits signed
whole_number minus [] = none
whole_number minus (c ∷ s) =
    if is_digit c
    then (let (n, rest) = read_digits 0 (c ∷ s) in
        if is_empty rest then some (signed minus n) else none)
    else none

unfoldable pub after_space : Bytes → Option ℤ
unfolding whole_number
after_space [] = none
after_space (c ∷ s) =
    if c == b'-'
    then whole_number true s
    else if c == b'+'
    then whole_number false s
    else whole_number false (c ∷ s)

unfoldable pub parse_long : Bytes → Option ℤ
unfolding c_str after_space
parse_long val = after_space (drop_while is_space (c_str val))

-- `static_cast<int>` of a number that is not negative.
unfoldable pub to_int : ℕ → ℤ
to_int n = let m = n % 2 ^ 32 in if ltb m (2 ^ 31) then pos m else negsuc (2 ^ 32 - 1 - m)

-- The number that a key takes, at least `least`.
unfoldable pub at_least : ℕ → Bytes → Option ℤ → Checked ℕ
at_least least message none = failed message
at_least least message (some (negsuc n)) = failed message
at_least least message (some (pos n)) = if ltb n least then failed message else checked n
