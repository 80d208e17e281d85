-- ===== src/Net/Html/Entity.antt =====
-- `append_entity` of src/net/Html.cpp. The `std::int32_t` is kept modulo 2^32: what is negative stands
-- at 2^31 and above, and an overflow wraps around, which C++ leaves open.
use simple_coder.Prelude.{
  Bytes, List, Option, [], bit_and, bit_or, bytes_eq, codes, if◌then◌else◌, is_digit, leb, ltb,
  none, not, shr, some, to_lower, ℕ, ◌%◌, ◌&&◌, ◌*◌, ◌++◌, ◌+◌, ◌-◌, ◌==◌, ◌||◌, ◌∷◌,
}
use simple_coder.Util.Utf8.{utf8_text}

abbrev pub word : ℕ
word = 4294967296

-- -1
abbrev pub minus_one : ℕ
minus_one = 4294967295

unfoldable pub named : List (Bytes × Bytes)
named =
    (codes "amp", codes "&")
    ∷ (codes "lt", codes "<")
    ∷ (codes "gt", codes ">")
    ∷ (codes "quot", codes "\"")
    ∷ (codes "apos", codes "'")
    ∷ (codes "nbsp", codes " ")
    ∷ (codes "#39", codes "'")
    ∷ (codes "mdash", utf8_text "—")
    ∷ (codes "ndash", utf8_text "–")
    ∷ (codes "hellip", utf8_text "…")
    ∷ (codes "copy", utf8_text "©")
    ∷ (codes "reg", utf8_text "®")
    ∷ []

unfoldable pub look_up : Bytes → List (Bytes × Bytes) → Option Bytes
unfolding bytes_eq
look_up name [] = none
look_up name ((key, text) ∷ entries) = if bytes_eq key name then some text else look_up name entries

-- Any character that is no decimal digit counts by its distance from `a`.
unfoldable pub hex_value : ℕ → Bytes → ℕ
hex_value cp [] = cp
hex_value cp (c ∷ s) =
    hex_value ((cp * 16 + (if is_digit c then c - 48 else to_lower c + (word - 87))) % word) s

unfoldable pub decimal_value : ℕ → Bytes → ℕ
decimal_value cp [] = cp
decimal_value cp (c ∷ s) =
    let more = decimal_value ((cp * 10 + (c - 48)) % word) s in
    if not (is_digit c) then minus_one else more

unfoldable pub code_point : Bytes → ℕ
unfolding hex_value decimal_value
code_point [] = minus_one
code_point (c ∷ []) = if c == b'x' || c == b'X' then minus_one else decimal_value 0 (c ∷ [])
code_point (c ∷ d ∷ s) =
    if c == b'x' || c == b'X' then hex_value 0 (d ∷ s) else decimal_value 0 (c ∷ d ∷ s)

abbrev low_byte : ℕ → ℕ
low_byte x = x % 256

unfoldable pub encode_point : ℕ → Bytes
encode_point cp =
    if ltb cp 0x80
    then low_byte cp ∷ []
    else if ltb cp 0x800
    then low_byte (bit_or 0xC0 (shr cp 6)) ∷ low_byte (bit_or 0x80 (bit_and cp 0x3F)) ∷ []
    else if ltb cp 0x10000
    then low_byte (bit_or 0xE0 (shr cp 12))
      ∷ low_byte (bit_or 0x80 (bit_and (shr cp 6) 0x3F))
      ∷ low_byte (bit_or 0x80 (bit_and cp 0x3F))
      ∷ []
    else low_byte (bit_or 0xF0 (shr cp 18))
      ∷ low_byte (bit_or 0x80 (bit_and (shr cp 12) 0x3F))
      ∷ low_byte (bit_or 0x80 (bit_and (shr cp 6) 0x3F))
      ∷ low_byte (bit_or 0x80 (bit_and cp 0x3F))
      ∷ []

abbrev verbatim : Bytes → Bytes
verbatim name = b'&' ∷ (name ++ b';' ∷ [])

-- An entity that is not in the table.
unfoldable pub numeric_entity : Bytes → Bytes
unfolding code_point encode_point
numeric_entity [] = verbatim []
numeric_entity (c ∷ name) =
    if c == b'#' && leb (code_point name) 0x10FFFF
    then encode_point (code_point name)
    else verbatim (c ∷ name)

unfoldable pub entity_or : Bytes → Option Bytes → Bytes
unfolding numeric_entity
entity_or name (some text) = text
entity_or name none = numeric_entity name

unfoldable pub append_entity : Bytes → Bytes
unfolding entity_or look_up named
append_entity name = entity_or name (look_up name named)
