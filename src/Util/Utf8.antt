-- ===== src/Util/Utf8.antt =====
-- src/util/Utf8.cpp and Utf8.hpp. A position is a byte index; `s[i]` is only read below the size, so
-- the value that `get_or` gives outside does not matter.
pub mod Encode
pub mod Boundary
use Prim.Native.Char.{code}
use Prim.Native.String.{String}
use simple_coder.Prelude.{
  Bool, Bytes, [], bit_and, bit_or, get_or, if◌then◌else◌, leb, length, ltb, not, shr, suc, zero, ℕ,
  ◌%◌, ◌++◌, ◌+◌, ◌-◌, ◌==◌, ◌||◌, ◌∷◌,
}

unfoldable pub seq_len : ℕ → ℕ
seq_len b =
    if ltb b 0x80
    then 1
    else if bit_and b 0xE0 == 0xC0
    then 2
    else if bit_and b 0xF0 == 0xE0
    then 3
    else if bit_and b 0xF8 == 0xF0
    then 4
    else 1

unfoldable pub is_cont : ℕ → Bool
is_cont b = bit_and b 0xC0 == 0x80

-- `static_cast<char>` keeps the low eight bits.
abbrev to_char : ℕ → ℕ
to_char x = x % 256

unfoldable pub encode : ℕ → Bytes
encode cp =
    if leb cp 0x7F
    then to_char cp ∷ []
    else if leb cp 0x7FF
    then to_char (bit_or 0xC0 (shr cp 6)) ∷ to_char (bit_or 0x80 (bit_and cp 0x3F)) ∷ []
    else if leb cp 0xFFFF
    then to_char (bit_or 0xE0 (shr cp 12))
      ∷ to_char (bit_or 0x80 (bit_and (shr cp 6) 0x3F))
      ∷ to_char (bit_or 0x80 (bit_and cp 0x3F))
      ∷ []
    else to_char (bit_or 0xF0 (shr cp 18))
      ∷ to_char (bit_or 0x80 (bit_and (shr cp 12) 0x3F))
      ∷ to_char (bit_or 0x80 (bit_and (shr cp 6) 0x3F))
      ∷ to_char (bit_or 0x80 (bit_and cp 0x3F))
      ∷ []

-- The bytes of a literal: the sources are UTF-8.
unfoldable pub utf8_text : String → Bytes
unfolding encode
utf8_text String.[] = []
utf8_text (String.◌∷◌ c s) = encode (code c) ++ utf8_text s

-- `while (i > 0 && is_cont(s[i])) --i;`
unfoldable pub back_to_lead : Bytes → ℕ → ℕ
back_to_lead s zero = 0
back_to_lead s (suc i) =
    let earlier = back_to_lead s i in if is_cont (get_or s (suc i) 0) then earlier else suc i

unfoldable pub prev_boundary : Bytes → ℕ → ℕ
unfolding back_to_lead
prev_boundary s pos = if pos == 0 then 0 else back_to_lead s (pos - 1)

unfoldable pub next_boundary : Bytes → ℕ → ℕ
next_boundary s pos =
    if leb (length s) pos
    then length s
    else let i = pos + seq_len (get_or s pos 0) in if ltb (length s) i then length s else i

unfoldable pub snap_boundary : Bytes → ℕ → ℕ
unfolding back_to_lead
snap_boundary s pos =
    if pos == 0 || leb (length s) pos
    then if ltb (length s) pos then length s else pos
    else if not (is_cont (get_or s pos 0))
    then pos
    else back_to_lead s pos

-- The loop of `count` reads a lead byte and passes over its sequence: `skip` is what is left of
-- the sequence that was begun.
unfoldable pub count_from : ℕ → Bytes → ℕ
count_from skip [] = 0
count_from zero (b ∷ s) = suc (count_from (seq_len b - 1) s)
count_from (suc skip) (b ∷ s) = count_from skip s

unfoldable pub count : Bytes → ℕ
unfolding count_from
count s = count_from 0 s
