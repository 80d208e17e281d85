-- ===== src/Util/Utf8/Encode.antt =====
-- What `encode` writes is one character for the other functions: a lead byte that tells its length,
-- and continuation bytes.
use simple_coder.Prelude.{
  ==_iff, All, Bytes, [], ap, arith, bit_and, bit_and_63, bit_or, bit_or_fields, false, holds_below,
  holds_below-lt, if◌then◌else◌, inl, inr, leb, length, le→leb, ltb, not, refl, shr, true, ℕ, ◌%◌,
  ◌&&◌, ◌+◌, ◌/◌, ◌<◌, ◌==◌, ◌∷◌, ◌≡◌, ◌≤◌, ◌⊎◌,
}
use native.Mathlib.Decide.{dec_le}
use simple_coder.Util.Utf8.{seq_len, is_cont, encode}

abbrev seq_len_ranges : ℕ → ℕ
seq_len_ranges b =
    if ltb b 192
    then 1
    else if ltb b 224
    then 2
    else if ltb b 240
    then 3
    else if ltb b 248
    then 4
    else 1

seq_len_table : holds_below (λ b. seq_len b == seq_len_ranges b) 256 ≡ true
unfolding holds_below seq_len
seq_len_table = refl

-- The length that a lead byte tells, by ranges.
pub seq_len-ranges : (b : ℕ) → b < 256 → seq_len b ≡ seq_len_ranges b
seq_len-ranges b h = (==_iff _ _).0 (holds_below-lt _ 256 seq_len_table h)

is_cont_table : holds_below (λ r. is_cont (128 + r)) 64 ≡ true
unfolding holds_below is_cont
is_cont_table = refl

not_cont_table :
    holds_below (λ b. if leb 128 b && ltb b 192 then true else not (is_cont b)) 256 ≡ true
unfolding holds_below is_cont
not_cont_table = refl

is_cont_low : (r : ℕ) → r < 64 → is_cont (128 + r) ≡ true
is_cont_low r h = holds_below-lt _ 64 is_cont_table h

not_cont : (b : ℕ) → b < 256 → (b < 128) ⊎ (192 ≤ b) → is_cont b ≡ false
not_cont b h r = ground (arith, holds_below-lt _ 256 not_cont_table h)

-- One character: its lead byte tells how long it is, and no other byte can be taken for a lead.
pub record IsChar (c : Bytes) : Type 0 where
  pub lead : ℕ
  pub conts : Bytes
  pub splits : c ≡ lead ∷ conts
  pub lead_not_cont : is_cont lead ≡ false
  pub all_cont : All (λ b. is_cont b ≡ true) conts
  pub told : seq_len lead ≡ length c

-- A continuation byte with the low six bits of `x`.
cont_byte : (x : ℕ) → bit_or 0x80 (bit_and x 0x3F) % 256 ≡ 128 + x % 64
cont_byte x = rw bit_and_63 (omega (arith, bit_or_fields 6 2 (x % 64) (omega arith)))

cont_ok : (x : ℕ) → is_cont (128 + x % 64) ≡ true
cont_ok x = is_cont_low (x % 64) (omega arith)

two-IsChar : (l x : ℕ) → 192 ≤ l → l < 224 → IsChar (l ∷ (128 + x % 64) ∷ [])
two-IsChar l x h k = record {
  lead = l;
  conts = (128 + x % 64) ∷ [];
  splits = refl;
  lead_not_cont = not_cont l (omega arith) (inr h);
  all_cont = (cont_ok x, tt);
  told = ground (arith, seq_len-ranges l);
}

three-IsChar : (l x y : ℕ) → 224 ≤ l → l < 240 → IsChar (l ∷ (128 + x % 64) ∷ (128 + y % 64) ∷ [])
three-IsChar l x y h k = record {
  lead = l;
  conts = (128 + x % 64) ∷ (128 + y % 64) ∷ [];
  splits = refl;
  lead_not_cont = not_cont l (omega arith) (inr (omega arith));
  all_cont = (cont_ok x, (cont_ok y, tt));
  told = ground (arith, seq_len-ranges l);
}

four-IsChar :
    (l x y z : ℕ)
    → 240 ≤ l
    → l < 248
    → IsChar (l ∷ (128 + x % 64) ∷ (128 + y % 64) ∷ (128 + z % 64) ∷ [])
four-IsChar l x y z h k = record {
  lead = l;
  conts = (128 + x % 64) ∷ (128 + y % 64) ∷ (128 + z % 64) ∷ [];
  splits = refl;
  lead_not_cont = not_cont l (omega arith) (inr (omega arith));
  all_cont = (cont_ok x, (cont_ok y, (cont_ok z, tt)));
  told = ground (arith, seq_len-ranges l);
}

one-IsChar : (l : ℕ) → l < 128 → IsChar (l ∷ [])
one-IsChar l h = record {
  lead = l;
  conts = [];
  splits = refl;
  lead_not_cont = not_cont l (omega arith) (inl h);
  all_cont = tt;
  told = ground (arith, seq_len-ranges l);
}

-- The lead bytes of two, three and four byte sequences.
lead_two : (x : ℕ) → x < 32 → bit_or 0xC0 x % 256 ≡ 192 + x
lead_two x h = omega (arith, bit_or_fields 5 6 x (omega arith))

lead_three : (x : ℕ) → x < 16 → bit_or 0xE0 x % 256 ≡ 224 + x
lead_three x h = omega (arith, bit_or_fields 4 14 x (omega arith))

lead_four : (x : ℕ) → x < 8 → bit_or 0xF0 x % 256 ≡ 240 + x
lead_four x h = omega (arith, bit_or_fields 3 30 x (omega arith))

encode_one : (cp : ℕ) → cp ≤ 0x7F → encode cp ≡ cp ∷ []
unfolding encode
encode_one cp h = rw (le→leb cp 0x7F h) (ap (λ (t : ℕ). t ∷ []) (omega arith))

not_leb : (a b : ℕ) → b < a → leb a b ≡ false
not_leb a b h = ground arith

encode_two : (cp : ℕ) → 0x7F < cp → cp ≤ 0x7FF → encode cp ≡ (192 + cp / 64) ∷ (128 + cp % 64) ∷ []
unfolding encode
encode_two cp h k =
    rw (not_leb cp 0x7F h, le→leb cp 0x7FF k, lead_two (shr cp 6) (omega arith), cont_byte cp) refl

encode_three :
    (cp : ℕ)
    → 0x7FF < cp
    → cp ≤ 0xFFFF
    → encode cp ≡ (224 + cp / 4096) ∷ (128 + cp / 64 % 64) ∷ (128 + cp % 64) ∷ []
unfolding encode
encode_three cp h k =
    rw (not_leb cp 0x7F (omega arith), not_leb cp 0x7FF h, le→leb cp 0xFFFF k)
      (rw (lead_three (shr cp 12) (omega arith), cont_byte (shr cp 6), cont_byte cp) refl)

encode_four :
    (cp : ℕ)
    → 0xFFFF < cp
    → cp ≤ 0x10FFFF
    → encode cp
      ≡ (240 + cp / 262144) ∷ (128 + cp / 4096 % 64) ∷ (128 + cp / 64 % 64) ∷ (128 + cp % 64) ∷ []
unfolding encode
encode_four cp h k =
    rw (not_leb cp 0x7F (omega arith), not_leb cp 0x7FF (omega arith), not_leb cp 0xFFFF h)
      (rw
        (
          lead_four (shr cp 18) (omega arith),
          cont_byte (shr cp 12),
          cont_byte (shr cp 6),
          cont_byte cp,
        )
        refl)

-- Every Unicode code point is encoded as one character.
pub encode-IsChar : (cp : ℕ) → cp ≤ 0x10FFFF → IsChar (encode cp)
encode-IsChar cp h = elim (dec_le cp 0x7F) [
  | yes a ↦ rw (encode_one cp a) (one-IsChar cp (omega arith))
  | no a ↦ elim (dec_le cp 0x7FF) [
    | yes b ↦
        rw (encode_two cp (omega arith) b)
          (two-IsChar (192 + cp / 64) cp (omega arith) (omega arith))
    | no b ↦ elim (dec_le cp 0xFFFF) [
      | yes c ↦
          rw (encode_three cp (omega arith) c)
            (three-IsChar (224 + cp / 4096) (cp / 64) cp (omega arith) (omega arith))
      | no c ↦
          rw (encode_four cp (omega arith) h)
            (four-IsChar (240 + cp / 262144) (cp / 4096) (cp / 64) cp (omega arith) (omega arith))
    ]
  ]
]
