-- ===== src/Util/Base64/Encode.antt =====
-- The shape of what `base64_encode` returns.
use simple_coder.Prelude.{
  Bytes, [], arith, bit_and, bit_and_15, bit_and_3, bit_or, bit_or_fields, length, refl, shl, shr,
  ℕ, ◌%◌, ◌*◌, ◌+◌, ◌/◌, ◌<◌, ◌∷◌, ◌≡◌,
}
use simple_coder.Util.Base64.{base64_encode}

-- The four groups of six bits that three bytes make.
pub second_group :
    (b0 b1 : ℕ) → b1 < 256 → bit_or (shl (bit_and b0 0x03) 4) (shr b1 4) ≡ b0 % 4 * 16 + b1 / 16
second_group b0 b1 h =
    omega (arith, bit_or_fields 4 (bit_and b0 3) (b1 / 16) (omega arith), bit_and_3 b0)

pub third_group :
    (b1 b2 : ℕ) → b2 < 256 → bit_or (shl (bit_and b1 0x0F) 2) (shr b2 6) ≡ b1 % 16 * 4 + b2 / 64
third_group b1 b2 h =
    omega (arith, bit_or_fields 2 (bit_and b1 15) (b2 / 64) (omega arith), bit_and_15 b1)

-- Four characters for each group of three bytes, begun or full.
pub length-base64_encode :
    (bytes : Bytes) → length (base64_encode bytes) ≡ (length bytes + 2) / 3 * 4
unfolding base64_encode
length-base64_encode [] = refl
length-base64_encode (b0 ∷ []) = refl
length-base64_encode (b0 ∷ b1 ∷ []) = refl
length-base64_encode (b0 ∷ b1 ∷ b2 ∷ rest) = omega (arith, length-base64_encode rest)
