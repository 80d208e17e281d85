-- ===== src/Util/Base64/RoundTrip.antt =====
-- `base64_decode` undoes `base64_encode`.
use simple_coder.Prelude.{
  AreBytes, Bytes, [], ap, arith, bit_and_15, bit_and_255, bit_and_3, bit_and_63, bit_or,
  bit_or_fields, holds_below, holds_below-lt, is_space, le→leb, not, refl, shl, shr, true, ℕ, ◌%◌,
  ◌&&◌, ◌*◌, ◌++◌, ◌+◌, ◌-◌, ◌/◌, ◌<◌, ◌==◌, ◌^◌, ◌∙◌, ◌∷◌, ◌≡◌, ◌≤◌,
}
use simple_coder.Util.Base64.Encode.{second_group, third_group}
use simple_coder.Util.Base64.{
  digit, make_reverse, rev, base64_encode, stop, next, push_bits, decode_char, decode_from,
  base64_decode,
}

digit_table :
    holds_below (λ v. rev (digit v) == v && not (digit v == b'=') && not (is_space (digit v))) 64
    ≡ true
unfolding holds_below rev digit make_reverse
digit_table = refl

digit_ok :
    (v : ℕ)
    → v < 64
    → (rev (digit v) == v && not (digit v == b'=') && not (is_space (digit v))) ≡ true
digit_ok v h = holds_below-lt _ 64 digit_table h

-- A character of the alphabet is read as its six bits.
decode_char-digit :
    (v buf bits : ℕ) → v < 64 → decode_char (digit v) buf bits ≡ push_bits buf bits v
unfolding decode_char
decode_char-digit v buf bits h = ground (arith, digit_ok v h)

buf_after : (buf v : ℕ) → v < 64 → bit_or (shl buf 6 % 2 ^ 32) v ≡ buf % 2 ^ 26 * 64 + v
buf_after buf v h =
    let e : shl buf 6 % 2 ^ 32 ≡ buf % 2 ^ 26 * 2 ^ 6 = omega arith in
    rw e (bit_or_fields 6 (buf % 2 ^ 26) v (omega arith))

abbrev buf_next : ℕ → ℕ → ℕ
buf_next buf v = buf % 2 ^ 26 * 64 + v

-- The first character of a group gives no byte yet.
decode_from-digit_first :
    (v buf : ℕ) (cs : Bytes)
    → v < 64
    → decode_from (digit v ∷ cs) buf 0 ≡ decode_from cs (buf_next buf v) 6
unfolding decode_from push_bits
decode_from-digit_first v buf cs h =
    rw (decode_char-digit v buf 0 h, decode_from)
      (ap (λ (t : ℕ). decode_from cs t 6) (buf_after buf v h))

-- The others give one byte each.
decode_from-digit :
    (v buf bits out : ℕ) (cs : Bytes)
    → v < 64
    → 2 ≤ bits
    → shr (buf_next buf v) (bits + 6 - 8) % 256 ≡ out
    → decode_from (digit v ∷ cs) buf bits ≡ out ∷ decode_from cs (buf_next buf v) (bits + 6 - 8)
unfolding decode_from push_bits
decode_from-digit v buf bits out cs h enough e =
    rw (decode_char-digit v buf bits h, decode_from)
      (rw (le→leb 8 (bits + 6) (omega arith), buf_after buf v h, bit_and_255, e) refl)

-- A group of four characters gives three bytes back, whatever `buf` holds from before.
decode_from-group :
    (b0 b1 b2 buf : ℕ) (cs : Bytes)
    → b0 < 256
    → b1 < 256
    → b2 < 256
    → (buf' : ℕ) × (decode_from
          (digit (b0 / 4)
            ∷ digit (b0 % 4 * 16 + b1 / 16)
            ∷ digit (b1 % 16 * 4 + b2 / 64)
            ∷ digit (b2 % 64)
            ∷ cs)
          buf
          0
        ≡ b0 ∷ b1 ∷ b2 ∷ decode_from cs buf' 0)
decode_from-group b0 b1 b2 buf cs h0 h1 h2 =
    let x1 = buf_next buf (b0 / 4) in
    let x2 = buf_next x1 (b0 % 4 * 16 + b1 / 16) in
    let x3 = buf_next x2 (b1 % 16 * 4 + b2 / 64) in
    (
      buf_next x3 (b2 % 64),
      decode_from-digit_first (b0 / 4) buf _ (omega arith)
          ∙ decode_from-digit (b0 % 4 * 16 + b1 / 16) x1 6 b0 _ (omega arith) (omega arith)
              (omega arith)
          ∙ ap (◌∷◌ b0) (
              decode_from-digit (b1 % 16 * 4 + b2 / 64) x2 4 b1 _ (omega arith) (omega arith)
                (omega arith)
              ∙ ap (◌∷◌ b1) (
                  decode_from-digit (b2 % 64) x3 2 b2 _ (omega arith) (omega arith) (omega arith))),
    )

decode_from_pad : (cs : Bytes) (buf bits : ℕ) → decode_from (b'=' ∷ cs) buf bits ≡ []
unfolding decode_from decode_char
decode_from_pad cs buf bits = refl

decode_from-encode :
    (bytes : Bytes) (buf : ℕ) → AreBytes bytes → decode_from (base64_encode bytes) buf 0 ≡ bytes
unfolding base64_encode
decode_from-encode [] buf h = unfold decode_from in refl
decode_from-encode (b0 ∷ []) buf (h0, _) = rw bit_and_3 (
    decode_from-digit_first (b0 / 4) buf _ (omega arith)
    ∙ decode_from-digit (b0 % 4 * 16) (buf_next buf (b0 / 4)) 6 b0 _ (omega arith) (omega arith)
        (omega arith)
    ∙ ap (◌∷◌ b0) (decode_from_pad _ _ _))
decode_from-encode (b0 ∷ b1 ∷ []) buf (h0, (h1, _)) =
    let x1 = buf_next buf (b0 / 4) in
    let x2 = buf_next x1 (b0 % 4 * 16 + b1 / 16) in
    rw (second_group b0 b1 h1, bit_and_15)
      (decode_from-digit_first (b0 / 4) buf _ (omega arith)
        ∙ decode_from-digit (b0 % 4 * 16 + b1 / 16) x1 6 b0 _ (omega arith) (omega arith)
            (omega arith)
        ∙ ap (◌∷◌ b0) (
            decode_from-digit (b1 % 16 * 4) x2 4 b1 _ (omega arith) (omega arith) (omega arith)
            ∙ ap (◌∷◌ b1) (decode_from_pad _ _ _)))
decode_from-encode (b0 ∷ b1 ∷ b2 ∷ rest) buf (h0, (h1, (h2, h))) =
    let (buf', e) = decode_from-group b0 b1 b2 buf (base64_encode rest) h0 h1 h2 in
    rw (second_group b0 b1 h1, third_group b1 b2 h2, bit_and_63)
      (e ∙ ap (λ (t : Bytes). b0 ∷ b1 ∷ b2 ∷ t) (decode_from-encode rest buf' h))

decode_from-is_space :
    (xs ys : Bytes) (c buf bits : ℕ)
    → is_space c ≡ true
    → decode_from (xs ++ c ∷ ys) buf bits ≡ decode_from (xs ++ ys) buf bits
unfolding decode_from decode_char
decode_from-is_space [] ys c buf bits h = ground arith
decode_from-is_space (x ∷ xs) ys c buf bits h = λ i. elim (decode_char x buf bits) [
  | stop ↦ []
  | next out buf' bits' ↦ out ++ decode_from-is_space xs ys c buf' bits' h i
]

-- Decoding what `base64_encode` returns for any string of bytes gives the string back.
pub base64_decode-encode :
    (bytes : Bytes) → AreBytes bytes → base64_decode (base64_encode bytes) ≡ bytes
unfolding base64_decode
base64_decode-encode bytes h = decode_from-encode bytes 0 h

-- A white-space character anywhere in the input changes nothing: wrapped Base64 is read as if it
-- stood on one line.
pub base64_decode-is_space :
    (xs ys : Bytes) (c : ℕ)
    → is_space c ≡ true
    → base64_decode (xs ++ c ∷ ys) ≡ base64_decode (xs ++ ys)
unfolding base64_decode
base64_decode-is_space xs ys c h = decode_from-is_space xs ys c 0 0 h
