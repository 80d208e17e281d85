-- ===== src/Util/Base64.antt =====
-- src/util/Base64.cpp: `base64_encode` and `base64_decode`. The tables are lists; `out` is built by
-- putting what is appended in front of what the rest of the input gives.
pub mod Encode
pub mod RoundTrip
use simple_coder.Prelude.{
  Bytes, List, [], bit_and, bit_or, codes, get_or, if◌then◌else◌, is_space, leb, replicate, set,
  shl, shr, suc, zero, ℕ, ◌%◌, ◌++◌, ◌+◌, ◌-◌, ◌==◌, ◌^◌, ◌∷◌,
}

abbrev pub alphabet : Bytes
alphabet = codes "ABCDEFGHIJKLMNOPQRSTUVWXYZabcdefghijklmnopqrstuvwxyz0123456789+/"

-- `kAlphabet[i]`
pub digit : ℕ → ℕ
digit i = get_or alphabet i 0

-- The loop of `make_reverse` from `i` on, with the rounds that are left.
fill_reverse : ℕ → ℕ → List ℕ → List ℕ
unfolding digit
fill_reverse zero i t = t
fill_reverse (suc n) i t = fill_reverse n (i + 1) (set t (digit i) i)

unfoldable pub make_reverse : List ℕ
unfolding fill_reverse
make_reverse = fill_reverse 64 0 (replicate 256 0xFF)

-- `rev[uc]`
pub rev : ℕ → ℕ
rev uc = get_or make_reverse uc 0

pub base64_encode : Bytes → Bytes
base64_encode [] = []
base64_encode (b0 ∷ []) = digit (shr b0 2) ∷ digit (shl (bit_and b0 0x03) 4) ∷ b'=' ∷ b'=' ∷ []
base64_encode (b0 ∷ b1 ∷ []) =
    digit (shr b0 2)
    ∷ digit (bit_or (shl (bit_and b0 0x03) 4) (shr b1 4))
    ∷ digit (shl (bit_and b1 0x0F) 2)
    ∷ b'='
    ∷ []
base64_encode (b0 ∷ b1 ∷ b2 ∷ rest) =
    digit (shr b0 2)
    ∷ digit (bit_or (shl (bit_and b0 0x03) 4) (shr b1 4))
    ∷ digit (bit_or (shl (bit_and b1 0x0F) 2) (shr b2 6))
    ∷ digit (bit_and b2 0x3F)
    ∷ base64_encode rest

-- What one character does to the loop of `base64_decode`: it ends it, or leaves what is appended to
-- `out` and the new `buf` and `bits`.
pub data Round : Type 0 where
  stop : Round
  next : Bytes → ℕ → ℕ → Round

-- `buf` is a `uint32_t`.
pub push_bits : ℕ → ℕ → ℕ → Round
push_bits buf bits v =
    let buf' = bit_or (shl buf 6 % 2 ^ 32) v in
    if leb 8 (bits + 6)
    then next (bit_and (shr buf' (bits + 6 - 8)) 0xFF ∷ []) buf' (bits + 6 - 8)
    else next [] buf' (bits + 6)

pub decode_char : ℕ → ℕ → ℕ → Round
decode_char c buf bits =
    if c == b'='
    then stop
    else if is_space c
    then next [] buf bits
    else if rev c == 0xFF
    then stop
    else push_bits buf bits (rev c)

pub decode_from : Bytes → ℕ → ℕ → Bytes
decode_from [] buf bits = []
decode_from (c ∷ cs) buf bits = elim (decode_char c buf bits) [
  | stop ↦ []
  | next out buf' bits' ↦ out ++ decode_from cs buf' bits'
]

pub base64_decode : Bytes → Bytes
unfolding decode_from
base64_decode b64 = decode_from b64 0 0
