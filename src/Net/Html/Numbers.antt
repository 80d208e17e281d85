-- ===== src/Net/Html/Numbers.antt =====
-- The numbered entities of a page.
use simple_coder.Prelude.{
  Bool-cases, Bytes, [], ap, arith, bytes_eq_cases, codes, decimal, false, inl, inr, is_digit,
  le→leb, none, refl, some, suc, sym, to_string, true, zero, ℕ, ◌%◌, ◌*◌, ◌+◌, ◌-◌, ◌/◌, ◌<◌, ◌==◌,
  ◌||◌, ◌∙◌, ◌∷◌, ◌≡◌, ◌≤◌, ◌⊎◌,
}
use simple_coder.Util.Utf8.{encode}
use simple_coder.Net.Html.Entity.{
  word, minus_one, named, look_up, decimal_value, code_point, encode_point, numeric_entity,
  entity_or, append_entity,
}

-- The encoding is that of src/util/Utf8.cpp.
encode_point-encode : (cp : ℕ) → encode_point cp ≡ encode cp
unfolding encode_point encode
encode_point-encode cp = ground arith

digit_ok : (d : ℕ) → d < 10 → is_digit (48 + d) ≡ true
digit_ok d h = ground arith

decimal_value-cons :
    (cp d : ℕ) (s : Bytes)
    → d < 10
    → cp * 10 + d < word
    → decimal_value cp ((48 + d) ∷ s) ≡ decimal_value (cp * 10 + d) s
unfolding decimal_value
decimal_value-cons cp d s h k =
    let e : (cp * 10 + (48 + d - 48)) % word ≡ cp * 10 + d = omega arith in
    rw (digit_ok d h, e) refl

decimal_value-decimal :
    (fuel n : ℕ) (done : Bytes)
    → n < fuel
    → n < word
    → decimal_value 0 (decimal fuel n done) ≡ decimal_value n done
unfolding decimal
decimal_value-decimal zero n done h k = absurd (omega arith)
decimal_value-decimal (suc fuel) n done h k = elim (Bool-cases (n / 10 == 0)) [
  | inl e ↦
      let small : 0 * 10 + n % 10 ≡ n = ground arith in
      rw (e, decimal) (decimal_value-cons 0 (n % 10) done (omega arith) (omega arith))
      ∙ ap (λ m. decimal_value m done) small
  | inr e ↦
      let whole : n / 10 * 10 + n % 10 ≡ n = omega arith in
      rw (e, decimal)
        (decimal_value-decimal fuel (n / 10) ((48 + n % 10) ∷ done) (ground arith) (omega arith))
      ∙ decimal_value-cons (n / 10) (n % 10) done (omega arith) (omega arith)
      ∙ ap (λ m. decimal_value m done) whole
]

decimal_value-to_string : (n : ℕ) → n < word → decimal_value 0 (to_string n) ≡ n
unfolding to_string decimal_value
decimal_value-to_string n h = decimal_value-decimal (suc n) n [] (omega arith) h

decimal-cons :
    (fuel n c : ℕ) (done : Bytes) → (d : ℕ) × (s : Bytes) × (decimal fuel n (c ∷ done) ≡ d ∷ s)
unfolding decimal
decimal-cons zero n c done = (c, done, refl)
decimal-cons (suc fuel) n c done = elim (Bool-cases (n / 10 == 0)) [
  | inl e ↦ (48 + n % 10, c ∷ done, rw (e, decimal) refl)
  | inr e ↦
      let (d, s, h) = decimal-cons fuel (n / 10) (48 + n % 10) (c ∷ done) in
      (d, s, rw (e, decimal) h)
]

to_string-cons : (n : ℕ) → (d : ℕ) × (s : Bytes) × (to_string n ≡ d ∷ s)
unfolding to_string decimal
to_string-cons n = elim (Bool-cases (n / 10 == 0)) [
  | inl e ↦ (48 + n % 10, [], rw (e, decimal) refl)
  | inr e ↦ let (d, s, h) = decimal-cons n (n / 10) (48 + n % 10) [] in (d, s, rw (e, decimal) h)
]

decimal_value-first :
    (c : ℕ) (s : Bytes) (n : ℕ) → decimal_value 0 (c ∷ s) ≡ n → n < minus_one → is_digit c ≡ true
unfolding decimal_value
decimal_value-first c s n h k = elim (Bool-cases (is_digit c)) [
  | inl e ↦ e
  | inr e ↦ absurd (omega (arith, h, rw e at h))
]

code_point-decimal :
    (c : ℕ) (s : Bytes) (n : ℕ)
    → decimal_value 0 (c ∷ s) ≡ n
    → n < minus_one
    → code_point (c ∷ s) ≡ n
unfolding code_point
code_point-decimal c s n h k = go s h
  where
    digit : (s : Bytes) → decimal_value 0 (c ∷ s) ≡ n → (c == b'x' || c == b'X') ≡ false
    digit s h = ground (arith, decimal_value-first c s n h k)

    go : (s : Bytes) → decimal_value 0 (c ∷ s) ≡ n → code_point (c ∷ s) ≡ n
    go [] h = rw (digit [] h) h
    go (d ∷ s) h = rw (digit (d ∷ s) h) h

-- The only name in the table that begins as a number does is that of the apostrophe.
look_up-number :
    (s : Bytes)
    → (s ≡ codes "39") × (look_up (b'#' ∷ s) named ≡ some (b'\'' ∷ []))
      ⊎ (look_up (b'#' ∷ s) named ≡ none)
unfolding look_up named
look_up-number s = elim (bytes_eq_cases (codes "39") s) [
  | inl (e, h) ↦ inl (sym h, rw e refl)
  | inr (e, h) ↦ inr (rw e refl)
]

numeric_entity-encode :
    (s : Bytes) (n : ℕ) → code_point s ≡ n → n ≤ 0x10FFFF → numeric_entity (b'#' ∷ s) ≡ encode n
unfolding numeric_entity
numeric_entity-encode s n e h = rw (e, le→leb n 0x10FFFF h) (encode_point-encode n)

code_point-to_string : (n : ℕ) → n < minus_one → code_point (to_string n) ≡ n
code_point-to_string n h =
    let (c, s, e) = to_string-cons n in
    let value : decimal_value 0 (c ∷ s) ≡ n =
      ap (decimal_value 0) (sym e) ∙ decimal_value-to_string n (omega arith) in
    ap code_point e ∙ code_point-decimal c s n value h

apostrophe : (n : ℕ) → n ≡ 39 → b'\'' ∷ [] ≡ encode n
unfolding encode
apostrophe n h = rw h refl

-- The entity with the decimal number of a code point of Unicode stands for the character that
-- src/util/Utf8.cpp encodes.
pub append_entity-encode : (n : ℕ) → n ≤ 0x10FFFF → append_entity (b'#' ∷ to_string n) ≡ encode n
unfolding append_entity entity_or decimal_value
append_entity-encode n h =
    let name = b'#' ∷ to_string n in
    elim (look_up-number (to_string n)) [
      | inl (e, found) ↦
          ap (entity_or name) found
          ∙ apostrophe n (sym (decimal_value-to_string n (omega arith)) ∙ ap (decimal_value 0) e)
      | inr missing ↦
          ap (entity_or name) missing
          ∙ numeric_entity-encode (to_string n) n (code_point-to_string n (omega arith)) h
    ]
