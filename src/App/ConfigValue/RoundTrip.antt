-- ===== src/App/ConfigValue/RoundTrip.antt =====
-- Every string can be written as a quoted value.
use simple_coder.Prelude.{
  ==_iff, Bool-cases, Bytes, [], ap, arith, back_or-append, codes, drop, false, if◌then◌else◌, inl,
  inr, is_space, leb, length, length-append, le→leb, refl, suc, sym, take, take-append,
  trim_by-append, true, ℕ, ◌++◌, ◌-◌, ◌==◌, ◌∙◌, ◌∷◌, ◌≡◌,
}
use simple_coder.App.ConfigValue.{escaped, unescape_from, is_quoted, trim, parse_value}

-- How to write a character between the quotes.
unfoldable pub escape_char : ℕ → Bytes
escape_char c =
    if c == 10
    then codes "\\n"
    else if c == 9
    then codes "\\t"
    else if c == 34
    then codes "\\\""
    else if c == 92
    then codes "\\\\"
    else c ∷ []

unfoldable pub escape : Bytes → Bytes
escape [] = []
escape (c ∷ s) = escape_char c ++ escape s

-- A value in quotes.
unfoldable pub quote : Bytes → Bytes
quote s = 34 ∷ escape s ++ 34 ∷ []

unescape_from-plain :
    (c : ℕ) (t : Bytes)
    → (c == 92) ≡ false
    → unescape_from false (c ∷ t) ≡ c ∷ unescape_from false t
unfolding unescape_from
unescape_from-plain c t h = rw (h, unescape_from) refl

unescape_from-escape_char :
    (c : ℕ) (t : Bytes) → unescape_from false (escape_char c ++ t) ≡ c ∷ unescape_from false t
unfolding escape_char unescape_from escaped
unescape_from-escape_char c t = elim (Bool-cases (c == 10)) [
  | inl e ↦ rw e (ap (λ (x : ℕ). x ∷ unescape_from false t) (sym ((==_iff c 10).0 e)))
  | inr e ↦ elim (Bool-cases (c == 9)) [
    | inl f ↦ rw (e, f) (ap (λ (x : ℕ). x ∷ unescape_from false t) (sym ((==_iff c 9).0 f)))
    | inr f ↦ elim (Bool-cases (c == 34)) [
      | inl g ↦ rw (e, f, g) (ap (λ (x : ℕ). x ∷ unescape_from false t) (sym ((==_iff c 34).0 g)))
      | inr g ↦ elim (Bool-cases (c == 92)) [
        | inl k ↦
            rw (e, f, g, k) (ap (λ (x : ℕ). x ∷ unescape_from false t) (sym ((==_iff c 92).0 k)))
        | inr k ↦ rw (e, f, g, k) (unescape_from-plain c t k)
      ]
    ]
  ]
]

unescape_from-escape : (s : Bytes) → unescape_from false (escape s) ≡ s
unfolding escape unescape_from
unescape_from-escape [] = refl
unescape_from-escape (c ∷ s) =
    unescape_from-escape_char c (escape s) ∙ ap (◌∷◌ c) (unescape_from-escape s)

quote-is_quoted : (s : Bytes) → is_quoted (quote s) ≡ true
unfolding is_quoted quote
quote-is_quoted s =
    let size : leb 2 (length (34 ∷ escape s ++ 34 ∷ [])) ≡ true =
      le→leb 2 _ (omega (arith, length-append (escape s) (34 ∷ []))) in
    rw (size, back_or-append (escape s) 34 34) refl

trim-quote : (s : Bytes) → trim (quote s) ≡ quote s
unfolding trim quote
trim-quote s = trim_by-append is_space 34 (escape s) 34 refl refl

quote_inner : (s : Bytes) → take (length (quote s) - 2) (drop 1 (quote s)) ≡ escape s
unfolding quote
quote_inner s =
    let e = escape s in
    let size : suc (length (e ++ 34 ∷ [])) - 2 ≡ length e =
      omega (arith, length-append e (34 ∷ [])) in
    rw size (take-append e (34 ∷ []))

-- A value that is written in quotes, with the escapes for the newline, the tab, the quote and the
-- backslash, is read back as it was, whatever string it is.
pub parse_value-quote : (s : Bytes) → parse_value (quote s) ≡ s
unfolding parse_value
parse_value-quote s = rw (trim-quote s, quote-is_quoted s, quote_inner s) (unescape_from-escape s)
