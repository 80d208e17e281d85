-- ===== src/Net/Html/Tidy.antt =====
-- What the conversion of a page yields.
use simple_coder.Prelude.{
  Bool, Bool-cases, Bytes, [], ap, arith, false, if◌then◌else◌, inl, inr, lt→ltb, min, not, refl,
  some, suc, true, zero, ℕ, ◌&&◌, ◌++◌, ◌+◌, ◌==◌, ◌||◌, ◌∙◌, ◌∷◌, ◌≡◌, ◌⊎◌,
}
use simple_coder.Net.Html.Ends.{strip_tags-some, decode_entities-some}
use simple_coder.Net.Html.{Blank, no_blank, gap, collapse_from, collapse_ws, is_html, html_to_text}

-- What stands in front: nothing, a byte that is no blank, a space, one newline or two.
data Before : Type 0 where
  nothing solid spaced newline two_newlines : Before

abbrev may_space : Before → Bool
may_space solid = true
may_space before = false

abbrev may_break : Before → Bool
may_break solid = true
may_break newline = true
may_break before = false

abbrev broken : Before → Before
broken newline = two_newlines
broken before = newline

abbrev may_end : Before → Bool
may_end nothing = true
may_end solid = true
may_end before = false

-- A text without blanks at its ends, without tabs and carriage returns, whose spaces stand alone
-- between two other bytes, as its newlines do alone or in pairs.
is_tidy : Before → Bytes → Bool
is_tidy before [] = may_end before
is_tidy before (c ∷ s) =
    if c == 32
    then may_space before && is_tidy spaced s
    else if c == 10
    then may_break before && is_tidy (broken before) s
    else not (c == 9 || c == 13) && is_tidy solid s

pub IsTidy : Bytes → Type 0
IsTidy s = is_tidy nothing s ≡ true

abbrev after : Blank → Before
after b = if b.seen then solid else nothing

-- The gap ends in front of a byte that is no blank.
gap-tidy :
    (b : Blank) (c : ℕ) (s : Bytes)
    → (c == 32 || c == 9 || c == 13) ≡ false
    → (c == 10) ≡ false
    → is_tidy solid s ≡ true
    → is_tidy (after b) (gap b ++ c ∷ s) ≡ true
unfolding gap is_tidy
gap-tidy b c s h k t = go b.seen b.newlines b.space
  where
    body : (before : Before) → is_tidy before (c ∷ s) ≡ true
    body before = ground (arith, h, k, t)

    go :
        (seen : Bool) (newlines : ℕ) (space : Bool)
        → let b : Blank = record { space = space; newlines = newlines; seen = seen } in
          is_tidy (after b) (gap b ++ c ∷ s) ≡ true
    go false newlines space = body nothing
    go true zero false = body solid
    go true zero true = body spaced
    go true (suc zero) space = body newline
    go true (suc (suc n)) space =
        let two : min (suc (suc n)) 2 ≡ 2 = omega arith in
        rw (lt→ltb 0 (suc (suc n)) (omega arith), two) (body two_newlines)

collapse_from-tidy : (b : Blank) (s : Bytes) → is_tidy (after b) (collapse_from b s) ≡ true
unfolding collapse_from is_tidy
collapse_from-tidy b [] = elim (Bool-cases b.seen) [ inl e ↦ rw e refl | inr e ↦ rw e refl ]
collapse_from-tidy b (c ∷ s) = elim (Bool-cases (c == 32 || c == 9 || c == 13)) [
  | inl e ↦ rw e (collapse_from-tidy (record b { space = true }) s)
  | inr e ↦ elim (Bool-cases (c == 10)) [
    | inl k ↦
        rw (e, k) (collapse_from-tidy (record b { space = false; newlines = b.newlines + 1 }) s)
    | inr k ↦ rw (e, k) (gap-tidy b c _ e k (collapse_from-tidy (no_blank true) s))
  ]
]

-- The bytes that are no blanks.
pub solid_of : Bytes → Bytes
solid_of [] = []
solid_of (c ∷ s) = if (c == 32 || c == 9 || c == 13) || c == 10 then solid_of s else c ∷ solid_of s

gap-solid : (b : Blank) (s : Bytes) → solid_of (gap b ++ s) ≡ solid_of s
unfolding gap solid_of
gap-solid b s = go b.seen b.newlines b.space
  where
    go :
        (seen : Bool) (newlines : ℕ) (space : Bool)
        → let b : Blank = record { space = space; newlines = newlines; seen = seen } in
          solid_of (gap b ++ s) ≡ solid_of s
    go false newlines space = refl
    go true zero false = refl
    go true zero true = refl
    go true (suc zero) space = refl
    go true (suc (suc n)) space =
        let two : min (suc (suc n)) 2 ≡ 2 = omega arith in
        rw (lt→ltb 0 (suc (suc n)) (omega arith), two) refl

solid_of-solid :
    (c : ℕ) (s : Bytes)
    → (c == 32 || c == 9 || c == 13) ≡ false
    → (c == 10) ≡ false
    → solid_of (c ∷ s) ≡ c ∷ solid_of s
unfolding solid_of
solid_of-solid c s h k = rw (h, k) refl

collapse_from-solid : (b : Blank) (s : Bytes) → solid_of (collapse_from b s) ≡ solid_of s
unfolding collapse_from solid_of
collapse_from-solid b [] = refl
collapse_from-solid b (c ∷ s) = elim (Bool-cases (c == 32 || c == 9 || c == 13)) [
  | inl e ↦ rw e (collapse_from-solid (record b { space = true }) s)
  | inr e ↦ elim (Bool-cases (c == 10)) [
    | inl k ↦
        rw (e, k) (collapse_from-solid (record b { space = false; newlines = b.newlines + 1 }) s)
    | inr k ↦
        rw (e, k)
          (gap-solid b _
            ∙ solid_of-solid c (collapse_from (no_blank true) s) e k
            ∙ ap (◌∷◌ c) (collapse_from-solid (no_blank true) s))
  ]
]

-- Collapsing blanks yields a tidy text, and keeps every byte that is no blank, in its order.
pub collapse_ws-IsTidy :
    (s : Bytes) → IsTidy (collapse_ws s) × (solid_of (collapse_ws s) ≡ solid_of s)
unfolding collapse_ws IsTidy
collapse_ws-IsTidy s =
    (collapse_from-tidy (no_blank false) s, collapse_from-solid (no_blank false) s)

-- Every page is converted, however its tags and entities are broken, whatever its content type says:
-- the result is the page itself, where it is not taken for HTML, or a tidy text.
pub html_to_text-IsTidy :
    (body content_type : Bytes)
    → (t : Bytes) × (html_to_text body content_type ≡ some t)
      × ((is_html body content_type ≡ false) × (t ≡ body) ⊎ IsTidy t)
unfolding html_to_text
html_to_text-IsTidy body content_type = elim (Bool-cases (is_html body content_type)) [
  | inr e ↦ (body, rw e refl, inl (e, refl))
  | inl e ↦
      let (stripped, h) = strip_tags-some body in
      let (decoded, k) = decode_entities-some stripped in
      (collapse_ws decoded, rw (e, h, k) refl, inr ((collapse_ws-IsTidy decoded).0))
]
