-- ===== src/Net/Html/Ends.antt =====
-- The conversion of a page ends: each round of its two loops takes at least one byte.
use simple_coder.Prelude.{
  Bool-cases, Bytes, Option, Runs, Runs->>=, [], arith, codes, inl, inr, leb, length, none, refl,
  some, suc, zero, ℕ, ◌+◌, ◌==◌, ◌>>=◌, ◌∷◌, ◌≤◌,
}
use simple_coder.Net.Html.{
  scan_all, find_ci, ci_starts_with, cut_at_semicolon, entity_in, next_entity, decode_entities,
  after_close, skip_element, next_text, strip_tags,
}

-- A round leaves no more than what follows its byte.
abbrev Shrinks : (ℕ → Bytes → Bytes × Bytes) → Type 0
Shrinks next = (c : ℕ) (s : Bytes) → length (next c s).1 ≤ length s

scan_all-some :
    (next : ℕ → Bytes → Bytes × Bytes) (fuel : ℕ) (s : Bytes)
    → Shrinks next
    → length s ≤ fuel
    → Runs (scan_all next fuel s)
unfolding scan_all
scan_all-some next fuel [] h k = ([], refl)
scan_all-some next zero (c ∷ s) h k = absurd (omega arith)
scan_all-some next (suc fuel) (c ∷ s) h k =
    Runs->>= (scan_all next fuel (next c s).1) _
      (scan_all-some next fuel (next c s).1 h (omega (arith, h c s))) (λ t. (_, refl))

-- A cut leaves less than it is given.
abbrev CutFits : Option (Bytes × Bytes) → ℕ → Type 0
CutFits none n = Unit
CutFits (some (name, rest)) n = length rest ≤ n

cut_at_semicolon-fits : (s : Bytes) → CutFits (cut_at_semicolon s) (length s)
unfolding cut_at_semicolon
cut_at_semicolon-fits [] = tt
cut_at_semicolon-fits (c ∷ s) = elim (Bool-cases (c == b';')) [
  | inl e ↦ rw e (omega arith)
  | inr e ↦ rw e (go (cut_at_semicolon s) (cut_at_semicolon-fits s))
]
  where
    go :
        (o : Option (Bytes × Bytes))
        → CutFits o (length s)
        → CutFits (o >>= λ cut. some (c ∷ cut.0, cut.1)) (suc (length s))
    go none h = tt
    go (some (name, rest)) h = omega (arith, h)

entity_in-fits :
    (s : Bytes) (o : Option (Bytes × Bytes))
    → CutFits o (length s)
    → length (entity_in s o).1 ≤ length s
unfolding entity_in
entity_in-fits s none h = omega arith
entity_in-fits s (some (name, rest)) h = elim (Bool-cases (leb (length name + 1) 10)) [
  | inl e ↦ rw e h
  | inr e ↦ rw e (omega arith)
]

next_entity-Shrinks : Shrinks next_entity
unfolding next_entity
next_entity-Shrinks c s = elim (Bool-cases (c == b'&')) [
  | inl e ↦ rw e (entity_in-fits s (cut_at_semicolon s) (cut_at_semicolon-fits s))
  | inr e ↦ rw e (omega arith)
]

pub decode_entities-some : (s : Bytes) → Runs (decode_entities s)
unfolding decode_entities
decode_entities-some s = scan_all-some next_entity (length s) s next_entity-Shrinks (omega arith)

after_close-le : (s : Bytes) → length (after_close s) ≤ length s
unfolding after_close
after_close-le [] = omega arith
after_close-le (c ∷ s) = ground (arith, after_close-le s)

abbrev RestFits : Option Bytes → ℕ → Type 0
RestFits none n = Unit
RestFits (some rest) n = length rest ≤ n

RestFits-suc : (o : Option Bytes) (n : ℕ) → RestFits o n → RestFits o (suc n)
RestFits-suc none n h = tt
RestFits-suc (some rest) n h = omega (arith, h)

find_ci-fits : (needle s : Bytes) → RestFits (find_ci needle s) (length s)
unfolding find_ci
find_ci-fits needle [] = tt
find_ci-fits needle (c ∷ s) = elim (Bool-cases (ci_starts_with (c ∷ s) needle)) [
  | inl e ↦ rw e (omega arith)
  | inr e ↦ rw e (RestFits-suc (find_ci needle s) (length s) (find_ci-fits needle s))
]

skip_element-le : (close s : Bytes) → length (skip_element close s) ≤ length s
unfolding skip_element
skip_element-le close s = go (find_ci close s) (find_ci-fits close s)
  where
    go :
        (o : Option Bytes)
        → RestFits o (length s)
        → length (elim o as (λ _. Bytes) [ none ↦ [] | some rest ↦ after_close rest ]) ≤ length s
    go none h = omega arith
    go (some rest) h = omega (arith, after_close-le rest, h)

next_text-Shrinks : Shrinks next_text
unfolding next_text
next_text-Shrinks c s = ground (
  arith,
  after_close-le s,
  skip_element-le (codes "</script") s,
  skip_element-le (codes "</style") s,
)

pub strip_tags-some : (s : Bytes) → Runs (strip_tags s)
unfolding strip_tags
strip_tags-some s = scan_all-some next_text (length s) s next_text-Shrinks (omega arith)
