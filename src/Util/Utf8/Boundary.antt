-- ===== src/Util/Utf8/Boundary.antt =====
-- Character boundaries: `prev_boundary`, `next_boundary` and `snap_boundary` against a text that is
-- made of characters, and on any bytes.
use simple_coder.Prelude.{
  All, Bytes, List, [], ap, arith, false, get_or, length, length-append, refl, suc, true, zero, ℕ,
  ◌++◌, ◌+◌, ◌-◌, ◌<◌, ◌∙◌, ◌∷◌, ◌≡◌, ◌≤◌,
}
use simple_coder.Util.Utf8.Encode.{IsChar}
use simple_coder.Util.Utf8.{
  seq_len, is_cont, back_to_lead, prev_boundary, next_boundary, snap_boundary, count_from, count,
}

pub seq_len_bounds : (b : ℕ) → (1 ≤ seq_len b) × (seq_len b ≤ 4)
unfolding seq_len
seq_len_bounds b = ground arith

back_to_lead-le : (s : Bytes) (i : ℕ) → back_to_lead s i ≤ i
unfolding back_to_lead
back_to_lead-le s zero = omega arith
back_to_lead-le s (suc i) = ground (arith, back_to_lead-le s i)

-- On any bytes, `prev_boundary` moves back unless it is at the start, and `next_boundary` moves on
-- unless it is at the end, and neither leaves the text.
pub boundary_progress :
    (s : Bytes) (pos : ℕ)
    → pos ≤ length s
    → (0 < pos → prev_boundary s pos < pos)
      × (prev_boundary s pos ≤ length s)
      × (pos < length s → pos < next_boundary s pos)
      × (next_boundary s pos ≤ length s)
unfolding prev_boundary next_boundary
boundary_progress s pos h = (
  λ p. ground (arith, back_to_lead-le s (pos - 1)),
  ground (arith, back_to_lead-le s (pos - 1)),
  λ p. ground (arith, seq_len_bounds (get_or s pos 0)),
  ground arith,
)

get_or-append {ℓ} :
    {A : Type ℓ} (xs ys : List A) (i : ℕ) (d : A)
    → get_or (xs ++ ys) (length xs + i) d ≡ get_or ys i d
get_or-append [] ys i d = let e : 0 + i ≡ i = omega arith in rw e refl
get_or-append (x ∷ xs) ys i d =
    let e : suc (length xs) + i ≡ suc (length xs + i) = omega arith in
    rw e (get_or-append xs ys i d)

All-get_or {ℓ κ} :
    {A : Type ℓ} (P : A → Type κ) (xs ys : List A) (i : ℕ) (d : A)
    → All P xs
    → i < length xs
    → P (get_or (xs ++ ys) i d)
All-get_or P [] ys i d h lt = absurd (omega arith)
All-get_or P (x ∷ xs) ys zero d h lt = h.0
All-get_or P (x ∷ xs) ys (suc i) d h lt = All-get_or P xs ys i d h.1 (omega arith)

back_to_lead-lead : (s : Bytes) (i : ℕ) → is_cont (get_or s i 0) ≡ false → back_to_lead s i ≡ i
unfolding back_to_lead
back_to_lead-lead s zero h = refl
back_to_lead-lead s (suc i) h = rw h

back_to_lead-cont :
    (s : Bytes) (i : ℕ)
    → is_cont (get_or s (suc i) 0) ≡ true
    → back_to_lead s (suc i) ≡ back_to_lead s i
unfolding back_to_lead
back_to_lead-cont s i h = rw h

-- From any continuation byte of a character the walk ends at its lead.
back_to_lead-conts :
    (before conts after : Bytes) (lead k : ℕ)
    → is_cont lead ≡ false
    → All (λ b. is_cont b ≡ true) conts
    → k ≤ length conts
    → back_to_lead (before ++ lead ∷ (conts ++ after)) (length before + k) ≡ length before
back_to_lead-conts before conts after lead zero hl hc h =
    let e : length before + 0 ≡ length before = omega arith in
    back_to_lead-lead _ (length before + 0)
      (rw (get_or-append before (lead ∷ (conts ++ after)) 0 0) hl)
    ∙ e
back_to_lead-conts before conts after lead (suc k) hl hc h =
    let e : length before + suc k ≡ suc (length before + k) = omega arith in
    let s = before ++ lead ∷ (conts ++ after) in
    let cont : is_cont (get_or s (length before + suc k) 0) ≡ true =
      rw (get_or-append before (lead ∷ (conts ++ after)) (suc k) 0)
        (All-get_or (λ b. is_cont b ≡ true) conts after k 0 hc (omega arith)) in
    rw e (
      back_to_lead-cont s (length before + k) (rw e at cont)
      ∙ back_to_lead-conts before conts after lead k hl hc (omega arith))

module _ (before conts after : Bytes) (lead : ℕ) where
  abbrev around : Bytes
  around = before ++ (lead ∷ (conts ++ after))

  length-around : length around ≡ length before + suc (length conts + length after)
  length-around =
      omega (arith, length-append before (lead ∷ (conts ++ after)), length-append conts after)

  get_or-around : get_or around (length before) 0 ≡ lead
  get_or-around =
      let e : length before + 0 ≡ length before = omega arith in
      rw e at (get_or-append before (lead ∷ (conts ++ after)) 0 0)

  next-char :
      seq_len lead ≡ suc (length conts)
      → next_boundary around (length before) ≡ length before + suc (length conts)
  unfolding next_boundary
  next-char h = rw (get_or-around, h, length-around) (ground arith)

  prev-char :
      is_cont lead ≡ false
      → All (λ b. is_cont b ≡ true) conts
      → prev_boundary around (length before + suc (length conts)) ≡ length before
  unfolding prev_boundary
  prev-char hl hc =
      let e : length before + suc (length conts) - 1 ≡ length before + length conts = omega arith in
      ground
        (arith, e, back_to_lead-conts before conts after lead (length conts) hl hc (omega arith))

  snap-char :
      (k : ℕ)
      → is_cont lead ≡ false
      → All (λ b. is_cont b ≡ true) conts
      → k < suc (length conts)
      → snap_boundary around (length before + k) ≡ length before
  unfolding snap_boundary
  snap-char zero hl hc h =
      let e : length before + 0 ≡ length before = omega arith in
      rw (e, get_or-around, hl) (ground (arith, length-around))
  snap-char (suc k) hl hc h = ground (
    arith,
    length-around,
    All-get_or (λ b. is_cont b ≡ true) conts after k 0 hc (omega arith),
    get_or-append before (lead ∷ (conts ++ after)) (suc k) 0,
    back_to_lead-conts before conts after lead (suc k) hl hc (omega arith),
  )

-- Around a character that stands between `before` and `after`, `next_boundary` and `prev_boundary`
-- go from its start to its end and back, and `snap_boundary` goes to its start from anywhere in it.
pub boundary-IsChar :
    (before after : Bytes) (c : Bytes)
    → IsChar c
    → (next_boundary (before ++ (c ++ after)) (length before) ≡ length before + length c)
      × (prev_boundary (before ++ (c ++ after)) (length before + length c) ≡ length before)
      × ((k : ℕ)
          → k < length c
          → snap_boundary (before ++ (c ++ after)) (length before + k) ≡ length before)
boundary-IsChar before after c ch = rw ch.splits (
  next-char before ch.conts after ch.lead size,
  prev-char before ch.conts after ch.lead ch.lead_not_cont ch.all_cont,
  λ k h. snap-char before ch.conts after ch.lead k ch.lead_not_cont ch.all_cont h,
)
  where
    size : seq_len ch.lead ≡ suc (length ch.conts)
    size = ch.told ∙ ap length ch.splits

count_from-skip : (conts s : Bytes) → count_from (length conts) (conts ++ s) ≡ count_from 0 s
unfolding count_from
count_from-skip [] s = refl
count_from-skip (b ∷ conts) s = count_from-skip conts s

-- A character in front counts for one, whatever follows it.
pub count-IsChar : (c s : Bytes) → IsChar c → count (c ++ s) ≡ suc (count s)
unfolding count count_from
count-IsChar c s ch =
    let size : seq_len ch.lead - 1 ≡ length ch.conts =
      omega (arith, ch.told, ap length ch.splits) in
    rw ch.splits (rw size (ap suc (count_from-skip ch.conts s)))
