-- ===== src/Ui/TextWrap/Ends.antt =====
-- Wrapping ends: the fuel of the loop that breaks a word is enough.
use simple_coder.Prelude.{
  Bool-cases, Bytes, List, Runs, Runs->>=, [], arith, cut_lines, inl, inr, length, length-drop,
  length-take, ltb, max, refl, some, suc, zero, ℕ, ◌++◌, ◌<◌, ◌∷◌, ◌≡◌, ◌≤◌,
}
use simple_coder.Util.Utf8.{next_boundary, count, count_from}
use simple_coder.Util.Utf8.Boundary.{boundary_progress}
use simple_coder.Ui.TextWrap.{
  advance, take_cols, Wrapped, hard_break, place_word, place_words, wrap_paragraph, wrap_paragraphs,
  wrap_text,
}

advance-le :
    (word : Bytes) (n i : ℕ)
    → i ≤ length word
    → (i ≤ advance word n i) × (advance word n i ≤ length word)
unfolding advance
advance-le word zero i h = ground arith
advance-le word (suc n) i h =
    let p = boundary_progress word i h in
    ground (arith, p, advance-le word n (next_boundary word i) (p.3))

-- A step is made when there is a character.
advance-pos : (word : Bytes) (n : ℕ) → 0 < n → 0 < length word → 0 < advance word n 0
unfolding advance
advance-pos word zero h k = absurd (omega arith)
advance-pos word (suc n) h k =
    let p = boundary_progress word 0 (omega arith) in
    ground (arith, p, advance-le word n (next_boundary word 0) (p.3))

pub take_cols-pos : (word : Bytes) (n : ℕ) → 0 < n → 0 < length word → 0 < length (take_cols word n)
unfolding take_cols
take_cols-pos word n h k =
    ground (arith, advance-pos word n h k, length-take (advance word n 0) word)

count-pos : (word : Bytes) → 0 < count word → 0 < length word
unfolding count count_from
count-pos [] h = h
count-pos (c ∷ word) h = omega arith

hard_break-some :
    (fuel width : ℕ) (word : Bytes) (w : Wrapped)
    → 0 < width
    → length word < fuel
    → (r : Bytes × Wrapped) × (hard_break fuel width word w ≡ some r)
unfolding hard_break
hard_break-some zero width word w h k = absurd (omega arith)
hard_break-some (suc fuel) width word w h k = elim (Bool-cases (ltb width (count word))) [
  | inr fits ↦ ((word, w), rw fits refl)
  | inl long ↦
      let nonempty = count-pos word (ground (arith, long)) in
      let shorter = take_cols-pos word width h nonempty in
      rw long (
        hard_break-some fuel width _ _ h
          (omega (arith, length-drop (length (take_cols word width)) word)))
]

module _ (width : ℕ) (wide : 0 < width) where
  place_words-some : (words : List Bytes) (w : Wrapped) → Runs (place_words width words w)
  unfolding place_words place_word
  place_words-some [] w = (w, refl)
  place_words-some (word ∷ words) w =
      Runs->>= (place_word width word w) (place_words width words)
        (Runs->>= (hard_break (suc (length word)) width word w) _
          (hard_break-some (suc (length word)) width word w wide (omega arith)) (λ r. (_, refl)))
        (place_words-some words)

  wrap_paragraphs-some :
      (paras : List Bytes) (out : List Bytes) → Runs (wrap_paragraphs width paras out)
  unfolding wrap_paragraphs wrap_paragraph
  wrap_paragraphs-some [] out = (out, refl)
  wrap_paragraphs-some ([] ∷ paras) out = wrap_paragraphs-some paras (out ++ [] ∷ [])
  wrap_paragraphs-some ((c ∷ para) ∷ paras) out =
      Runs->>= (wrap_paragraph width (c ∷ para) out) (wrap_paragraphs width paras)
        (Runs->>= (place_words width _ _) _ (place_words-some _ _) (λ w. (_, refl)))
        (wrap_paragraphs-some paras)

pub wrap_text-some :
    (text : Bytes) (width : ℕ) → (lines : List Bytes) × (wrap_text text width ≡ some lines)
unfolding wrap_text
wrap_text-some text width = wrap_paragraphs-some (max 1 width) (omega arith) (cut_lines text) []
