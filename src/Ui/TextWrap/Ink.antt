-- ===== src/Ui/TextWrap/Ink.antt =====
-- Wrapping moves blanks and newlines only: everything else stays, in its order.
use simple_coder.Prelude.{
  >>=-eq-some, Bool-cases, Bytes, List, [], ap, append-nil, append_assoc, cut_lines, cut_lines-ink,
  drop, false, ink, ink-append, ink_lines, ink_lines-append, inl, inr, leb, length, ltb, max, refl,
  some, suc, sym, take, true, zero, ℕ, ◌++◌, ◌+◌, ◌==◌, ◌∙◌, ◌∷◌, ◌≡◌,
}
use mathlib.Core.Option.{some-injective}
use simple_coder.Util.Utf8.{count}
use simple_coder.Ui.TextWrap.Ends.{wrap_text-some}
use simple_coder.Ui.TextWrap.{
  advance, take_cols, Wrapped, flush, hard_break, join_word, place_word, push_word, words,
  place_words, wrap_paragraph, wrap_paragraphs, wrap_text,
}

-- What the finished lines and the line being filled hold.
abbrev written : Wrapped → Bytes
written w = ink_lines w.out ++ ink w.line

ink_lines-last : (ls : List Bytes) (l : Bytes) → ink_lines (ls ++ l ∷ []) ≡ ink_lines ls ++ ink l
unfolding ink_lines
ink_lines-last ls l = ink_lines-append ls (l ∷ []) ∙ ap (◌++◌ (ink_lines ls)) (append-nil (ink l))

flush-written :
    (w : Wrapped) → (written (flush w) ≡ written w) × (ink_lines (flush w).out ≡ written w)
unfolding flush ink
flush-written w = go w.out w.line w.line_cols
  where
    go :
        (out : List Bytes) (line : Bytes) (n : ℕ)
        → let w : Wrapped = record { out = out; line = line; line_cols = n } in
          (written (flush w) ≡ written w) × (ink_lines (flush w).out ≡ written w)
    go out [] n = (refl, sym (append-nil (ink_lines out)))
    go out (c ∷ line) n =
        (append-nil _ ∙ ink_lines-last out (c ∷ line), ink_lines-last out (c ∷ line))

-- A chunk that is put out leaves what is written, with it behind.
push-written :
    (w : Wrapped) (chunk : Bytes)
    → written (record (flush w) { out = (flush w).out ++ chunk ∷ [] }) ≡ written w ++ ink chunk
unfolding flush ink
push-written w chunk = go w.out w.line w.line_cols
  where
    go :
        (out : List Bytes) (line : Bytes) (n : ℕ)
        → let w : Wrapped = record { out = out; line = line; line_cols = n } in
          written (record (flush w) { out = (flush w).out ++ chunk ∷ [] }) ≡ written w ++ ink chunk
    go out [] n =
        append-nil _
        ∙ ink_lines-last out chunk
        ∙ ap (λ t. t ++ ink chunk) (sym (append-nil (ink_lines out)))
    go out (c ∷ line) n =
        append-nil _
        ∙ ink_lines-last (out ++ (c ∷ line) ∷ []) chunk
        ∙ ap (λ t. t ++ ink chunk) (ink_lines-last out (c ∷ line))

-- A chunk is the front of the word.
take_cols-front :
    (word : Bytes) (n : ℕ) → take_cols word n ++ drop (length (take_cols word n)) word ≡ word
unfolding take_cols
take_cols-front word n = go (advance word n 0) word
  where
    go : (k : ℕ) (s : Bytes) → take k s ++ drop (length (take k s)) s ≡ s
    go zero s = refl
    go (suc k) [] = refl
    go (suc k) (c ∷ s) = ap (◌∷◌ c) (go k s)

hard_break-ink :
    (fuel width : ℕ) (word : Bytes) (w : Wrapped) (r : Bytes × Wrapped)
    → hard_break fuel width word w ≡ some r
    → written r.1 ++ ink r.0 ≡ written w ++ ink word
unfolding hard_break
hard_break-ink zero width word w r h = cc
hard_break-ink (suc fuel) width word w r h = elim (Bool-cases (ltb width (count word))) [
  | inr e ↦
      ap (λ (p : Bytes × Wrapped). written p.1 ++ ink p.0)
        (sym (some-injective (word, w) r (rw e at h)))
  | inl e ↦
      let chunk = take_cols word width in
      hard_break-ink fuel width _ _ r (rw e at h)
      ∙ ap (λ t. t ++ ink (drop (length chunk) word)) (push-written w chunk)
      ∙ append_assoc (written w) (ink chunk) (ink (drop (length chunk) word))
      ∙ ap (◌++◌ (written w))
          (sym (ink-append chunk (drop (length chunk) word)) ∙ ap ink (take_cols-front word width))
]

join_word-ink :
    (width : ℕ) (word : Bytes) (w : Wrapped)
    → written (join_word width (word, w)) ≡ written w ++ ink word
unfolding join_word ink
join_word-ink width word w = go w.out w.line w.line_cols
  where
    go :
        (out : List Bytes) (line : Bytes) (n : ℕ)
        → let w : Wrapped = record { out = out; line = line; line_cols = n } in
          written (join_word width (word, w)) ≡ written w ++ ink word
    go out [] n = ap (λ t. t ++ ink word) (sym (append-nil (ink_lines out)))
    go out (c ∷ line) n = elim (Bool-cases (leb (n + 1 + count word) width)) [
      | inl e ↦ rw e (
          ap (◌++◌ (ink_lines out)) (ink-append (c ∷ line) (32 ∷ word))
          ∙ sym (append_assoc (ink_lines out) (ink (c ∷ line)) (ink word)))
      | inr e ↦ rw e (ap (λ t. t ++ ink word) (ink_lines-last out (c ∷ line)))
    ]

place_words-ink :
    (width : ℕ) (words : List Bytes) (w v : Wrapped)
    → place_words width words w ≡ some v
    → written v ≡ written w ++ ink_lines words
unfolding place_words place_word ink_lines
place_words-ink width [] w v h =
    ap written (sym (some-injective w v h)) ∙ sym (append-nil (written w))
place_words-ink width (word ∷ after) w v h =
    let (placed, e, rest) = >>=-eq-some (place_word width word w) _ h in
    let (r, broken, joined) =
      >>=-eq-some (hard_break (suc (length word)) width word w) (λ r. some (join_word width r)) e in
    let here : written placed ≡ written w ++ ink word =
      ap written (sym (some-injective (join_word width r) placed joined))
      ∙ join_word-ink width r.0 r.1
      ∙ hard_break-ink (suc (length word)) width word w r broken in
    place_words-ink width after placed v rest
    ∙ ap (λ t. t ++ ink_lines after) here
    ∙ append_assoc (written w) (ink word) (ink_lines after)

words-ink : (word s : Bytes) → ink_lines (words word s) ≡ ink word ++ ink s
unfolding words push_word ink ink_lines
words-ink [] [] = refl
words-ink (c ∷ word) [] = refl
words-ink word (c ∷ s) = elim (Bool-cases (c == 32)) [
  | inl e ↦ cut e ∙ pushed word ∙ ap (◌++◌ (ink word)) (words-ink [] s ∙ sym (blank e))
  | inr e ↦
      more e
      ∙ words-ink (word ++ c ∷ []) s
      ∙ ap (λ t. t ++ ink s) (ink-append word (c ∷ []))
      ∙ append_assoc (ink word) (ink (c ∷ [])) (ink s)
      ∙ ap (◌++◌ (ink word)) (sym (ink-append (c ∷ []) s))
]
  where
    cut :
        (c == 32) ≡ true → ink_lines (words word (c ∷ s)) ≡ ink_lines (push_word word (words [] s))
    cut e = rw e refl

    more : (c == 32) ≡ false → ink_lines (words word (c ∷ s)) ≡ ink_lines (words (word ++ c ∷ []) s)
    more e = rw e refl

    pushed :
        (word : Bytes)
        → ink_lines (push_word word (words [] s)) ≡ ink word ++ ink_lines (words [] s)
    pushed [] = refl
    pushed (c ∷ word) = refl

    blank : (c == 32) ≡ true → ink (c ∷ s) ≡ ink s
    blank e = rw e refl

wrap_paragraphs-ink :
    (width : ℕ) (paras out lines : List Bytes)
    → wrap_paragraphs width paras out ≡ some lines
    → ink_lines lines ≡ ink_lines out ++ ink_lines paras
unfolding wrap_paragraphs wrap_paragraph ink_lines
wrap_paragraphs-ink width [] out lines h =
    ap ink_lines (sym (some-injective out lines h)) ∙ sym (append-nil (ink_lines out))
wrap_paragraphs-ink width ([] ∷ paras) out lines h =
    wrap_paragraphs-ink width paras (out ++ [] ∷ []) lines h
    ∙ ap (λ t. t ++ ink_lines paras) (ink_lines-last out [] ∙ append-nil (ink_lines out))
wrap_paragraphs-ink width ((c ∷ para) ∷ paras) out lines h =
    let (more, e, rest) = >>=-eq-some (wrap_paragraph width (c ∷ para) out) _ h in
    let start : Wrapped = record { out = out; line = []; line_cols = 0 } in
    let (w, placed, flushed) =
      >>=-eq-some (place_words width (words [] (c ∷ para)) start) (λ w. some (flush w).out) e in
    let here : ink_lines more ≡ ink_lines out ++ ink (c ∷ para) =
      ap ink_lines (sym (some-injective (flush w).out more flushed))
      ∙ (flush-written w).1
      ∙ place_words-ink width (words [] (c ∷ para)) start w placed
      ∙ ap (◌++◌ (ink_lines out ++ [])) (words-ink [] (c ∷ para))
      ∙ ap (λ t. t ++ ink (c ∷ para)) (append-nil (ink_lines out)) in
    wrap_paragraphs-ink width paras more lines rest
    ∙ ap (λ t. t ++ ink_lines paras) here
    ∙ append_assoc (ink_lines out) (ink (c ∷ para)) (ink_lines paras)

-- Whatever the text and the width, wrapping yields lines, and these hold every byte of the text that
-- is no blank and no newline, in its order, and no other such byte.
pub wrap_text-ink :
    (text : Bytes) (width : ℕ)
    → (lines : List Bytes) × (wrap_text text width ≡ some lines) × (ink_lines lines ≡ ink text)
unfolding wrap_text ink ink_lines
wrap_text-ink text width =
    let (lines, e) = wrap_text-some text width in
    (lines, e, wrap_paragraphs-ink (max 1 width) (cut_lines text) [] lines e ∙ cut_lines-ink text)
