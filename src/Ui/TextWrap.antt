-- ===== src/Ui/TextWrap.antt =====
-- src/ui/TextWrap.cpp: text as lines of a given width. The loop that breaks a long word has fuel, and
-- `none` says that it ran out: TextWrap/Ends shows that it never does.
pub mod Ends
pub mod Ink
use simple_coder.Prelude.{
  Bytes, List, Option, [], cut_lines, drop, if◌then◌else◌, is_empty, leb, length, ltb, max, none,
  some, suc, take, zero, ℕ, ◌++◌, ◌+◌, ◌==◌, ◌>>=◌, ◌∷◌,
}
use simple_coder.Util.Utf8.{next_boundary, count}

-- Up to `n` steps of `next_boundary`.
unfoldable pub advance : Bytes → ℕ → ℕ → ℕ
advance word zero i = i
advance word (suc n) i =
    let next = advance word n (next_boundary word i) in if ltb i (length word) then next else i

-- The first `n` characters.
unfoldable pub take_cols : Bytes → ℕ → Bytes
unfolding advance
take_cols word n = take (advance word n 0) word

-- The lines that are finished, and the one that is being filled with its width.
pub record Wrapped : Type 0 where
  pub out : List Bytes
  pub line : Bytes
  pub line_cols : ℕ

-- `if (!line.empty()) { out.push_back(line); line.clear(); line_cols = 0; }`
unfoldable pub flush : Wrapped → Wrapped
flush w =
    if is_empty w.line then w else record { out = w.out ++ w.line ∷ []; line = []; line_cols = 0 }

-- `while (cols(word) > width)`: the word that is left fits a line.
unfoldable pub hard_break : ℕ → ℕ → Bytes → Wrapped → Option (Bytes × Wrapped)
unfolding flush take_cols
hard_break zero width word w = none
hard_break (suc fuel) width word w =
    let chunk = take_cols word width in
    let rest =
      hard_break fuel width (drop (length chunk) word)
        (record (flush w) { out = (flush w).out ++ chunk ∷ [] }) in
    if ltb width (count word) then rest else some (word, w)

-- What follows that loop: the word joins the line, or begins one.
unfoldable pub join_word : ℕ → Bytes × Wrapped → Wrapped
join_word width (word, w) =
    if is_empty w.line
    then record w { line = word; line_cols = count word }
    else if leb (w.line_cols + 1 + count word) width
    then record w { line = w.line ++ 32 ∷ word; line_cols = w.line_cols + (1 + count word) }
    else record { out = w.out ++ w.line ∷ []; line = word; line_cols = count word }

unfoldable pub place_word : ℕ → Bytes → Wrapped → Option Wrapped
unfolding hard_break join_word
place_word width word w =
    hard_break (suc (length word)) width word w >>= λ r. some (join_word width r)

unfoldable pub push_word : Bytes → List Bytes → List Bytes
push_word [] words = words
push_word (c ∷ word) words = (c ∷ word) ∷ words

-- The words between runs of blanks; `word` is the one that is being read.
unfoldable pub words : Bytes → Bytes → List Bytes
unfolding push_word
words word [] = push_word word []
words word (c ∷ s) =
    let next = words [] s in
    let more = words (word ++ c ∷ []) s in if c == 32 then push_word word next else more

unfoldable pub place_words : ℕ → List Bytes → Wrapped → Option Wrapped
unfolding place_word
place_words width [] w = some w
place_words width (word ∷ rest) w = do
  placed ← place_word width word w
  place_words width rest placed

unfoldable pub wrap_paragraph : ℕ → Bytes → List Bytes → Option (List Bytes)
unfolding place_words words flush
wrap_paragraph width [] out = some (out ++ [] ∷ [])
wrap_paragraph width (c ∷ s) out = do
  w ← place_words width (words [] (c ∷ s)) (record { out = out; line = []; line_cols = 0 })
  some (flush w).out

unfoldable pub wrap_paragraphs : ℕ → List Bytes → List Bytes → Option (List Bytes)
unfolding wrap_paragraph
wrap_paragraphs width [] out = some out
wrap_paragraphs width (para ∷ paras) out = do
  more ← wrap_paragraph width para out
  wrap_paragraphs width paras more

-- A width below one, negative ones included, counts as one.
unfoldable pub wrap_text : Bytes → ℕ → Option (List Bytes)
unfolding wrap_paragraphs cut_lines
wrap_text text width = wrap_paragraphs (max 1 width) (cut_lines text) []
