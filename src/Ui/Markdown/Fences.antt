-- ===== src/Ui/Markdown/Fences.antt =====
-- Fenced code: which lines `markdown_lines` puts out, and which it leaves as they are.

use simple_coder.Prelude.{
  All, Bool, Bytes, List, [], ap, append-nil, false, map, not, refl, sym, true, ◌++◌, ◌∙◌, ◌∷◌, ◌≡◌,
}
use simple_coder.Ui.Markdown.{MdKind, MdLine, ltrim, is_fence, classify, cons_some, classify_lines}

abbrev pub IsFence : Bytes → Type 0
IsFence line = is_fence (ltrim line) ≡ true

abbrev pub IsInner : Bytes → Type 0
IsInner line = is_fence (ltrim line) ≡ false

abbrev pub code_line : Bytes → MdLine
code_line line = record { text = line; kind = MdKind.code }

classify_lines-fence :
    (in_code : Bool) (line : Bytes) (lines : List Bytes)
    → IsFence line
    → classify_lines in_code (line ∷ lines) ≡ classify_lines (not in_code) lines
unfolding classify_lines classify cons_some
classify_lines-fence in_code line lines h = rw h refl

classify_lines-inner :
    (body lines : List Bytes)
    → All IsInner body
    → classify_lines true (body ++ lines) ≡ map code_line body ++ classify_lines true lines
unfolding classify_lines classify cons_some
classify_lines-inner [] lines h = refl
classify_lines-inner (line ∷ body) lines (h, hs) =
    rw h (ap (◌∷◌ (code_line line)) (classify_lines-inner body lines hs))

-- Where a line opens fenced code, the lines up to the next fence are put out as code byte for byte,
-- neither fence is put out, and the lines behind are read as ordinary text again. Where no fence
-- follows, the code goes on to the end.
pub classify_lines-fenced :
    (opening closing : Bytes) (body lines : List Bytes)
    → IsFence opening
    → IsFence closing
    → All IsInner body
    → (classify_lines false (opening ∷ (body ++ closing ∷ lines))
        ≡ map code_line body ++ classify_lines false lines)
      × (classify_lines false (opening ∷ body) ≡ map code_line body)
unfolding classify_lines
classify_lines-fenced opening closing body lines ho hc hb = (
  classify_lines-fence false opening _ ho
      ∙ classify_lines-inner body (closing ∷ lines) hb
      ∙ ap (◌++◌ (map code_line body)) (classify_lines-fence true closing lines hc),
  classify_lines-fence false opening body ho
      ∙ ap (classify_lines true) (sym (append-nil body))
      ∙ classify_lines-inner body [] hb
      ∙ append-nil (map code_line body),
)
