-- ===== src/Tests/View.antt =====
-- Runs of the models of the chat view, its markdown and its wrapping.
use simple_coder.Prelude.{
  Bytes, List, [], bytes_eq, codes, false, ink, ink_lines, refl, some, ◌∷◌, ◌≡◌,
}
use mathlib.Core.Option
use simple_coder.Util.Utf8.{count, seq_len, next_boundary, utf8_text}
use simple_coder.Ui.TextWrap.{wrap_text}
use simple_coder.Ui.TextWrap.Ink.{wrap_text-ink}
use simple_coder.Ui.Markdown.{MdKind, is_fence, ltrim, markdown_lines, classify_lines}
use simple_coder.Ui.Markdown.Fences.{IsFence, IsInner, code_line, classify_lines-fenced}
use simple_coder.Ui.ChatView.{Style, Kind, Entry, ChatView}
use simple_coder.Ui.ChatView.Layout.{layout_styled, layout}

wrap_runs :
    wrap_text (codes "one two  abcdefgh\n\nx") 7
    ≡ some (codes "one two" ∷ codes "abcdefg" ∷ codes "h" ∷ [] ∷ codes "x" ∷ [])
unfolding wrap_text count seq_len next_boundary
wrap_runs = refl

wrap_text-ink_example :
    (lines : List Bytes) × (wrap_text (codes "abc de") 2 ≡ some lines)
    × (ink_lines lines ≡ ink (codes "abc de"))
wrap_text-ink_example = wrap_text-ink (codes "abc de") 2

markdown_runs :
    markdown_lines (codes "## Title\n```\n# no\n```\n1. x")
    ≡ record { text = codes "Title"; kind = MdKind.header }
      ∷ record { text = codes "# no"; kind = MdKind.code }
      ∷ record { text = codes "1. x"; kind = MdKind.list_item }
      ∷ []
unfolding markdown_lines bytes_eq
markdown_runs = refl

IsFence-here : IsFence (codes "  ```c")
unfolding is_fence ltrim bytes_eq
IsFence-here = refl

IsInner-here : IsInner (codes "# no")
unfolding is_fence ltrim bytes_eq
IsInner-here = refl

classify_lines-fenced_example :
    (classify_lines false (codes "  ```c" ∷ codes "# no" ∷ codes "  ```c" ∷ codes "x" ∷ [])
      ≡ code_line (codes "# no") ∷ classify_lines false (codes "x" ∷ []))
    × (classify_lines false (codes "  ```c" ∷ codes "# no" ∷ []) ≡ code_line (codes "# no") ∷ [])
classify_lines-fenced_example =
    classify_lines-fenced (codes "  ```c") (codes "  ```c") (codes "# no" ∷ []) (codes "x" ∷ [])
      IsFence-here IsFence-here (IsInner-here, tt)

abbrev thought : Entry
thought = record {
  speaker = codes "thinking";
  text = codes "hm";
  style = Style.dim;
  kind = Kind.thinking;
  collapsed = false;
}

abbrev said : Entry
said = record {
  speaker = codes "* ";
  text = codes "yes";
  style = Style.plain;
  kind = Kind.ordinary;
  collapsed = false;
}

abbrev two_entries : ChatView
two_entries = record { entries = thought ∷ said ∷ []; scroll_from_bottom = 7 }

layout_runs :
    layout 10 two_entries
    ≡ some ((0xE2 ∷ 0x96 ∷ 0xBE ∷ codes " thinking") ∷ codes "hm" ∷ [] ∷ codes "* yes" ∷ [])
unfolding layout layout_styled wrap_text count seq_len markdown_lines bytes_eq utf8_text
layout_runs = refl
