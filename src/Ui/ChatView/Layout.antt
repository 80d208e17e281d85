-- ===== src/Ui/ChatView/Layout.antt =====
-- The layout of src/ui/ChatView.cpp, and the lines that `render` puts on the window, whose attributes
-- are not modelled. `none` is what is left open by the fuel of wrapping; ChatView/Scroll shows that it
-- does not come up.
use simple_coder.Prelude.{
  Bytes, List, Option, [], codes, cut_lines, drop, if◌then◌else◌, is_empty, length, map, min, some,
  take, to_string, ℕ, ◌++◌, ◌-◌, ◌==◌, ◌>>=◌, ◌||◌, ◌∷◌,
}
use simple_coder.Util.Utf8.{utf8_text}
use simple_coder.Ui.Markdown.{MdKind, MdLine, markdown_lines}
use simple_coder.Ui.TextWrap.{wrap_text}
use simple_coder.Ui.ChatView.{Style, Kind, Entry, DisplayLine, ChatView}

abbrev pub styled : Style → List Bytes → List DisplayLine
styled style = map (λ (l : Bytes). record { text = l; style = style })

unfoldable pub label_of : Kind → Bytes → Bytes
label_of Kind.thinking speaker = codes "thinking"
label_of kind speaker = speaker

-- A collapsible entry: its summary, or its label and its body.
unfoldable pub layout_collapsible : Entry → List Bytes → List DisplayLine
unfolding label_of
layout_collapsible e body =
    let n = if is_empty e.text then 0 else length body in
    if e.collapsed
    then record {
      text =
          utf8_text "▸ "
          ++ label_of e.kind e.speaker
          ++ codes " ("
          ++ to_string n
          ++ (if n == 1 then codes " line)" else codes " lines)");
      style = e.style;
    }
      ∷ []
    else record { text = utf8_text "▾ " ++ label_of e.kind e.speaker; style = e.style }
      ∷ styled e.style body

unfoldable pub line_style : Style → MdKind → Style
line_style Style.plain MdKind.header = Style.accent
line_style Style.plain MdKind.code = Style.dim
line_style style kind = style

-- The lines that a list item continues on are indented.
unfoldable pub hang : MdKind → List Bytes → List Bytes
hang MdKind.list_item (first ∷ more) = first ∷ map (λ l. 32 ∷ 32 ∷ l) more
hang kind lines = lines

unfoldable pub layout_markdown : ℕ → Style → Bytes → List MdLine → Option (List DisplayLine)
unfolding hang line_style
layout_markdown width style prefix [] = some []
layout_markdown width style prefix (ml ∷ mls) = do
  wrapped ← wrap_text (prefix ++ ml.text) width
  more ← layout_markdown width style [] mls
  some (styled (line_style style ml.kind) (hang ml.kind wrapped) ++ more)

unfoldable pub layout_entry : ℕ → Entry → Option (List DisplayLine)
unfolding layout_collapsible layout_markdown cut_lines
layout_entry width e = elim e.kind [
  | Kind.thinking ↦ wrap_text e.text width >>= λ body. some (layout_collapsible e body)
  | Kind.tool ↦ wrap_text e.text width >>= λ body. some (layout_collapsible e body)
  | Kind.preformatted ↦ some (styled e.style (cut_lines e.text))
  | Kind.ordinary ↦ layout_markdown width e.style e.speaker (markdown_lines e.text)
]

abbrev blank_line : DisplayLine
blank_line = record { text = []; style = Style.plain }

-- Every entry but the first has a blank line in front.
unfoldable pub layout_rest : ℕ → List Entry → Option (List DisplayLine)
unfolding layout_entry
layout_rest width [] = some []
layout_rest width (e ∷ es) = do
  lines ← layout_entry width e
  more ← layout_rest width es
  some (blank_line ∷ (lines ++ more))

unfoldable pub layout_entries : ℕ → List Entry → Option (List DisplayLine)
unfolding layout_entry layout_rest
layout_entries width [] = some []
layout_entries width (e ∷ es) = do
  lines ← layout_entry width e
  more ← layout_rest width es
  some (lines ++ more)

unfoldable pub layout_styled : ℕ → ChatView → Option (List DisplayLine)
unfolding layout_entries
layout_styled width v = layout_entries width v.entries

unfoldable pub layout : ℕ → ChatView → Option (List Bytes)
unfolding layout_styled
layout width v = layout_styled width v >>= λ lines. some (map (λ (l : DisplayLine). l.text) lines)

-- `first_visible_line` for a number of lines: the scroll offset is cut to the content, and the first
-- line to show follows.
unfoldable pub first_line : ℕ → ℕ → ChatView → ChatView × ℕ
first_line total viewport_rows v =
    let offset = min v.scroll_from_bottom (total - viewport_rows) in
    (record v { scroll_from_bottom = offset }, total - viewport_rows - offset)

unfoldable pub first_visible_line : ℕ → ℕ → ChatView → Option (ChatView × ℕ)
unfolding first_line layout_styled
first_visible_line width viewport_rows v =
    layout_styled width v >>= λ lines. some (first_line (length lines) viewport_rows v)

-- The lines of the window from its top row on.
unfoldable pub render : ℕ → ℕ → ChatView → Option (ChatView × List DisplayLine)
unfolding first_line layout_styled
render height width v =
    if height == 0 || width == 0
    then some (v, [])
    else (layout_styled width v >>= λ lines.
        let (cut, first) = first_line (length lines) height v in
        some (cut, take height (drop first lines)))
