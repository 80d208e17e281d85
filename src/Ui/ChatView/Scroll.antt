-- ===== src/Ui/ChatView/Scroll.antt =====
-- Layout and scrolling: the lines that the panel shows.
use simple_coder.Prelude.{Bytes, List, Runs, Runs->>=, [], refl, ℕ, ◌++◌, ◌∷◌, ◌≡◌}
use simple_coder.Ui.Markdown.{MdLine, markdown_lines}
use simple_coder.Ui.TextWrap.{wrap_text}
use simple_coder.Ui.TextWrap.Ends.{wrap_text-some}
use simple_coder.Ui.ChatView.{Style, Kind, Entry, ChatView}
use simple_coder.Ui.ChatView.Layout.{
  layout_markdown, layout_entry, layout_rest, layout_entries, layout_styled,
}

layout_markdown-some :
    (width : ℕ) (style : Style) (prefix : Bytes) (mls : List MdLine)
    → Runs (layout_markdown width style prefix mls)
unfolding layout_markdown
layout_markdown-some width style prefix [] = ([], refl)
layout_markdown-some width style prefix (ml ∷ mls) =
    Runs->>= (wrap_text (prefix ++ ml.text) width) _ (wrap_text-some _ width) (λ wrapped.
      Runs->>= (layout_markdown width style [] mls) _ (layout_markdown-some width style [] mls)
        (λ more. (_, refl)))

layout_entry-some : (width : ℕ) (e : Entry) → Runs (layout_entry width e)
unfolding layout_entry
layout_entry-some width e = go e.kind refl
  where
    go : (k : Kind) → k ≡ e.kind → Runs (layout_entry width e)
    go Kind.thinking h =
        rw (← h)
          (Runs->>= (wrap_text e.text width) _ (wrap_text-some e.text width) (λ body. (_, refl)))
    go Kind.tool h =
        rw (← h)
          (Runs->>= (wrap_text e.text width) _ (wrap_text-some e.text width) (λ body. (_, refl)))
    go Kind.preformatted h = rw (← h) (_, refl)
    go Kind.ordinary h =
        rw (← h) (layout_markdown-some width e.style e.speaker (markdown_lines e.text))

layout_rest-some : (width : ℕ) (es : List Entry) → Runs (layout_rest width es)
unfolding layout_rest
layout_rest-some width [] = ([], refl)
layout_rest-some width (e ∷ es) =
    Runs->>= (layout_entry width e) _ (layout_entry-some width e)
      (λ lines. Runs->>= (layout_rest width es) _ (layout_rest-some width es) (λ more. (_, refl)))

pub layout_styled-some : (width : ℕ) (v : ChatView) → Runs (layout_styled width v)
unfolding layout_styled layout_entries
layout_styled-some width v = go v.entries
  where
    go : (es : List Entry) → Runs (layout_entries width es)
    go [] = ([], refl)
    go (e ∷ es) =
        Runs->>= (layout_entry width e) _ (layout_entry-some width e) (λ lines.
          Runs->>= (layout_rest width es) _ (layout_rest-some width es) (λ more. (_, refl)))
