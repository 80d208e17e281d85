-- ===== src/App/Loop/Streamed.antt =====
-- The events of the stream in src/app/App.cpp: what they leave as it is.
use simple_coder.Prelude.{Bytes, Option, none, refl, some, true, ℕ, ◌≡◌}
use simple_coder.Ui.ChatView.{Kind, ChatView, add, add_thinking, add_tool_output}
use simple_coder.App.Loop.Kinds.{
  Keeps, push_entry-Keeps, push_entry-kind, append_to-Keeps, set_collapsed-Keeps,
}
use simple_coder.App.Loop.{App, Event, Screen}
use simple_coder.App.Loop.Events.{
  fold_thinking, thinking_entry, content_entry, append_chat, handle_event,
}
use simple_coder.App.Loop.Turn.{IsStream, HasKind, HasKind-Keeps, is_ordinary, Turn}

fold_thinking-Keeps : (o : Option ℕ) (v : ChatView) → Keeps v.entries (fold_thinking o v).entries
unfolding fold_thinking
fold_thinking-Keeps none v = λ i k h. h
fold_thinking-Keeps (some j) v = set_collapsed-Keeps j true v

module _ {W Time Double : Type 0} where
  -- The worker's part of the state, which the stream leaves as it is.
  abbrev pub Same : App W Time Double → App W Time Double → Type 0
  Same a b = (b.worker ≡ a.worker) × (is_ordinary b ≡ is_ordinary a) × Turn b

  Turn-chat :
      (a : App W Time Double) (c : ChatView)
      → Keeps a.chat.entries c.entries
      → Turn a
      → Turn (record a { chat = c })
  Turn-chat a c keeps (b, q, r, p, f, t, w) = (
    b,
    q,
    r,
    p,
    f,
    HasKind-Keeps a.thinking_idx Kind.thinking a.chat c keeps t,
    HasKind-Keeps a.content_idx Kind.ordinary a.chat c keeps w,
  )

  append_chat-Same :
      (text : Bytes) (a : App W Time Double) (r : App W Time Double × ℕ)
      → Same a r.0
      → Same a (append_chat text r)
  unfolding append_chat
  append_chat-Same text a (b, i) (w, o, t) = (w, o, Turn-chat b _ (append_to-Keeps i text b.chat) t)

  thinking_entry-Same :
      (a : App W Time Double) (o : Option ℕ)
      → HasKind o Kind.thinking a.chat
      → Turn a
      → Same a (thinking_entry o a).0
  unfolding thinking_entry add_thinking
  thinking_entry-Same a (some i) h t = (refl, refl, t)
  thinking_entry-Same a none h (b, q, r, p, f, t, w) =
      let kept = HasKind-Keeps a.content_idx Kind.ordinary a.chat _ (push_entry-Keeps _ a.chat) w in
      (refl, refl, (b, q, r, p, f, push_entry-kind _ a.chat, kept))

  content_entry-Same :
      (a : App W Time Double) (o : Option ℕ)
      → HasKind o Kind.ordinary a.chat
      → Turn a
      → Same a (content_entry o a).0
  unfolding content_entry add
  content_entry-Same a (some i) h t = (refl, refl, t)
  content_entry-Same a none h (b, q, r, p, f, t, w) =
      let folded = fold_thinking a.thinking_idx a.chat in
      let still =
        HasKind-Keeps a.thinking_idx Kind.thinking a.chat folded
          (fold_thinking-Keeps a.thinking_idx a.chat) t in
      let kept =
        HasKind-Keeps a.thinking_idx Kind.thinking folded _ (push_entry-Keeps _ folded) still in
      (refl, refl, (b, q, r, p, f, kept, push_entry-kind _ folded))

  -- The stream leaves the worker and the turn as they are.
  pub handle_event-Same :
      (s : Screen Double) (e : Event) (a : App W Time Double)
      → IsStream e
      → Turn a
      → Same a (handle_event s e a)
  unfolding handle_event add add_tool_output
  handle_event-Same s (Event.delta text) a h t =
      append_chat-Same text a (content_entry a.content_idx a)
        (content_entry-Same a a.content_idx (t.6) t)
  handle_event-Same s (Event.reasoning text) a h t =
      append_chat-Same text a (thinking_entry a.thinking_idx a)
        (thinking_entry-Same a a.thinking_idx (t.5) t)
  handle_event-Same s (Event.tool_info text) a h (b, q, r, p, f, t, w) =
      let kept =
        HasKind-Keeps a.thinking_idx Kind.thinking a.chat _ (push_entry-Keeps _ a.chat) t in
      (refl, refl, (b, q, r, p, f, kept, tt))
  handle_event-Same s (Event.tool_result out header) a h (b, q, r, p, f, t, w) =
      let kept =
        HasKind-Keeps a.thinking_idx Kind.thinking a.chat _ (push_entry-Keeps _ a.chat) t in
      (refl, refl, (b, q, r, p, f, kept, tt))
  handle_event-Same s (Event.error _) a h t = elim h [ ]
  handle_event-Same s (Event.confirm_request _ _) a h t = elim h [ ]
  handle_event-Same s Event.done a h t = elim h [ ]
  handle_event-Same s Event.canceled a h t = elim h [ ]
