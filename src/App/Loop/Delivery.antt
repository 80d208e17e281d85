-- ===== src/App/Loop/Delivery.antt =====
-- The text of an answer in src/app/App.cpp, as it is streamed.
use simple_coder.Prelude.{
  All, Bytes, List, Option, [], ap, append-nil, append_assoc, arith, get_elem?, length, none, refl,
  some, subst, suc, sym, zero, ℕ, ◌++◌, ◌∙◌, ◌∷◌, ◌≡◌, ◌≢◌,
}
use mathlib.Core.Option
use mathlib.Core.Option.{some-injective}
use simple_coder.Ui.ChatView.{Kind, Entry, ChatView, push_entry, append_to, add_thinking}
use simple_coder.Ui.ChatView.Entries.{append_to-entry}
use simple_coder.App.Loop.{App, Event, Screen}
use simple_coder.App.Loop.Kinds.{kind_at}
use simple_coder.App.Loop.Events.{append_chat, thinking_entry, content_entry, handle_event, drain}
use simple_coder.App.Loop.Streamed.{handle_event-Same}
use simple_coder.App.Loop.Turn.{IsStream, HasKind, Turn}

-- The pieces of an answer, and of the reasoning that may go on beside it.
abbrev pub IsPiece : Event → Type 0
IsPiece (Event.delta _) = Unit
IsPiece (Event.reasoning _) = Unit
IsPiece _ = ⊥

-- What the pieces say.
unfoldable pub answer_of : List Event → Bytes
answer_of [] = []
answer_of (Event.delta text ∷ q) = text ++ answer_of q
answer_of (e ∷ q) = answer_of q

unfoldable pub text_at : List Entry → ℕ → Option Bytes
text_at es i = Option.map (λ (e : Entry). e.text) (get_elem? es i)

text_at-append_to :
    (i : ℕ) (s : Bytes) (v : ChatView) (t : Bytes)
    → text_at v.entries i ≡ some t
    → text_at (append_to i s v).entries i ≡ some (t ++ s)
unfolding text_at
text_at-append_to i s v t h = rw ((append_to-entry i s v).1) (go (get_elem? v.entries i) h)
  where
    go :
        (o : Option Entry)
        → Option.map (λ (e : Entry). e.text) o ≡ some t
        → Option.map
            (λ (e : Entry). e.text)
            (Option.map (λ (e : Entry). record e { text = e.text ++ s }) o)
          ≡ some (t ++ s)
    go none h = cc
    go (some e) h = ap some (ap (λ u. u ++ s) (some-injective _ t h))

text_at-other :
    (i j : ℕ) (s : Bytes) (v : ChatView)
    → i ≢ j
    → text_at (append_to i s v).entries j ≡ text_at v.entries j
unfolding text_at
text_at-other i j s v h = ap (Option.map (λ (e : Entry). e.text)) ((append_to-entry i s v).2 j h)

text_at-push :
    (e : Entry) (v : ChatView) (i : ℕ) (t : Bytes)
    → text_at v.entries i ≡ some t
    → (length v.entries ≢ i) × (text_at (push_entry e v).0.entries i ≡ some t)
unfolding text_at push_entry
text_at-push e v i t h = go v.entries i h
  where
    go :
        (es : List Entry) (i : ℕ)
        → text_at es i ≡ some t
        → (length es ≢ i) × (text_at (es ++ e ∷ []) i ≡ some t)
    go [] i h = cc
    go (d ∷ es) zero h = (λ p. cc, h)
    go (d ∷ es) (suc i) h = let (n, k) = go es i h in (λ p. n (omega (arith, p)), k)

piece-IsStream : (e : Event) → IsPiece e → IsStream e
piece-IsStream (Event.delta _) h = tt
piece-IsStream (Event.reasoning _) h = tt
piece-IsStream (Event.tool_info _) h = elim h [ ]
piece-IsStream (Event.tool_result _ _) h = elim h [ ]
piece-IsStream (Event.confirm_request _ _) h = elim h [ ]
piece-IsStream (Event.error _) h = elim h [ ]
piece-IsStream Event.done h = elim h [ ]
piece-IsStream Event.canceled h = elim h [ ]

answer_of-cons :
    (e : Event) (q : List Event) → answer_of (e ∷ q) ≡ answer_of (e ∷ []) ++ answer_of q
unfolding answer_of
answer_of-cons (Event.delta text) q = ap (λ t. t ++ answer_of q) (sym (append-nil text))
answer_of-cons (Event.reasoning _) q = refl
answer_of-cons (Event.tool_info _) q = refl
answer_of-cons (Event.tool_result _ _) q = refl
answer_of-cons (Event.confirm_request _ _) q = refl
answer_of-cons (Event.error _) q = refl
answer_of-cons Event.done q = refl
answer_of-cons Event.canceled q = refl

module _ {W Time Double : Type 0} where
  content_entry-some :
      (a : App W Time Double) (o : Option ℕ) (i : ℕ) → o ≡ some i → content_entry o a ≡ (a, i)
  unfolding content_entry
  content_entry-some a none i h = cc
  content_entry-some a (some j) i h = ap (λ (k : ℕ). (a, k)) (some-injective j i h)

  thinking_entry-text :
      (a : App W Time Double) (o : Option ℕ) (i : ℕ) (text t : Bytes)
      → HasKind o Kind.thinking a.chat
      → kind_at a.chat.entries i ≡ some Kind.ordinary
      → text_at a.chat.entries i ≡ some t
      → ((append_chat text (thinking_entry o a)).content_idx ≡ a.content_idx)
        × (text_at (append_chat text (thinking_entry o a)).chat.entries i ≡ some t)
  unfolding thinking_entry append_chat add_thinking
  thinking_entry-text a (some j) i text t h k e =
      let other : j ≢ i = λ p. cc (h, k, ap (kind_at a.chat.entries) p) in
      (refl, text_at-other j i text a.chat other ∙ e)
  thinking_entry-text a none i text t h k e =
      let (other, still) = text_at-push _ a.chat i t e in
      (refl, text_at-other (length a.chat.entries) i text _ other ∙ still)

  -- An entry of an answer, and what it holds so far.
  abbrev pub Holds : ℕ → Bytes → App W Time Double → Type 0
  Holds i t a = (a.content_idx ≡ some i) × (text_at a.chat.entries i ≡ some t)

  content-kind :
      (a : App W Time Double) (i : ℕ)
      → Turn a
      → a.content_idx ≡ some i
      → kind_at a.chat.entries i ≡ some Kind.ordinary
  content-kind a i t h = subst (λ o. HasKind o Kind.ordinary a.chat) h (t.6)

  handle_event-Holds :
      (s : Screen Double) (e : Event) (a : App W Time Double) (i : ℕ) (t : Bytes)
      → IsPiece e
      → Turn a
      → Holds i t a
      → Holds i (t ++ answer_of (e ∷ [])) (handle_event s e a)
  unfolding handle_event append_chat answer_of
  handle_event-Holds s (Event.delta text) a i t h n (c, e) =
      subst (λ r. Holds i (t ++ (text ++ [])) (append_chat text r))
        (sym (content_entry-some a a.content_idx i c))
        (c, text_at-append_to i text a.chat t e ∙ ap some (ap (◌++◌ t) (sym (append-nil text))))
  handle_event-Holds s (Event.reasoning text) a i t h n (c, e) =
      let (same, still) =
        thinking_entry-text a a.thinking_idx i text t (n.5) (content-kind a i n c) e in
      (same ∙ c, still ∙ ap some (sym (append-nil t)))
  handle_event-Holds s (Event.tool_info _) a i t h n e = elim h [ ]
  handle_event-Holds s (Event.tool_result _ _) a i t h n e = elim h [ ]
  handle_event-Holds s (Event.confirm_request _ _) a i t h n e = elim h [ ]
  handle_event-Holds s (Event.error _) a i t h n e = elim h [ ]
  handle_event-Holds s Event.done a i t h n e = elim h [ ]
  handle_event-Holds s Event.canceled a i t h n e = elim h [ ]

  -- Once an answer has an entry, draining pieces of it in any number of events, with reasoning in
  -- between or not, leaves in that entry what it held and the pieces of the answer behind it, in their
  -- order and nothing else.
  pub drain-Holds :
      (s : Screen Double) (q : List Event) (a : App W Time Double) (i : ℕ) (t : Bytes)
      → All IsPiece q
      → Turn a
      → Holds i t a
      → Holds i (t ++ answer_of q) (drain s q a)
  unfolding drain answer_of
  drain-Holds s [] a i t h n (c, e) = (c, e ∙ ap some (sym (append-nil t)))
  drain-Holds s (e ∷ q) a i t (h, hs) n held =
      let (_, _, still) = handle_event-Same s e a (piece-IsStream e h) n in
      subst (λ u. Holds i u (drain s q (handle_event s e a)))
        (append_assoc t (answer_of (e ∷ [])) (answer_of q) ∙ ap (◌++◌ t) (sym (answer_of-cons e q)))
        (drain-Holds s q (handle_event s e a) i (t ++ answer_of (e ∷ [])) hs still
          (handle_event-Holds s e a i t h n held))
