-- ===== src/App/Loop/Rounds.antt =====
-- A round of the loop of src/app/App.cpp keeps the state good.
use simple_coder.Prelude.{
  Bool, Bytes, List, Option, [], ap, arith, false, if◌then◌else◌, inl, inr, is_empty, none, not,
  refl, some, subst, sym, true, ℕ, ◌&&◌, ◌==◌, ◌||◌, ◌∙◌, ◌≡◌, ◌⊎◌,
}
use simple_coder.Util.Utf8.{encode}
use simple_coder.Ui.InputBar.{InputBar, Key, handle_key, insert_text, type_char}
use simple_coder.Ui.ChatView.{
  ChatView, add, scroll_up, scroll_down, scroll_page_up, scroll_page_down, scroll_to_top,
  scroll_to_bottom,
}
use simple_coder.App.Loop.Kinds.{Keeps, push_entry-Keeps, toggle_last_collapsible-Keeps}
use simple_coder.App.Loop.{App, Event, Screen}
use simple_coder.App.Loop.Events.{drain_events}
use simple_coder.App.Loop.Keys.{
  Wheel, Read, Peek, is_printable, is_enter, edit, edit_or, cancel, after_escape, on_submitted,
  type_key, type_control, turn_wheel, press, on_read,
}
use simple_coder.App.Loop.Started.{run_line-Leads}
use simple_coder.App.Loop.Taken.{drain_events-Leads}
use simple_coder.App.Loop.Turn.{Idle, Turn, Good, idle, working, blocked, over, Leads, Good-shown}

-- A line is only submitted with the prompt left empty.
Submits : Option Bytes × InputBar → Type 0
Submits r = (line : Bytes) → r.0 ≡ some line → r.1.buffer ≡ []

type_char-Submits : (ch : ℕ) (bar : InputBar) → Submits (type_char ch bar)
unfolding Submits type_char
type_char-Submits ch bar line h = ground arith

handle_key-Submits : (k : Key) (bar : InputBar) → Submits (handle_key k bar)
unfolding Submits handle_key
handle_key-Submits Key.enter bar line h = refl
handle_key-Submits (Key.char ch) bar line h = type_char-Submits ch bar line h
handle_key-Submits Key.backspace bar line h = cc
handle_key-Submits Key.delete bar line h = cc
handle_key-Submits Key.left bar line h = cc
handle_key-Submits Key.right bar line h = cc
handle_key-Submits Key.home bar line h = cc
handle_key-Submits Key.end bar line h = cc
handle_key-Submits Key.up bar line h = cc
handle_key-Submits Key.down bar line h = cc
handle_key-Submits Key.other bar line h = cc

module _ {W Time Double : Type 0} where
  -- A round keeps the state good, with the queue as the round leaves it.
  abbrev pub Sound : App W Time Double → Type 0
  Sound a = Good a.events a

  Leads-Sound : (es : List Event) (b : App W Time Double) → es ≡ [] → Leads es b → Sound b
  Leads-Sound es b e (h, g) = subst (λ q. Good q b) (sym (h ∙ e)) g

  if-Sound :
      (t : Bool) (b c : App W Time Double)
      → (t ≡ true → Sound b)
      → (t ≡ false → Sound c)
      → Sound (if t then b else c)
  if-Sound true b c h k = h refl
  if-Sound false b c h k = k refl

  drain_events-Sound :
      (s : Screen Double) (a : App W Time Double) → Sound a → Sound (drain_events s a)
  drain_events-Sound s a g = Leads-Sound [] (drain_events s a) refl (drain_events-Leads s a g)

  -- The chat is shown or scrolled.
  shown-Sound :
      (a : App W Time Double) (c : ChatView) (x : Bool)
      → Keeps a.chat.entries c.entries
      → Sound a
      → Sound (record a { chat = c; cancel_requested = x })
  shown-Sound a c x keeps g = Good-shown a.events a c x keeps g

  cancel-Sound : (a : App W Time Double) → Sound a → Sound (cancel a)
  unfolding cancel add
  cancel-Sound a g =
      if-Sound a.cancel_requested a _ (λ _. g)
        (λ _. shown-Sound a _ true (push_entry-Keeps _ a.chat) g)

  turn_wheel-Sound : (w : Wheel) (a : App W Time Double) → Sound a → Sound (turn_wheel w a)
  unfolding turn_wheel scroll_up scroll_down
  turn_wheel-Sound Wheel.turned_up a g = shown-Sound a _ a.cancel_requested (λ i k h. h) g
  turn_wheel-Sound Wheel.turned_down a g = shown-Sound a _ a.cancel_requested (λ i k h. h) g
  turn_wheel-Sound Wheel.neither a g = g

  -- No turn is on its way, and the program runs.
  abbrev Free : App W Time Double → Type 0
  Free a = Idle a × (a.events ≡ []) × (a.running ≡ true)

  on_submitted-Sound :
      (s : Screen Double) (r : Option Bytes × InputBar) (a : App W Time Double)
      → Submits r
      → Free a
      → Sound (on_submitted s r a)
  unfolding on_submitted Submits
  on_submitted-Sound s (none, bar) a h (i, e, r) = idle i e
  on_submitted-Sound s (some line, bar) a h (i, e, r) =
      Leads-Sound a.events _ e
        (run_line-Leads s line (record a { input = bar }) (i.0, h line refl, r, i.4) i)

  after_escape-Sound : (p : Peek) (a : App W Time Double) → Free a → Sound (after_escape p a)
  unfolding after_escape edit
  after_escape-Sound Peek.no_peek a (i, e, r) = idle i e
  after_escape-Sound (Peek.peek_char ch) a (i, e, r) =
      if-Sound (ch == 10 || ch == 13 || ch == 343) _ _ (λ _. idle i e)
        (λ _. if-Sound (is_printable ch) _ _ (λ _. idle i e) (λ _. idle i e))
  after_escape-Sound (Peek.peek_key k) a (i, e, r) =
      if-Sound (is_enter k) _ _ (λ _. idle i e) (λ _. idle i e)

  -- Either nothing is on its way, or the turn leaves the prompt empty.
  abbrev Either : App W Time Double → Type 0
  Either a = Free a ⊎ Turn a

  type_key-Sound :
      (s : Screen Double) (k : Key) (a : App W Time Double)
      → Sound a
      → Either a
      → Sound (type_key s k a)
  unfolding type_key
  type_key-Sound s k a g (inl f) =
      if-Sound a.busy _ _ (λ _. drain_events-Sound s a g)
        (λ _. on_submitted-Sound s (handle_key k a.input) a (handle_key-Submits k a.input) f)
  type_key-Sound s k a g (inr t) =
      if-Sound a.busy _ _ (λ _. drain_events-Sound s a g) (λ e. cc (e, t.0))

  edit_or-Sound :
      (k : Key) (scroll : ChatView → ChatView) (a : App W Time Double)
      → ((v : ChatView) → (scroll v).entries ≡ v.entries)
      → Sound a
      → Either a
      → Sound (edit_or k scroll a)
  unfolding edit_or edit
  edit_or-Sound k scroll a h g e =
      if-Sound (is_empty a.input.buffer) _ _
        (λ _. shown-Sound a (scroll a.chat) a.cancel_requested (λ i l p. rw (h a.chat) p) g)
        (λ n. typed e n)
    where
      typed : Either a → is_empty a.input.buffer ≡ false → Sound (edit k a)
      typed (inl (i, e, r)) n = idle i e
      typed (inr t) n = cc (ap is_empty (t.1), n)

  type_control-Sound :
      (s : Screen Double) (p : Peek) (ch : ℕ) (a : App W Time Double)
      → Sound a
      → Either a
      → Sound (type_control s p ch a)
  unfolding type_control
  type_control-Sound s p ch a g e =
      if-Sound (a.busy && ch == 27) _ _ (λ _. cancel-Sound a g)
        (λ _.
          if-Sound (ch == 9) _ _
            (λ _. shown-Sound a _ a.cancel_requested (toggle_last_collapsible-Keeps a.chat) g)
            (λ _.
              if-Sound (not a.busy && ch == 27) _ _ (λ n. escaped e n)
                (λ _. type_key-Sound s (Key.char ch) a g e)))
    where
      escaped : Either a → (not a.busy && ch == 27) ≡ true → Sound (after_escape p a)
      escaped (inl f) n = after_escape-Sound p a f
      escaped (inr t) n = cc (ap (λ b. not b && ch == 27) (t.0), n)

  press-Sound :
      (s : Screen Double) (k : Key) (a : App W Time Double)
      → Sound a
      → Either a
      → Sound (press s k a)
  unfolding press scroll_up scroll_down scroll_to_top scroll_to_bottom
  press-Sound s Key.up a g e = edit_or-Sound Key.up (scroll_up 1) a (λ v. refl) g e
  press-Sound s Key.down a g e = edit_or-Sound Key.down (scroll_down 1) a (λ v. refl) g e
  press-Sound s Key.left a g e = edit_or-Sound Key.left (λ v. v) a (λ v. refl) g e
  press-Sound s Key.right a g e = edit_or-Sound Key.right (λ v. v) a (λ v. refl) g e
  press-Sound s Key.home a g e = edit_or-Sound Key.home scroll_to_top a (λ v. refl) g e
  press-Sound s Key.end a g e = edit_or-Sound Key.end scroll_to_bottom a (λ v. refl) g e
  press-Sound s Key.enter a g e = type_key-Sound s Key.enter a g e
  press-Sound s Key.backspace a g e = type_key-Sound s Key.backspace a g e
  press-Sound s Key.delete a g e = type_key-Sound s Key.delete a g e
  press-Sound s Key.other a g e = type_key-Sound s Key.other a g e
  press-Sound s (Key.char ch) a g e = type_key-Sound s (Key.char ch) a g e

  Good-Either : (a : App W Time Double) → a.running ≡ true → Sound a → Either a
  Good-Either a r (idle i e) = inl (i, e, r)
  Good-Either a r (working job answers w h t) = inr t
  Good-Either a r (blocked job answers w h t) = inr t
  Good-Either a r (over w h t) = inr t

  typed-Sound :
      (ch : ℕ) (a : App W Time Double)
      → Sound a
      → Either a
      → Sound (if a.busy then a else record a { input = insert_text (encode ch) a.input })
  typed-Sound ch a g (inl (i, e, r)) = if-Sound a.busy _ _ (λ _. g) (λ _. idle i e)
  typed-Sound ch a g (inr t) = if-Sound a.busy _ _ (λ _. g) (λ n. cc (n, t.0))

  pub on_read-Sound :
      (s : Screen Double) (p : Peek) (r : Read) (a : App W Time Double)
      → a.running ≡ true
      → Sound a
      → Sound (on_read s p r a)
  unfolding on_read scroll_page_up scroll_page_down scroll_up scroll_down
  on_read-Sound s p Read.nothing a h g = drain_events-Sound s a g
  on_read-Sound s p (Read.character ch) a h g =
      if-Sound (is_printable ch) _ _ (λ _. typed-Sound ch a g (Good-Either a h g))
        (λ _. type_control-Sound s p ch a g (Good-Either a h g))
  on_read-Sound s p Read.resize a h g = g
  on_read-Sound s p Read.f1 a h g = g
  on_read-Sound s p Read.page_up a h g = shown-Sound a _ a.cancel_requested (λ i k e. e) g
  on_read-Sound s p Read.page_down a h g = shown-Sound a _ a.cancel_requested (λ i k e. e) g
  on_read-Sound s p (Read.mouse w) a h g = turn_wheel-Sound w a g
  on_read-Sound s p (Read.key k) a h g = press-Sound s k a g (Good-Either a h g)
