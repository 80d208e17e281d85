-- ===== src/App/Loop/Turn.antt =====
-- A turn of src/app/App.cpp: what holds while none is on its way, and while one is.
use simple_coder.Prelude.{
  All, Bool, Bytes, List, Option, [], false, if◌then◌else◌, none, not, refl, some, true, ℕ, ◌&&◌,
  ◌∷◌, ◌≡◌,
}
use simple_coder.Llm.Message.{ImagePart}
use simple_coder.Agent.Confirm.{ConfirmChoice}
use simple_coder.Ui.ChatView.{Kind, ChatView}
use simple_coder.App.Loop.Kinds.{Keeps, kind_at}
use simple_coder.App.Loop.{App, Event, Worker, Job, submit, start_worker, start_at, say_all}

abbrev pub IsStream : Event → Type 0
IsStream (Event.delta _) = Unit
IsStream (Event.reasoning _) = Unit
IsStream (Event.tool_info _) = Unit
IsStream (Event.tool_result _ _) = Unit
IsStream _ = ⊥

abbrev pub IsRequest : Event → Type 0
IsRequest (Event.confirm_request _ _) = Unit
IsRequest _ = ⊥

-- The events that end a turn.
abbrev pub IsLast : Event → Type 0
IsLast Event.done = Unit
IsLast Event.canceled = Unit
IsLast (Event.error _) = Unit
IsLast _ = ⊥

-- Events of the stream, and one behind them for which `P` holds.
pub data Trail (P : Event → Type 0) : List Event → Type 0 where
  last : (e : Event) → P e → Trail P (e ∷ [])
  more : (e : Event) (q : List Event) → IsStream e → Trail P q → Trail P (e ∷ q)

-- An index that is kept is that of an entry of its kind.
abbrev pub HasKind : Option ℕ → Kind → ChatView → Type 0
HasKind none k v = Unit
HasKind (some i) k v = kind_at v.entries i ≡ some k

pub HasKind-Keeps :
    (o : Option ℕ) (k : Kind) (v w : ChatView)
    → Keeps v.entries w.entries
    → HasKind o k v
    → HasKind o k w
HasKind-Keeps none k v w keeps h = tt
HasKind-Keeps (some i) k v w keeps h = keeps i k h

module _ {W Time Double : Type 0} where
  -- No turn is on its way.
  abbrev pub Idle : App W Time Double → Type 0
  Idle a =
      (a.worker ≡ Worker.no_thread)
      × (a.busy ≡ false)
      × (a.init_pending ≡ false)
      × (a.compact_pending ≡ false)
      × (a.fault ≡ false)

  -- A turn is on its way: nothing has been typed, at most one of the two follow-ups is pending, and
  -- the entries that the stream is written to are those of reasoning and of an answer.
  abbrev pub Turn : App W Time Double → Type 0
  Turn a =
      (a.busy ≡ true)
      × (a.input.buffer ≡ [])
      × (a.running ≡ true)
      × ((a.init_pending && a.compact_pending) ≡ false)
      × (a.fault ≡ false)
      × HasKind a.thinking_idx Kind.thinking a.chat
      × HasKind a.content_idx Kind.ordinary a.chat

  -- The state when `q` are the events that the worker has pushed and the UI thread has not taken.
  pub data Good (q : List Event) (a : App W Time Double) : Type 0 where
    idle : Idle a → q ≡ [] → Good q a
    working :
        (job : Job) (answers : List ConfirmChoice)
        → a.worker ≡ Worker.sending job answers
        → All IsStream q
        → Turn a
        → Good q a
    blocked :
        (job : Job) (answers : List ConfirmChoice)
        → a.worker ≡ Worker.asking job answers
        → Trail IsRequest q
        → Turn a
        → Good q a
    over : a.worker ≡ Worker.ended → Trail IsLast q → Turn a → Good q a

  -- The turn is neither one of /init nor one of /compact.
  abbrev pub is_ordinary : App W Time Double → Bool
  is_ordinary a = not a.init_pending && not a.compact_pending

  -- What a turn can be started from.
  abbrev pub Ready : App W Time Double → Type 0
  Ready a =
      (a.worker ≡ Worker.no_thread) × (a.input.buffer ≡ []) × (a.running ≡ true) × (a.fault ≡ false)

  -- The result of a command: the queue is as it was, and no turn or a fresh one is on its way.
  abbrev pub Leads : List Event → App W Time Double → Type 0
  Leads es b = (b.events ≡ es) × Good [] b

  pub if-Leads :
      (es : List Event) (t : Bool) (b c : App W Time Double)
      → Leads es b
      → Leads es c
      → Leads es (if t then b else c)
  if-Leads es true b c h k = h
  if-Leads es false b c h k = k

  pub Idle-Leads : (b : App W Time Double) → Idle b → Leads b.events b
  Idle-Leads b h = (refl, idle h refl)

  pub submit-Leads :
      (display payload : Bytes) (images : List ImagePart) (a : App W Time Double)
      → Ready a
      → (a.init_pending && a.compact_pending) ≡ false
      → Leads a.events (submit display payload images a)
  unfolding submit start_worker start_at say_all
  submit-Leads display payload images a (w, b, r, f) p =
      rw (w, start_at) (refl, working _ [] refl tt (refl, b, r, p, f, tt, tt))

  Turn-shown :
      (a : App W Time Double) (c : ChatView) (x : Bool)
      → Keeps a.chat.entries c.entries
      → Turn a
      → Turn (record a { chat = c; cancel_requested = x })
  Turn-shown a c x keeps (b, q, r, p, f, t, w) = (
    b,
    q,
    r,
    p,
    f,
    HasKind-Keeps a.thinking_idx Kind.thinking a.chat c keeps t,
    HasKind-Keeps a.content_idx Kind.ordinary a.chat c keeps w,
  )

  -- The chat may be added to at any time.
  pub Good-shown :
      (q : List Event) (a : App W Time Double) (c : ChatView) (x : Bool)
      → Keeps a.chat.entries c.entries
      → Good q a
      → Good q (record a { chat = c; cancel_requested = x })
  Good-shown q a c x keeps (idle h e) = idle h e
  Good-shown q a c x keeps (working job answers w s t) =
      working job answers w s (Turn-shown a c x keeps t)
  Good-shown q a c x keeps (blocked job answers w s t) =
      blocked job answers w s (Turn-shown a c x keeps t)
  Good-shown q a c x keeps (over w s t) = over w s (Turn-shown a c x keeps t)

  pub Good-events :
      (q es : List Event) (a : App W Time Double) → Good q a → Good q (record a { events = es })
  Good-events q es a (idle h e) = idle h e
  Good-events q es a (working job answers w s t) = working job answers w s t
  Good-events q es a (blocked job answers w s t) = blocked job answers w s t
  Good-events q es a (over w s t) = over w s t
