-- ===== src/App/Loop/Safety.antt =====
-- The two threads of src/app/App.cpp together: what holds in every state that can be reached.
use simple_coder.Prelude.{
  All, Bool, Bytes, List, [], false, if◌then◌else◌, refl, some, subst, sym, true, ◌++◌, ◌∷◌, ◌≡◌,
}
use mathlib.Core.Option.{some-injective}
use simple_coder.Agent.Confirm.{ConfirmChoice}
use simple_coder.Agent.ToolLoop.{End, returned, raised}
use simple_coder.Agent.Session.{Agent}
use simple_coder.App.Skill.{Skill}
use simple_coder.App.Loop.{App, AppConfig, Event, Worker, Job, Callback, event_of}
use simple_coder.App.Loop.Keys.{start}
use simple_coder.App.Loop.Rounds.{Sound, on_read-Sound}
use simple_coder.App.Loop.Threads.{
  last_event, push_event, request_confirmation, end_turn, Step, round, call_back, request, finish,
  Reach, here, next,
}
use simple_coder.App.Loop.Turn.{
  IsStream, IsRequest, IsLast, Trail, last, more, Idle, Turn, Good, idle, working, blocked, over,
}

-- A stream that goes on, and one that is closed.
All-IsStream :
    (q : List Event) (e : Event) → All IsStream q → IsStream e → All IsStream (q ++ e ∷ [])
All-IsStream [] e h k = (k, tt)
All-IsStream (d ∷ q) e (h, hs) k = (h, All-IsStream q e hs k)

Trail-append :
    (P : Event → Type 0) (q : List Event) (e : Event) → All IsStream q → P e → Trail P (q ++ e ∷ [])
Trail-append P [] e h k = last e k
Trail-append P (d ∷ q) e (h, hs) k = more d (q ++ e ∷ []) h (Trail-append P q e hs k)

event_of-IsStream : (cb : Callback) → IsStream (event_of cb)
unfolding event_of
event_of-IsStream (Callback.on_content d) = tt
event_of-IsStream (Callback.on_reasoning d) = tt
event_of-IsStream (Callback.on_tool_call call) = tt
event_of-IsStream (Callback.on_tool_result call tr) = tt

if-IsLast : (t : Bool) (d e : Event) → IsLast d → IsLast e → IsLast (if t then d else e)
if-IsLast true d e h k = h
if-IsLast false d e h k = k

last_event-IsLast : {Time : Type 0} (r : End Time) (e : Event) → last_event r ≡ some e → IsLast e
unfolding last_event
last_event-IsLast raised e h = cc
last_event-IsLast (returned res) e h =
    subst IsLast (some-injective _ e h)
      (if-IsLast res.ok _ _ tt (if-IsLast res.canceled _ (Event.error res.error) tt tt))

module _ {W Time Double : Type 0} where
  -- While the worker is inside `send`, what it has pushed is the stream.
  sending-Turn :
      (a : App W Time Double) (job : Job) (answers : List ConfirmChoice)
      → a.worker ≡ Worker.sending job answers
      → Sound a
      → All IsStream a.events × Turn a
  sending-Turn a job answers w (idle i e) = cc
  sending-Turn a job answers w (working _ _ _ h t) = (h, t)
  sending-Turn a job answers w (blocked _ _ v h t) = cc
  sending-Turn a job answers w (over v h t) = cc

  Step-Sound : (a b : App W Time Double) → Step a b → Sound a → Sound b
  unfolding push_event request_confirmation end_turn
  Step-Sound a b (round s p r h e) g = subst Sound (sym e) (on_read-Sound s p r a h g)
  Step-Sound a b (call_back job answers cb w e) g =
      let (h, t) = sending-Turn a job answers w g in
      subst Sound (sym e)
        (working job answers w (All-IsStream a.events (event_of cb) h (event_of-IsStream cb)) t)
  Step-Sound a b (request job answers tool details w e) g =
      let (h, t) = sending-Turn a job answers w g in
      subst Sound (sym e) (
        blocked job answers refl
          (Trail-append IsRequest a.events (Event.confirm_request details tool) h tt) t)
  Step-Sound a b (finish job answers _ env clock ev w l e) g =
      let (h, t) = sending-Turn a job answers w g in
      subst Sound (sym e)
        (over refl (Trail-append IsLast a.events ev h (last_event-IsLast _ ev l)) t)

  -- Every state that is reached from a sound one is sound.
  pub Reach-Sound : {a b : App W Time Double} → Sound a → Reach a b → Sound b
  Reach-Sound g here = g
  Reach-Sound {b = c} g (next {b = b} r s) = Step-Sound b c s (Reach-Sound g r)

  Sound-fault : (q : List Event) (a : App W Time Double) → Good q a → a.fault ≡ false
  Sound-fault q a (idle i e) = i.4
  Sound-fault q a (working _ _ w h t) = t.4
  Sound-fault q a (blocked _ _ w h t) = t.4
  Sound-fault q a (over w h t) = t.4

  Sound-stopped :
      (q : List Event) (a : App W Time Double) → Good q a → a.running ≡ false → Idle a × (q ≡ [])
  Sound-stopped q a (idle i e) r = (i, e)
  Sound-stopped q a (working _ _ w h t) r = cc (r, t.2)
  Sound-stopped q a (blocked _ _ w h t) r = cc (r, t.2)
  Sound-stopped q a (over w h t) r = cc (r, t.2)

  module _ (agent : Agent W Time) (skills : List Skill) (config : AppConfig Double)
      (banner : Bytes) where
    start-Sound : Sound (start agent skills config banner)
    unfolding start
    start-Sound = idle (refl, refl, refl, refl, refl) refl

    -- From the start of the program, whatever is typed and whatever the worker thread does, in any
    -- order of the steps of the two threads: either no turn is on its way, there is no thread and the
    -- queue is empty; or one is, nothing has been typed, at most one follow-up is pending, the entries
    -- that the stream is written to are of their kinds, and the queue holds events of the stream,
    -- closed by one request where the worker waits and by one last event where it has ended.
    pub Reach-Good :
        (b : App W Time Double) → Reach (start agent skills config banner) b → Good b.events b
    Reach-Good b r = Reach-Sound start-Sound r

    -- No thread is ever assigned over one that can be joined, no join ever waits for a thread that may
    -- wait for the user's answer, and once the user has quit there is no thread, no event and no
    -- follow-up left.
    pub Reach-fault :
        (b : App W Time Double)
        → Reach (start agent skills config banner) b
        → (b.fault ≡ false) × (b.running ≡ false → Idle b × (b.events ≡ []))
    Reach-fault b r =
        let g = Reach-Good b r in (Sound-fault b.events b g, Sound-stopped b.events b g)
