-- ===== src/App/Loop/Threads.antt =====
-- The two threads of src/app/App.cpp: a step is a round of the UI thread's loop, or what the worker
-- thread does between two pushes. The steps come in any order.
use simple_coder.Prelude.{Bytes, List, Option, [], if◌then◌else◌, none, some, true, ◌++◌, ◌∷◌, ◌≡◌}
use simple_coder.Agent.Confirm.{ConfirmChoice}
use simple_coder.Agent.ToolLoop.{Env, End, returned, raised}
use simple_coder.Agent.Session.{Agent, Clock, send}
use simple_coder.App.Loop.{App, Event, Screen, Worker, Job, Callback, event_of}
use simple_coder.App.Loop.Keys.{Read, Peek, on_read}

-- The event that ends a turn; where an exception leaves `send`, the program ends, and there is none.
unfoldable pub last_event : {Time : Type 0} → End Time → Option Event
last_event raised = none
last_event (returned res) =
    some (
      if res.ok then Event.done else if res.canceled then Event.canceled else Event.error res.error)

module _ {W Time Double : Type 0} where
  unfoldable pub push_event : Event → App W Time Double → App W Time Double
  push_event e a = record a { events = a.events ++ e ∷ [] }

  -- `request_confirmation`: the worker waits until the promise is kept.
  unfoldable pub request_confirmation :
      Job → List ConfirmChoice → Bytes → Bytes → App W Time Double → App W Time Double
  unfolding push_event
  request_confirmation job answers tool details a =
      record (push_event (Event.confirm_request details tool) a) {
        worker = Worker.asking job answers;
      }

  unfoldable pub end_turn : Agent W Time → Event → App W Time Double → App W Time Double
  unfolding push_event
  end_turn agent e a = record (push_event e a) { agent = agent; worker = Worker.ended }

  pub data Step (a b : App W Time Double) : Type 1 where
    round :
        (s : Screen Double) (peek : Peek) (r : Read)
        → a.running ≡ true
        → b ≡ on_read s peek r a
        → Step a b
    call_back :
        (job : Job) (answers : List ConfirmChoice) (cb : Callback)
        → a.worker ≡ Worker.sending job answers
        → b ≡ push_event (event_of cb) a
        → Step a b
    request :
        (job : Job) (answers : List ConfirmChoice) (tool details : Bytes)
        → a.worker ≡ Worker.sending job answers
        → b ≡ request_confirmation job answers tool details a
        → Step a b
    finish :
        (job : Job) (answers : List ConfirmChoice) (Json : Type 0) (env : Env Json W Time)
        (clock : Clock Time) (e : Event)
        → a.worker ≡ Worker.sending job answers
        → last_event (send env clock job.payload job.images a.agent).0 ≡ some e
        → b ≡ end_turn (send env clock job.payload job.images a.agent).1 e a
        → Step a b

  pub data Reach (a : App W Time Double) : App W Time Double → Type 1 where
    here : Reach a a
    next : {b c : App W Time Double} → Reach a b → Step b c → Reach a c
