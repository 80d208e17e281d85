-- ===== src/App/Loop/Taken.antt =====
-- Taking an event of the queue in src/app/App.cpp keeps the state good.
use simple_coder.Prelude.{List, [], refl, ◌++◌, ◌∙◌, ◌∷◌, ◌≡◌}
use simple_coder.Agent.Confirm.{ConfirmChoice}
use simple_coder.App.Loop.{App, Event, Screen, Worker, Job}
use simple_coder.App.Loop.Events.{reply, handle_event, drain, drain_events}
use simple_coder.App.Loop.Streamed.{handle_event-Same}
use simple_coder.App.Loop.Finished.{handle_event-last}
use simple_coder.App.Loop.Turn.{
  IsRequest, Turn, Good, idle, working, blocked, over, last, more, Leads, Good-events,
}

module _ {W Time Double : Type 0} where
  handle_event-request :
      (s : Screen Double) (e : Event) (a : App W Time Double) (job : Job)
      (answers : List ConfirmChoice)
      → IsRequest e
      → a.worker ≡ Worker.asking job answers
      → Turn a
      → Good [] (handle_event s e a)
  unfolding handle_event reply
  handle_event-request s (Event.confirm_request details tool) a job answers h w t =
      working job (answers ++ s.ask tool details ∷ []) (rw (w, reply) refl) tt t
  handle_event-request s (Event.delta _) a job answers h w t = elim h [ ]
  handle_event-request s (Event.reasoning _) a job answers h w t = elim h [ ]
  handle_event-request s (Event.tool_info _) a job answers h w t = elim h [ ]
  handle_event-request s (Event.tool_result _ _) a job answers h w t = elim h [ ]
  handle_event-request s (Event.error _) a job answers h w t = elim h [ ]
  handle_event-request s Event.done a job answers h w t = elim h [ ]
  handle_event-request s Event.canceled a job answers h w t = elim h [ ]

  handle_event-Good :
      (s : Screen Double) (e : Event) (q : List Event) (a : App W Time Double)
      → Good (e ∷ q) a
      → Good q (handle_event s e a)
  handle_event-Good s e q a (idle i h) = cc
  handle_event-Good s e q a (working job answers w (h, hs) t) =
      let (same, flags, still) = handle_event-Same s e a h t in
      working job answers (same ∙ w) hs still
  handle_event-Good s e q a (blocked job answers w (last _ h) t) =
      handle_event-request s e a job answers h w t
  handle_event-Good s e q a (blocked job answers w (more _ _ h hs) t) =
      let (same, flags, still) = handle_event-Same s e a h t in
      blocked job answers (same ∙ w) hs still
  handle_event-Good s e q a (over w (last _ h) t) = (handle_event-last s e a h w t).0
  handle_event-Good s e q a (over w (more _ _ h hs) t) =
      let (same, flags, still) = handle_event-Same s e a h t in over (same ∙ w) hs still

  drain-Leads :
      (s : Screen Double) (q : List Event) (a : App W Time Double)
      → Good q a
      → Leads [] (drain s q a)
  unfolding drain
  drain-Leads s [] a g = (refl, Good-events [] [] a g)
  drain-Leads s (e ∷ q) a g = drain-Leads s q (handle_event s e a) (handle_event-Good s e q a g)

  pub drain_events-Leads :
      (s : Screen Double) (a : App W Time Double) → Good a.events a → Leads [] (drain_events s a)
  unfolding drain_events
  drain_events-Leads s a g = drain-Leads s a.events a g
