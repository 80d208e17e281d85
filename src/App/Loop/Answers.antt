-- ===== src/App/Loop/Answers.antt =====
-- What the worker thread of src/app/App.cpp waits for comes: an answer, and the end of the turn.
use simple_coder.Prelude.{Bytes, List, [], ◌++◌, ◌∷◌, ◌≡◌}
use simple_coder.Agent.Confirm.{ConfirmChoice}
use simple_coder.App.Loop.{App, Screen, Worker, Job}
use simple_coder.App.Loop.Turn.{Turn}

module _ {W Time Double : Type 0} where
  -- The worker goes on with one answer more, which is the user's to a request, and the queue is empty.
  abbrev pub Answered : Screen Double → Job → List ConfirmChoice → App W Time Double → Type 0
  Answered s job answers b =
      (tool : Bytes) × (details : Bytes) × (b.worker
        ≡ Worker.sending job (answers ++ s.ask tool details ∷ []))
      × (b.events ≡ [])
