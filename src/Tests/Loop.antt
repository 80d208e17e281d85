-- ===== src/Tests/Loop.antt =====
-- Runs of the model of src/app/App.cpp: a line is typed and sent, the worker streams, asks and ends.
use simple_coder.Prelude.{List, [], codes, false, length, none, refl, true, ◌++◌, ◌∷◌, ◌≡◌}
use simple_coder.Llm.Message.{pos}
use simple_coder.Agent.Confirm.{ConfirmChoice, empty_policy}
use simple_coder.Agent.Session.{Agent}
use simple_coder.Util.Utf8.{encode}
use simple_coder.App.Attachments.{expand_attachments}
use simple_coder.Ui.ChatView.{add, append_to}
use simple_coder.Ui.InputBar.{empty_bar, handle_key}
use simple_coder.App.Loop.{App, AppConfig, Event, Screen, Worker, Job, Callback, event_of}
use simple_coder.App.Loop.Events.{handle_event, drain}
use simple_coder.App.Loop.Keys.{Read, Peek, on_read, start}
use simple_coder.App.Loop.Kinds.{kind_at}
use simple_coder.App.Loop.Threads.{push_event, request_confirmation, Step, Reach}
use simple_coder.App.Loop.Turn.{Idle, Turn, Good}
use simple_coder.App.Loop.Safety.{Reach-Good, Reach-fault}
use simple_coder.App.Loop.Delivery.{answer_of, text_at, Holds, drain-Holds}

abbrev agent : Agent Unit Unit
agent = record {
  settings = record { model = codes "m"; system_prompt = []; max_tool_iterations = 3 };
  history = [];
  gate = record { policy = empty_policy; always_allowed = [] };
  last_total_tokens = pos 0;
  context_size = pos 0;
  last_tokens_per_second = tt;
  world = tt;
}

abbrev config : AppConfig Unit
config = record { max_image_bytes = 0; auto_compact = true; auto_compact_threshold = tt }

abbrev screen : Screen Unit
screen = record {
  read_file = λ p. none;
  ask = λ tool details. ConfirmChoice.always;
  agents_md_exists = false;
  agents_md_opens = true;
  project_tree = codes "a.c\n";
  models = [];
  chat_rows = 10;
  not_above_zero = λ d. false;
  reaches = λ n d m. true;
}

abbrev began : App Unit Unit Unit
began = start agent [] config (codes "banner")

abbrev typed : App Unit Unit Unit
typed = on_read screen Peek.no_peek (Read.character b'h') began

abbrev sent : App Unit Unit Unit
sent = on_read screen Peek.no_peek (Read.character 10) typed

abbrev job : Job
job = record { payload = codes "h"; images = [] }

sent_runs :
    (sent.worker ≡ Worker.sending job [])
    × (sent.busy ≡ true)
    × (sent.input ≡ empty_bar)
    × (length sent.chat.entries ≡ 2)
unfolding on_read start handle_key encode expand_attachments add
sent_runs = (refl, refl, refl, refl)

abbrev streamed : App Unit Unit Unit
streamed = push_event (event_of (Callback.on_content (codes "ok"))) sent

abbrev asked : App Unit Unit Unit
asked = request_confirmation job [] (codes "run_bash") (codes "ls") streamed

asked_reached : Reach began asked
unfolding on_read start handle_key encode expand_attachments add push_event
asked_reached =
    Reach.next
      (Reach.next
        (Reach.next
          (Reach.next Reach.here (Step.round screen Peek.no_peek (Read.character b'h') refl refl))
          (Step.round screen Peek.no_peek (Read.character 10) refl refl))
        (Step.call_back job [] (Callback.on_content (codes "ok")) refl refl))
      (Step.request job [] (codes "run_bash") (codes "ls") refl refl)

Reach-Good_example : Good asked.events asked
Reach-Good_example = Reach-Good agent [] config (codes "banner") asked asked_reached

Reach-fault_example :
    (asked.fault ≡ false) × (asked.running ≡ false → Idle asked × (asked.events ≡ []))
Reach-fault_example = Reach-fault agent [] config (codes "banner") asked asked_reached

-- A turn of /init that the worker has finished.
abbrev generated : App Unit Unit Unit
generated = record sent {
  worker = Worker.ended;
  events = Event.delta (codes "# A") ∷ Event.done ∷ [];
  init_pending = true;
}

abbrev begun : App Unit Unit Unit
begun = handle_event screen (Event.delta (codes "o")) sent

begun-Turn : Turn begun
unfolding on_read start handle_key encode expand_attachments add handle_event kind_at append_to
begun-Turn = (refl, refl, refl, refl, refl, tt, refl)

begun-Holds : Holds 2 (codes "o") begun
unfolding on_read start handle_key encode expand_attachments add handle_event text_at append_to
begun-Holds = (refl, refl)

abbrev pieces : List Event
pieces = Event.reasoning (codes "hm") ∷ Event.delta (codes "k") ∷ []

drain-Holds_example : Holds 2 (codes "o" ++ answer_of pieces) (drain screen pieces begun)
drain-Holds_example =
    drain-Holds screen pieces begun 2 (codes "o") (tt, (tt, tt)) begun-Turn begun-Holds

drain_runs : answer_of pieces ≡ codes "k"
unfolding answer_of
drain_runs = refl
