-- ===== src/App/Loop.antt =====
-- The class `App` of src/app/App.cpp and App.hpp: its state, and how it starts a turn. The windows and
-- what is drawn on them are not modelled. What the user, the file system and the server answer during
-- a step of the UI thread is a record. The worker thread is a state: it has none, it is inside
-- `Agent::send`, it waits for an answer, or it has pushed its last event.
pub mod Commands
pub mod Events
pub mod Keys
pub mod Threads
pub mod Kinds
pub mod Turn
pub mod Started
pub mod Streamed
pub mod Finished
pub mod Taken
pub mod Rounds
pub mod Safety
pub mod Answers
pub mod Delivery
use simple_coder.Prelude.{
  Bool, Bytes, List, Option, [], codes, false, if◌then◌else◌, length, ltb, none, take, to_string,
  true, ℕ, ◌%◌, ◌*◌, ◌++◌, ◌+◌, ◌/◌, ◌==◌, ◌∷◌,
}
use simple_coder.Util.Utf8.{utf8_text}
use simple_coder.Llm.Message.{ImagePart, ToolCall, ℤ}
use simple_coder.Agent.Confirm.{ConfirmChoice}
use simple_coder.Agent.ToolLoop.{ToolResult}
use simple_coder.Agent.Session.{Agent}
use simple_coder.App.Attachments.{ExpandResult, expand_attachments}
use simple_coder.App.Skill.{Skill}
use simple_coder.Ui.InputBar.{InputBar}
use simple_coder.Ui.ChatView.{Style, ChatView, add}

pub data Event : Type 0 where
  delta reasoning tool_info error : Bytes → Event
  tool_result confirm_request : Bytes → Bytes → Event
  done canceled : Event

-- What the thread was given: the text and the images for `send`.
pub record Job : Type 0 where
  pub payload : Bytes
  pub images : List ImagePart

-- The answers are those that the UI thread has given in this turn.
pub data Worker : Type 0 where
  no_thread ended : Worker
  sending asking : Job → List ConfirmChoice → Worker

-- The fields of `Config` that the class reads; `Double` stands for `double`.
pub record AppConfig (Double : Type 0) : Type 0 where
  pub max_image_bytes : ℕ
  pub auto_compact : Bool
  pub auto_compact_threshold : Double

-- `fault` says that the program has failed: a thread was assigned over one that is joinable, which
-- calls `std::terminate`, or the UI thread joined a worker that may wait for its answer.
pub record App (W Time Double : Type 0) : Type 0 where
  pub agent : Agent W Time
  pub chat : ChatView
  pub input : InputBar
  pub events : List Event
  pub worker : Worker
  pub busy : Bool
  pub cancel_requested : Bool
  pub last_user_message : Bytes
  pub init_pending : Bool
  pub compact_pending : Bool
  pub skills : List Skill
  pub config : AppConfig Double
  pub thinking_idx : Option ℕ
  pub content_idx : Option ℕ
  pub running : Bool
  pub agents_md : Option Bytes  -- what was written to AGENTS.md last
  pub log : List Bytes
  pub fault : Bool

-- What a step of the UI thread is told.
pub record Screen (Double : Type 0) : Type 0 where
  pub read_file : Bytes → Option Bytes
  pub ask : Bytes → Bytes → ConfirmChoice
  pub agents_md_exists : Bool
  pub agents_md_opens : Bool
  pub project_tree : Bytes
  pub models : List Bytes
  pub chat_rows : ℕ
  pub not_above_zero : Double → Bool  -- `threshold <= 0.0`
  pub reaches : ℤ → Double → ℤ → Bool  -- `used >= threshold * size`

-- `printf` rounds to even where a quotient lies halfway.
round_half_even : ℕ → ℕ → ℕ
round_half_even n d =
    let q = n / d in
    let r = n % d in
    if ltb (2 * r) d then q else if ltb d (2 * r) then q + 1 else if q % 2 == 0 then q else q + 1

-- Quotients by powers of two are exact in a `double` of this size.
unfoldable pub human_size : ℕ → Bytes
unfolding round_half_even
human_size bytes =
    if ltb bytes 1024
    then to_string bytes ++ codes " B"
    else if ltb bytes 1048576
    then to_string (round_half_even bytes 1024) ++ codes " KB"
    else let tenths = round_half_even (bytes * 10) 1048576 in
      to_string (tenths / 10) ++ codes "." ++ to_string (tenths % 10) ++ codes " MB"

-- The callbacks of `submit`, which run on the worker thread.
pub data Callback : Type 0 where
  on_content on_reasoning : Bytes → Callback
  on_tool_call : ToolCall → Callback
  on_tool_result : ToolCall → ToolResult → Callback

-- The displayed output is cut.
unfoldable pub displayed : Bytes → Bytes
displayed out = if ltb 4000 (length out) then take 4000 out ++ utf8_text "\n… [truncated]" else out

unfoldable pub event_of : Callback → Event
unfolding displayed
event_of (on_content d) = Event.delta d
event_of (on_reasoning d) = Event.reasoning d
event_of (on_tool_call call) =
    Event.tool_info (utf8_text "↳ " ++ call.name ++ codes " " ++ call.arguments)
event_of (on_tool_result call tr) =
    Event.tool_result (displayed tr.output)
      (call.name ++ (if tr.ok then utf8_text " ✓" else utf8_text " ✗"))

-- The images are not drawn: a line each.
unfoldable pub image_lines : List ImagePart → List Bytes
unfolding human_size
image_lines [] = []
image_lines (img ∷ images) =
    (utf8_text "🖼 " ++ img.name ++ codes " (" ++ human_size img.bytes ++ codes ")")
    ∷ image_lines images

-- The note on the files that were attached.
unfoldable pub attached_note : Bytes → List Bytes → Bytes
attached_note note [] = note
attached_note note (p ∷ paths) = attached_note (note ++ codes " " ++ p) paths

-- Notes, one after the other.
unfoldable pub add_all : List Bytes → Style → ChatView → ChatView
add_all [] style v = v
add_all (text ∷ texts) style v = add_all texts style (add [] text style v).0

module _ {W Time Double : Type 0} where
  -- `chat_.add("", text, style)`
  abbrev pub say : Bytes → Style → App W Time Double → App W Time Double
  say text style a = record a { chat = (add [] text style a.chat).0 }

  unfoldable pub say_all : List Bytes → Style → App W Time Double → App W Time Double
  unfolding add_all
  say_all texts style a = record a { chat = add_all texts style a.chat }

  -- A join returns at once where there is no thread, or the thread is at its end.
  unfoldable pub join_at : Worker → App W Time Double → App W Time Double
  join_at Worker.no_thread a = a
  join_at Worker.ended a = record a { worker = Worker.no_thread }
  join_at w a = record a { worker = Worker.no_thread; fault = true }

  unfoldable pub join_worker : App W Time Double → App W Time Double
  unfolding join_at
  join_worker a = join_at a.worker a

  -- `worker_ = std::thread(...)`
  unfoldable pub start_at : Worker → Job → App W Time Double → App W Time Double
  start_at Worker.no_thread job a = record a { worker = Worker.sending job [] }
  start_at w job a = record a { worker = Worker.sending job []; fault = true }

  unfoldable pub start_worker : Job → App W Time Double → App W Time Double
  unfolding start_at
  start_worker job a = start_at a.worker job a

  -- A turn is started: `display` is shown as the user's, `payload` is sent.
  unfoldable pub submit : Bytes → Bytes → List ImagePart → App W Time Double → App W Time Double
  unfolding say_all start_worker image_lines
  submit display payload images a =
      let shown =
        say_all (image_lines images) Style.dim
          (record a { chat = (add (codes "> ") display Style.plain a.chat).0 }) in
      start_worker (record { payload = payload; images = images })
        (record shown {
          thinking_idx = none;
          content_idx = none;
          busy = true;
          cancel_requested = false;
        })

  unfoldable pub note_attached : List Bytes → App W Time Double → App W Time Double
  unfolding attached_note
  note_attached [] a = a
  note_attached (p ∷ paths) a = say (attached_note (codes "attached:") (p ∷ paths)) Style.dim a

  -- With an error nothing is sent.
  unfoldable pub send_expanded :
      Bytes → ExpandResult → List Bytes → App W Time Double → App W Time Double
  unfolding submit say_all note_attached
  send_expanded line ex (e ∷ errors) a = say_all (e ∷ errors) Style.error a
  send_expanded line ex [] a =
      note_attached ex.attached
        (submit line ex.text ex.images (record a { last_user_message = line }))

  unfoldable pub handle_user_input : Screen Double → Bytes → App W Time Double → App W Time Double
  unfolding send_expanded
  handle_user_input s line a =
      let ex = expand_attachments s.read_file a.config.max_image_bytes line in
      send_expanded line ex ex.errors a
