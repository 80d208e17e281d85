-- ===== src/App/Loop/Keys.antt =====
-- The loop of `App::run` in src/app/App.cpp: one round, by what was read from the terminal. The windows
-- are built again and drawn without any effect on the state.
use simple_coder.Prelude.{
  Bool, Bytes, List, Option, [], false, if◌then◌else◌, is_empty, leb, none, not, some, true, ℕ,
  ◌&&◌, ◌==◌, ◌||◌,
}
use simple_coder.Util.Utf8.{utf8_text, encode}
use simple_coder.Ui.InputBar.{InputBar, Key, empty_bar, handle_key, insert_text, insert_newline}
use simple_coder.Ui.ChatView.{
  Style, ChatView, empty_view, add_preformatted, toggle_last_collapsible, scroll_up, scroll_down,
  scroll_page_up, scroll_page_down, scroll_to_top, scroll_to_bottom,
}
use simple_coder.Agent.Session.{Agent}
use simple_coder.App.Skill.{Skill}
use simple_coder.App.Loop.{App, AppConfig, Screen, Worker, say}
use simple_coder.App.Loop.Commands.{run_line}
use simple_coder.App.Loop.Events.{drain_events}

pub data Wheel : Type 0 where
  turned_up turned_down neither : Wheel

-- What `wget_wch` gives: nothing in time, a character, or the code of a key.
pub data Read : Type 0 where
  nothing resize f1 page_up page_down : Read
  character : ℕ → Read
  mouse : Wheel → Read
  key : Key → Read

-- What the second read after an escape gives.
pub data Peek : Type 0 where
  no_peek : Peek
  peek_char : ℕ → Peek
  peek_key : Key → Peek

abbrev pub is_printable : ℕ → Bool
is_printable ch = leb 32 ch && not (ch == 127)

unfoldable pub is_enter : Key → Bool
is_enter Key.enter = true
is_enter k = false

module _ {W Time Double : Type 0} where
  unfoldable pub edit : Key → App W Time Double → App W Time Double
  edit k a = record a { input = (handle_key k a.input).1 }

  -- A key moves the cursor where a text is being typed, and the chat where none is.
  unfoldable pub edit_or : Key → (ChatView → ChatView) → App W Time Double → App W Time Double
  unfolding edit
  edit_or k scroll a =
      if is_empty a.input.buffer then record a { chat = scroll a.chat } else edit k a

  unfoldable pub cancel : App W Time Double → App W Time Double
  cancel a =
      if a.cancel_requested
      then a
      else say (utf8_text "⏹ Cancelling…") Style.dim (record a { cancel_requested = true })

  -- Escape, when idle: Alt-Enter, another character or key, or a stray escape. A character is compared
  -- with `KEY_ENTER`, the number 343, as well.
  unfoldable pub after_escape : Peek → App W Time Double → App W Time Double
  unfolding edit is_enter
  after_escape no_peek a = a
  after_escape (peek_char ch) a =
      if ch == 10 || ch == 13 || ch == 343
      then record a { input = insert_newline a.input }
      else if is_printable ch
      then record a { input = insert_text (encode ch) a.input }
      else edit (Key.char ch) a
  after_escape (peek_key k) a =
      if is_enter k then record a { input = insert_newline a.input } else edit k a

  -- `if (auto submitted = input_.handle_key(ch))`
  unfoldable pub on_submitted :
      Screen Double → Option Bytes × InputBar → App W Time Double → App W Time Double
  unfolding run_line
  on_submitted s (none, input) a = record a { input = input }
  on_submitted s (some line, input) a = run_line s line (record a { input = input })

  -- A key that is left for the prompt: while a reply is on its way it is ignored.
  unfoldable pub type_key : Screen Double → Key → App W Time Double → App W Time Double
  unfolding on_submitted drain_events
  type_key s k a = if a.busy then drain_events s a else on_submitted s (handle_key k a.input) a

  unfoldable pub type_control : Screen Double → Peek → ℕ → App W Time Double → App W Time Double
  unfolding cancel type_key after_escape
  type_control s peek ch a =
      if a.busy && ch == 27
      then cancel a
      else if ch == 9
      then record a { chat = toggle_last_collapsible a.chat }
      else if not a.busy && ch == 27
      then after_escape peek a
      else type_key s (Key.char ch) a

  unfoldable pub turn_wheel : Wheel → App W Time Double → App W Time Double
  turn_wheel Wheel.turned_up a = record a { chat = scroll_up 3 a.chat }
  turn_wheel Wheel.turned_down a = record a { chat = scroll_down 3 a.chat }
  turn_wheel Wheel.neither a = a

  unfoldable pub press : Screen Double → Key → App W Time Double → App W Time Double
  unfolding edit_or type_key
  press s Key.up a = edit_or Key.up (scroll_up 1) a
  press s Key.down a = edit_or Key.down (scroll_down 1) a
  press s Key.left a = edit_or Key.left (λ chat. chat) a
  press s Key.right a = edit_or Key.right (λ chat. chat) a
  press s Key.home a = edit_or Key.home scroll_to_top a
  press s Key.end a = edit_or Key.end scroll_to_bottom a
  press s k a = type_key s k a

  unfoldable pub on_read : Screen Double → Peek → Read → App W Time Double → App W Time Double
  unfolding drain_events type_control turn_wheel press
  on_read s peek Read.nothing a = drain_events s a
  on_read s peek (Read.character ch) a =
      if is_printable ch
      then if a.busy then a else record a { input = insert_text (encode ch) a.input }
      else type_control s peek ch a
  on_read s peek Read.resize a = a
  on_read s peek Read.f1 a = a
  on_read s peek Read.page_up a = record a { chat = scroll_page_up s.chat_rows a.chat }
  on_read s peek Read.page_down a = record a { chat = scroll_page_down s.chat_rows a.chat }
  on_read s peek (Read.mouse wheel) a = turn_wheel wheel a
  on_read s peek (Read.key k) a = press s k a

  -- The state that `run` begins its loop with; the banner is that of src/ui/Banner.cpp.
  unfoldable pub start : Agent W Time → List Skill → AppConfig Double → Bytes → App W Time Double
  unfolding add_preformatted
  start agent skills config banner = record {
    agent = agent;
    chat = (add_preformatted banner Style.accent empty_view).0;
    input = empty_bar;
    events = [];
    worker = Worker.no_thread;
    busy = false;
    cancel_requested = false;
    last_user_message = [];
    init_pending = false;
    compact_pending = false;
    skills = skills;
    config = config;
    thinking_idx = none;
    content_idx = none;
    running = true;
    agents_md = none;
    log = [];
    fault = false;
  }
