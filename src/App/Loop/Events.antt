-- ===== src/App/Loop/Events.antt =====
-- `drain_events` of src/app/App.cpp: the events that the worker thread has pushed.
use simple_coder.Prelude.{
  Bool, Bytes, List, Option, [], codes, false, none, not, some, true, ℕ, ◌&&◌, ◌++◌, ◌∷◌,
}
use simple_coder.Util.Utf8.{utf8_text}
use simple_coder.Agent.Confirm.{ConfirmChoice}
use simple_coder.Ui.ChatView.{
  Style, ChatView, add, add_thinking, add_tool_output, append_to, set_collapsed,
}
use simple_coder.App.Loop.{App, Event, Screen, Worker, say, join_worker}
use simple_coder.App.Loop.Commands.{finish_init, finish_compact, maybe_auto_compact}

-- `if (thinking_idx_) chat_.set_collapsed(*thinking_idx_, true);`
unfoldable pub fold_thinking : Option ℕ → ChatView → ChatView
fold_thinking none v = v
fold_thinking (some i) v = set_collapsed i true v

-- `ev.reply->set_value(...)`: the worker goes on with the answer.
unfoldable pub reply : ConfirmChoice → Worker → Worker
reply choice (Worker.asking job answers) = Worker.sending job (answers ++ choice ∷ [])
reply choice w = w

module _ {W Time Double : Type 0} where
  -- `if (!thinking_idx_) thinking_idx_ = chat_.add_thinking();`
  unfoldable pub thinking_entry : Option ℕ → App W Time Double → App W Time Double × ℕ
  thinking_entry (some i) a = (a, i)
  thinking_entry none a = (
    record a { chat = (add_thinking a.chat).0; thinking_idx = some (add_thinking a.chat).1 },
    (add_thinking a.chat).1,
  )

  -- The entry that the answer goes to; the reasoning is folded where an answer begins.
  unfoldable pub content_entry : Option ℕ → App W Time Double → App W Time Double × ℕ
  unfolding fold_thinking
  content_entry (some i) a = (a, i)
  content_entry none a =
      let added = add (codes "* ") [] Style.plain (fold_thinking a.thinking_idx a.chat) in
      (record a { chat = added.0; content_idx = some added.1 }, added.1)

  unfoldable pub append_chat : Bytes → App W Time Double × ℕ → App W Time Double
  append_chat text (a, i) = record a { chat = append_to i text a.chat }

  -- `if (init_pending_) { finish_init(); init_pending_ = false; }`
  unfoldable pub end_init : Bool → Screen Double → App W Time Double → App W Time Double
  unfolding finish_init
  end_init false s a = a
  end_init true s a = record (finish_init s a) { init_pending = false }

  unfoldable pub end_compact : Bool → App W Time Double → App W Time Double
  unfolding finish_compact
  end_compact false a = a
  end_compact true a = record (finish_compact a) { compact_pending = false }

  -- Only an ordinary turn is followed by an automatic compaction.
  unfoldable pub end_ordinary : Bool → Screen Double → App W Time Double → App W Time Double
  unfolding maybe_auto_compact
  end_ordinary true s a = maybe_auto_compact s a
  end_ordinary false s a = a

  -- What follows the join.
  unfoldable pub after_join : Screen Double → App W Time Double → App W Time Double
  unfolding end_init end_compact end_ordinary
  after_join s a =
      let first = end_init a.init_pending s a in
      end_ordinary (not a.init_pending && not a.compact_pending) s
        (end_compact first.compact_pending first)

  unfoldable pub finish_done : Screen Double → App W Time Double → App W Time Double
  unfolding fold_thinking join_worker after_join
  finish_done s a =
      after_join s (record (join_worker (record a { chat = fold_thinking a.thinking_idx a.chat })) {
        busy = false;
      })

  -- What `Canceled` and `Error` share.
  unfoldable pub abandon : App W Time Double → App W Time Double
  unfolding join_worker
  abandon a = record (join_worker a) { busy = false; init_pending = false; compact_pending = false }

  unfoldable pub handle_event : Screen Double → Event → App W Time Double → App W Time Double
  unfolding thinking_entry fold_thinking content_entry append_chat reply finish_done abandon
      join_worker
  handle_event s (Event.reasoning text) a = append_chat text (thinking_entry a.thinking_idx a)
  handle_event s (Event.delta text) a = append_chat text (content_entry a.content_idx a)
  handle_event s (Event.tool_info text) a = record (say text Style.dim a) { content_idx = none }
  handle_event s (Event.tool_result out header) a = record a {
    chat = (add_tool_output header out true a.chat).0;
    content_idx = none;
  }
  handle_event s (Event.confirm_request details tool) a = record a {
    worker = reply (s.ask tool details) a.worker;
  }
  handle_event s Event.done a = finish_done s a
  handle_event s Event.canceled a =
      say (utf8_text "⏹ Generation cancelled.") Style.dim
        (abandon (record a { chat = fold_thinking a.thinking_idx a.chat }))
  handle_event s (Event.error text) a =
      let told = abandon a in
      record told {
        chat = (add (codes "error") text Style.error told.chat).0;
        log = told.log ++ (codes "request failed: " ++ text) ∷ [];
      }

  -- The queue is emptied; what the worker pushes meanwhile is left for the next time.
  unfoldable pub drain : Screen Double → List Event → App W Time Double → App W Time Double
  unfolding handle_event
  drain s [] a = record a { events = [] }
  drain s (e ∷ events) a = drain s events (handle_event s e a)

  unfoldable pub drain_events : Screen Double → App W Time Double → App W Time Double
  unfolding drain
  drain_events s a = drain s a.events a
