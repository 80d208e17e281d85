-- ===== src/App/Loop/Finished.antt =====
-- The event that ends a turn in src/app/App.cpp, and the follow-ups of /init and /compact.
use simple_coder.Prelude.{
  Bool, Bytes, [], codes, false, refl, subst, sym, true, ◌++◌, ◌∙◌, ◌∷◌, ◌≡◌,
}
use simple_coder.Util.Utf8.{utf8_text}
use simple_coder.Ui.ChatView.{Style, add}
use simple_coder.App.SystemPrompt.{strip_code_fence}
use simple_coder.App.Loop.{App, Event, Screen, Worker, join_worker, join_at, say}
use simple_coder.App.Loop.Commands.{
  announce_auto, write_agents_md, finish_init, compact_with, finish_compact, compact_if,
  maybe_auto_compact, last_answer,
}
use simple_coder.App.Loop.Events.{
  fold_thinking, end_init, end_compact, end_ordinary, after_join, finish_done, abandon,
  handle_event,
}
use simple_coder.App.Loop.Started.{run_compact-Leads}
use simple_coder.App.Loop.Turn.{IsLast, Idle, Turn, Good, idle, Ready, is_ordinary, Idle-Leads}

module _ {W Time Double : Type 0} where
  write_agents_md-Ready :
      (opens : Bool) (text : Bytes) (a : App W Time Double)
      → Ready a
      → Ready (write_agents_md opens text a) × ((write_agents_md opens text a).busy ≡ a.busy)
  unfolding write_agents_md
  write_agents_md-Ready opens [] a h = (h, refl)
  write_agents_md-Ready true (c ∷ text) a h = (h, refl)
  write_agents_md-Ready false (c ∷ text) a h = (h, refl)

  compact_with-Ready :
      (text : Bytes) (a : App W Time Double)
      → Ready a
      → Ready (compact_with text a)
        × ((compact_with text a).init_pending ≡ a.init_pending)
        × ((compact_with text a).busy ≡ a.busy)
  unfolding compact_with
  compact_with-Ready [] a h = (h, refl, refl)
  compact_with-Ready (c ∷ text) a h = (h, refl, refl)

  -- After the two follow-ups nothing is pending.
  end_init-Ready :
      (pending : Bool) (s : Screen Double) (a : App W Time Double)
      → pending ≡ a.init_pending
      → Ready a
      → a.busy ≡ false
      → Ready (end_init pending s a)
        × ((end_init pending s a).init_pending ≡ false)
        × ((end_init pending s a).busy ≡ false)
  unfolding end_init finish_init
  end_init-Ready false s a e h b = (h, sym e, b)
  end_init-Ready true s a e h b =
      let text = strip_code_fence (last_answer a.agent.history) in
      let (r, same) = write_agents_md-Ready s.agents_md_opens text a h in (r, refl, same ∙ b)

  end_compact-Ready :
      (pending : Bool) (a : App W Time Double)
      → pending ≡ a.compact_pending
      → Ready a
      → a.busy ≡ false
      → a.init_pending ≡ false
      → Ready (end_compact pending a) × Idle (end_compact pending a)
  unfolding end_compact finish_compact
  end_compact-Ready false a e h b i = (h, (h.0, b, i, sym e, h.3))
  end_compact-Ready true a e h b i =
      let (r, same, still) = compact_with-Ready (last_answer a.agent.history) a h in
      (r, (r.0, still ∙ b, same ∙ i, refl, r.3))

  compact_if-Good :
      (full : Bool) (a : App W Time Double) → Ready a → Idle a → Good [] (compact_if full a)
  unfolding compact_if
  compact_if-Good false a r i = (Idle-Leads a i).1
  compact_if-Good true a r i = (run_compact-Leads (announce_auto a) r (i.2) i).1

  end_ordinary-Good :
      (ordinary : Bool) (s : Screen Double) (a : App W Time Double)
      → Ready a
      → Idle a
      → Good [] (end_ordinary ordinary s a)
  unfolding end_ordinary maybe_auto_compact
  end_ordinary-Good false s a r i = (Idle-Leads a i).1
  end_ordinary-Good true s a r i = compact_if-Good _ a r i

  after_join-Good :
      (s : Screen Double) (a : App W Time Double)
      → Ready a
      → a.busy ≡ false
      → Good [] (after_join s a) × (is_ordinary a ≡ false → Idle (after_join s a))
  unfolding after_join end_ordinary
  after_join-Good s a h b =
      let first = end_init a.init_pending s a in
      let (r, i, c) = end_init-Ready a.init_pending s a refl h b in
      let (r', free) = end_compact-Ready first.compact_pending first refl r c i in
      let last = end_compact first.compact_pending first in
      (
        end_ordinary-Good (is_ordinary a) s last r' free,
        λ o. subst (λ t. Idle (end_ordinary t s last)) (sym o) free,
      )

  join_worker-ended :
      (a : App W Time Double)
      → a.worker ≡ Worker.ended
      → join_worker a ≡ record a { worker = Worker.no_thread }
  unfolding join_worker
  join_worker-ended a w = rw (w, join_at) refl

  -- The turn ends; after /init and /compact no other one is begun.
  abbrev pub Ended : Bool → App W Time Double → Type 0
  Ended ordinary b = Good [] b × (ordinary ≡ false → Idle b)

  -- The event that ends the turn.
  pub handle_event-last :
      (s : Screen Double) (e : Event) (a : App W Time Double)
      → IsLast e
      → a.worker ≡ Worker.ended
      → Turn a
      → Ended (is_ordinary a) (handle_event s e a)
  unfolding handle_event finish_done abandon
  handle_event-last s Event.done a h w (b, q, r, p, f, t, k) =
      let folded = record a { chat = fold_thinking a.thinking_idx a.chat } in
      subst (λ j. Ended (is_ordinary a) (after_join s (record j { busy = false })))
        (sym (join_worker-ended folded w))
        (after_join-Good s (record folded { worker = Worker.no_thread; busy = false })
          (refl, q, r, f) refl)
  handle_event-last s Event.canceled a h w (b, q, r, p, f, t, k) =
      let folded = record a { chat = fold_thinking a.thinking_idx a.chat } in
      subst
        (λ j. Ended (is_ordinary a) (
          say (utf8_text "⏹ Generation cancelled.") Style.dim
            (record j { busy = false; init_pending = false; compact_pending = false })))
        (sym (join_worker-ended folded w))
        (idle (refl, refl, refl, refl, f) refl, λ _. (refl, refl, refl, refl, f))
  handle_event-last s (Event.error text) a h w (b, q, r, p, f, t, k) =
      subst
        (λ j. Ended (is_ordinary a) (record j {
          busy = false;
          init_pending = false;
          compact_pending = false;
          chat = (add (codes "error") text Style.error j.chat).0;
          log = j.log ++ (codes "request failed: " ++ text) ∷ [];
        }))
        (sym (join_worker-ended a w))
        (idle (refl, refl, refl, refl, f) refl, λ _. (refl, refl, refl, refl, f))
  handle_event-last s (Event.delta _) a h w _ = elim h [ ]
  handle_event-last s (Event.reasoning _) a h w _ = elim h [ ]
  handle_event-last s (Event.tool_info _) a h w _ = elim h [ ]
  handle_event-last s (Event.tool_result _ _) a h w _ = elim h [ ]
  handle_event-last s (Event.confirm_request _ _) a h w _ = elim h [ ]
