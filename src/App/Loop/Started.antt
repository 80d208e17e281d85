-- ===== src/App/Loop/Started.antt =====
-- What a command of src/app/App.cpp leads to: no turn, or a fresh one.
use simple_coder.Prelude.{Bytes, List, Option, [], false, none, refl, some, ◌∷◌, ◌≡◌}
use simple_coder.Ui.ChatView.{add}
use simple_coder.App.Skill.{Skill, find}
use simple_coder.App.Attachments.{ExpandResult, expand_attachments}
use simple_coder.App.Command.{CommandKind, parse_command}
use simple_coder.App.Loop.Kinds.{push_entry-Keeps}
use simple_coder.App.Loop.{
  App, Event, Screen, say_all, note_attached, send_expanded, handle_user_input,
}
use simple_coder.App.Loop.Commands.{
  announce_init, announce_compact, run_init, generate_agents_md, start_skill, list_skills,
  run_skill, skill_name, skill_extra, run_compact, list_models, choose_model, retry_last,
  run_unknown, run_kind, run_line,
}
use simple_coder.App.Loop.Turn.{Idle, Ready, Leads, if-Leads, Idle-Leads, submit-Leads, Good-shown}

module _ {W Time Double : Type 0} where
  note_attached-Leads :
      (es : List Event) (paths : List Bytes) (a : App W Time Double)
      → Leads es a
      → Leads es (note_attached paths a)
  unfolding note_attached add
  note_attached-Leads es [] a h = h
  note_attached-Leads es (p ∷ paths) a (e, g) =
      (e, Good-shown [] a _ a.cancel_requested (push_entry-Keeps _ a.chat) g)

  pub send_expanded-Leads :
      (line : Bytes) (ex : ExpandResult) (errors : List Bytes) (a : App W Time Double)
      → Ready a
      → Idle a
      → Leads a.events (send_expanded line ex errors a)
  unfolding send_expanded say_all
  send_expanded-Leads line ex (e ∷ errors) a r i = Idle-Leads _ i
  send_expanded-Leads line ex [] a r i = note_attached-Leads a.events ex.attached _ (
      submit-Leads line ex.text ex.images (record a { last_user_message = line }) r (rw (i.2) refl))

  handle_user_input-Leads :
      (s : Screen Double) (line : Bytes) (a : App W Time Double)
      → Ready a
      → Idle a
      → Leads a.events (handle_user_input s line a)
  unfolding handle_user_input
  handle_user_input-Leads s line a =
      let ex = expand_attachments s.read_file a.config.max_image_bytes line in
      send_expanded-Leads line ex ex.errors a

  run_init-Leads :
      (s : Screen Double) (a : App W Time Double) → Ready a → Idle a → Leads a.events (run_init s a)
  unfolding run_init generate_agents_md
  run_init-Leads s a r i =
      if-Leads a.events _ _ _ (Idle-Leads _ i) (submit-Leads _ _ [] (announce_init a) r (i.3))

  pub run_compact-Leads :
      (a : App W Time Double)
      → Ready a
      → a.init_pending ≡ false
      → Idle a
      → Leads a.events (run_compact a)
  unfolding run_compact
  run_compact-Leads a r n i =
      if-Leads a.events _ _ _ (Idle-Leads _ i)
        (submit-Leads _ _ [] (announce_compact a) r (rw n refl))

  start_skill-Leads :
      (name : Bytes) (found : Option Skill) (extra : Bytes) (a : App W Time Double)
      → Ready a
      → Idle a
      → Leads a.events (start_skill name found extra a)
  unfolding start_skill
  start_skill-Leads name none extra a r i = Idle-Leads _ i
  start_skill-Leads name (some s) extra a r i = submit-Leads _ _ [] a r (rw (i.2) refl)

  list_skills-Leads :
      (skills : List Skill) (a : App W Time Double) → Idle a → Leads a.events (list_skills skills a)
  unfolding list_skills say_all
  list_skills-Leads [] a i = Idle-Leads _ i
  list_skills-Leads (s ∷ skills) a i = Idle-Leads _ i

  run_skill-Leads :
      (arg : Bytes) (a : App W Time Double) → Ready a → Idle a → Leads a.events (run_skill arg a)
  unfolding run_skill
  run_skill-Leads arg a r i =
      if-Leads a.events _ _ _ (list_skills-Leads a.skills a i) (
        start_skill-Leads (skill_name arg) (find (skill_name arg) a.skills) (skill_extra arg) a r i)

  choose_model-Leads :
      (s : Screen Double) (arg : Bytes) (a : App W Time Double)
      → Idle a
      → Leads a.events (choose_model s arg a)
  unfolding choose_model list_models say_all
  choose_model-Leads s (c ∷ arg) a i = Idle-Leads _ i
  choose_model-Leads s [] a i = listed s.models
    where
      listed : (models : List Bytes) → Leads a.events (list_models a.agent.settings.model models a)
      listed [] = Idle-Leads _ i
      listed (m ∷ models) = Idle-Leads _ i

  run_kind-Leads :
      (s : Screen Double) (line : Bytes) (kind : CommandKind) (arg : Bytes) (a : App W Time Double)
      → Ready a
      → Idle a
      → Leads a.events (run_kind s line kind arg a)
  unfolding run_kind retry_last run_unknown
  run_kind-Leads s line CommandKind.not_command arg a r i =
      if-Leads a.events _ _ _ (Idle-Leads a i) (handle_user_input-Leads s line a r i)
  run_kind-Leads s line CommandKind.quit arg a r i = Idle-Leads _ i
  run_kind-Leads s line CommandKind.help arg a r i = Idle-Leads a i
  run_kind-Leads s line CommandKind.clear arg a r i = Idle-Leads _ i
  run_kind-Leads s line CommandKind.retry arg a r i = retried a.last_user_message
    where
      retried : (before : Bytes) → Leads a.events (retry_last s before a)
      retried [] = Idle-Leads _ i
      retried (c ∷ before) = handle_user_input-Leads s (c ∷ before) a r i
  run_kind-Leads s line CommandKind.model arg a r i = choose_model-Leads s arg a i
  run_kind-Leads s line CommandKind.init arg a r i = run_init-Leads s a r i
  run_kind-Leads s line CommandKind.compact arg a r i = run_compact-Leads a r (i.2) i
  run_kind-Leads s line CommandKind.skill arg a r i = run_skill-Leads arg a r i
  run_kind-Leads s line CommandKind.unknown arg a r i = named (find arg a.skills)
    where
      named : (found : Option Skill) → Leads a.events (run_unknown found arg a)
      named none = Idle-Leads _ i
      named (some k) = run_skill-Leads arg a r i

  pub run_line-Leads :
      (s : Screen Double) (line : Bytes) (a : App W Time Double)
      → Ready a
      → Idle a
      → Leads a.events (run_line s line a)
  unfolding run_line
  run_line-Leads s line a r i =
      run_kind-Leads s line (parse_command line).kind (parse_command line).arg a r i
