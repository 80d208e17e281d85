-- ===== src/App/Loop/Commands.antt =====
-- The slash commands of src/app/App.cpp, and what follows a turn that they started.
use simple_coder.Prelude.{
  Bool, Bytes, List, Option, [], back_or, bytes_eq, codes, drop, drop_while, false, if◌then◌else◌,
  is_empty, length, map, none, not, some, true, ℕ, ◌&&◌, ◌++◌, ◌==◌, ◌||◌, ◌∷◌,
}
use simple_coder.Util.Utf8.{utf8_text}
use simple_coder.Llm.Message.{Role, Message, ℤ, is_positive}
use simple_coder.Agent.Confirm.{ConfirmChoice}
use simple_coder.Agent.Session.{reset, compact_into_summary, set_model, set_system_prompt}
use simple_coder.App.Command.{CommandKind, parse_command}
use simple_coder.App.Prompts.{init_prompt, compact_prompt}
use simple_coder.App.Skill.{Skill, find}
use simple_coder.App.SystemPrompt.{strip_code_fence}
use simple_coder.Ui.ChatView.{Style, clear}
use simple_coder.App.Loop.{App, Screen, say, say_all, submit, handle_user_input}

-- `content` of the last message of the assistant that is not empty; empty if there is none.
unfoldable pub last_answer : List Message → Bytes
last_answer [] = []
last_answer (m ∷ ms) =
    let later = last_answer ms in
    if not (is_empty later) then later else elim m.role [ Role.assistant ↦ m.content | _ ↦ [] ]

unfoldable pub has_turns : List Message → Bool
has_turns [] = false
has_turns (m ∷ ms) = elim m.role [ Role.system ↦ has_turns ms | _ ↦ true ]

-- `context_is_full` of src/ui/Banner.cpp
unfoldable pub context_is_full : {Double : Type 0} → Screen Double → ℤ → ℤ → Double → Bool
context_is_full s used size threshold =
    if not (is_positive used) || not (is_positive size) || s.not_above_zero threshold
    then false
    else s.reaches used threshold size

-- "name [extra user text]"
abbrev is_blank : ℕ → Bool
is_blank c = c == 32 || c == 9

unfoldable pub skill_name : Bytes → Bytes
skill_name [] = []
skill_name (c ∷ arg) = let name = skill_name arg in if is_blank c then [] else c ∷ name

-- What follows the first blank and the blanks after it.
unfoldable pub skill_extra : Bytes → Bytes
unfolding skill_name
skill_extra arg = drop_while is_blank (drop (length (skill_name arg)) arg)

unfoldable pub skill_line : Skill → Bytes
skill_line s =
    codes "  /"
    ++ s.name
    ++ (if is_empty s.description then [] else utf8_text " — " ++ s.description)

unfoldable pub model_line : Bytes → Bytes → Bytes
unfolding bytes_eq
model_line cur m = (if bytes_eq m cur then utf8_text "  • " else codes "    ") ++ m

unfoldable pub is_no : ConfirmChoice → Bool
is_no ConfirmChoice.no_once = true
is_no choice = false

module _ {W Time Double : Type 0} where
  abbrev pub announce_init : App W Time Double → App W Time Double
  announce_init a =
      record (say (utf8_text "Scanning the project and generating AGENTS.md…") Style.dim a) {
        init_pending = true;
      }

  unfoldable pub generate_agents_md : Screen Double → App W Time Double → App W Time Double
  unfolding init_prompt submit
  generate_agents_md s a = submit (codes "/init") (init_prompt s.project_tree) [] (announce_init a)

  unfoldable pub run_init : Screen Double → App W Time Double → App W Time Double
  unfolding generate_agents_md is_no
  run_init s a =
      if s.agents_md_exists
        && is_no (
            s.ask (codes "overwrite AGENTS.md")
              (utf8_text "AGENTS.md already exists — overwrite it with a generated one?"))
      then say (codes "/init cancelled.") Style.dim a
      else generate_agents_md s a

  unfoldable pub write_agents_md : Bool → Bytes → App W Time Double → App W Time Double
  unfolding set_system_prompt
  write_agents_md opens [] a = say (codes "/init produced no content.") Style.error a
  write_agents_md opens (c ∷ content) a =
      if not opens
      then say (codes "Could not write AGENTS.md.") Style.error a
      else say
          (codes
            "Wrote AGENTS.md. Use /clear to start a conversation with it as the system prompt.")
          Style.dim
          (record a {
            agents_md =
                some (c ∷ content ++ (if back_or content c == b'\n' then [] else b'\n' ∷ []));
            agent = set_system_prompt (c ∷ content) a.agent;
          })

  unfoldable pub finish_init : Screen Double → App W Time Double → App W Time Double
  unfolding last_answer strip_code_fence write_agents_md
  finish_init s a =
      write_agents_md s.agents_md_opens (strip_code_fence (last_answer a.agent.history)) a

  -- /skill with a name.
  unfoldable pub start_skill : Bytes → Option Skill → Bytes → App W Time Double → App W Time Double
  unfolding submit
  start_skill name none extra a =
      say (codes "Unknown skill: " ++ name ++ codes "  (try /skill to list)") Style.error a
  start_skill name (some s) extra a =
      submit (codes "/" ++ s.name ++ (if is_empty extra then [] else codes " " ++ extra))
        (s.body ++ (if is_empty extra then [] else codes "\n\n" ++ extra)) [] a

  -- /skill without one.
  unfoldable pub list_skills : List Skill → App W Time Double → App W Time Double
  unfolding say_all skill_line
  list_skills [] =
      say (codes "No skills found. Add *.md files under ./skills or ~/.config/SimpleCoder/skills.")
        Style.dim
  list_skills (s ∷ skills) =
      say_all (codes "Available skills (run with /<name>):" ∷ skill_line s ∷ map skill_line skills)
        Style.dim

  unfoldable pub run_skill : Bytes → App W Time Double → App W Time Double
  unfolding start_skill list_skills skill_name skill_extra find
  run_skill arg a =
      if is_empty (skill_name arg)
      then list_skills a.skills a
      else start_skill (skill_name arg) (find (skill_name arg) a.skills) (skill_extra arg) a

  abbrev pub announce_compact : App W Time Double → App W Time Double
  announce_compact a =
      record (say (utf8_text "Summarizing the conversation to compact the context…") Style.dim a) {
        compact_pending = true;
      }

  unfoldable pub run_compact : App W Time Double → App W Time Double
  unfolding submit has_turns compact_prompt
  run_compact a =
      if not (has_turns a.agent.history)
      then say (codes "Nothing to compact yet.") Style.dim a
      else submit (codes "/compact") compact_prompt [] (announce_compact a)

  unfoldable pub compact_with : Bytes → App W Time Double → App W Time Double
  unfolding compact_into_summary
  compact_with [] a =
      say (codes "/compact produced no summary; context left unchanged.") Style.error a
  compact_with (c ∷ summary) a =
      say (utf8_text "✓ Context compacted — the model now continues from the summary above.")
        Style.dim (record a { agent = compact_into_summary (c ∷ summary) a.agent })

  unfoldable pub finish_compact : App W Time Double → App W Time Double
  unfolding last_answer compact_with
  finish_compact a = compact_with (last_answer a.agent.history) a

  abbrev pub announce_auto : App W Time Double → App W Time Double
  announce_auto = say (utf8_text "Context is nearly full — auto-compacting…") Style.dim

  unfoldable pub compact_if : Bool → App W Time Double → App W Time Double
  unfolding run_compact
  compact_if false a = a
  compact_if true a = run_compact (announce_auto a)

  unfoldable pub maybe_auto_compact : Screen Double → App W Time Double → App W Time Double
  unfolding compact_if context_is_full
  maybe_auto_compact s a =
      compact_if
        (a.config.auto_compact
          && context_is_full s a.agent.last_total_tokens a.agent.context_size
              a.config.auto_compact_threshold)
        a

  -- /model with no name: the models that the server lists.
  unfoldable pub list_models : Bytes → List Bytes → App W Time Double → App W Time Double
  unfolding say_all model_line
  list_models cur [] =
      say_all
        ((codes "Current model: " ++ (if is_empty cur then codes "(server default)" else cur))
          ∷ codes "(could not fetch the model list from the server)"
          ∷ [])
        Style.dim
  list_models cur (m ∷ models) =
      say_all
        (utf8_text "Available models (• = current) — /model <name> to switch:"
          ∷ model_line cur m
          ∷ map (model_line cur) models)
        Style.dim

  unfoldable pub choose_model : Screen Double → Bytes → App W Time Double → App W Time Double
  unfolding list_models set_model
  choose_model s [] a = list_models a.agent.settings.model s.models a
  choose_model s (c ∷ arg) a =
      say (codes "Model set to " ++ (c ∷ arg) ++ codes ".") Style.dim
        (record a { agent = set_model (c ∷ arg) a.agent })

  unfoldable pub retry_last : Screen Double → Bytes → App W Time Double → App W Time Double
  unfolding handle_user_input
  retry_last s [] a = say (codes "Nothing to retry yet.") Style.dim a
  retry_last s (c ∷ line) a = handle_user_input s (c ∷ line) a

  -- A bare /<word> may name a skill.
  unfoldable pub run_unknown : Option Skill → Bytes → App W Time Double → App W Time Double
  unfolding run_skill
  run_unknown (some _) arg a = run_skill arg a
  run_unknown none arg a =
      say (codes "Unknown command: /" ++ arg ++ codes "  (try /help)") Style.error a

  -- The `switch` over a line that was submitted.
  unfoldable pub run_kind :
      Screen Double → Bytes → CommandKind → Bytes → App W Time Double → App W Time Double
  unfolding handle_user_input clear reset retry_last choose_model run_init run_compact run_skill
      find run_unknown
  run_kind s line CommandKind.not_command arg a =
      if is_empty line then a else handle_user_input s line a
  run_kind s line CommandKind.quit arg a = record a { running = false }
  run_kind s line CommandKind.help arg a = a
  run_kind s line CommandKind.clear arg a = record a { chat = clear a.chat; agent = reset a.agent }
  run_kind s line CommandKind.retry arg a = retry_last s a.last_user_message a
  run_kind s line CommandKind.model arg a = choose_model s arg a
  run_kind s line CommandKind.init arg a = run_init s a
  run_kind s line CommandKind.compact arg a = run_compact a
  run_kind s line CommandKind.skill arg a = run_skill arg a
  run_kind s line CommandKind.unknown arg a = run_unknown (find arg a.skills) arg a

  unfoldable pub run_line : Screen Double → Bytes → App W Time Double → App W Time Double
  unfolding run_kind parse_command
  run_line s line a = let cmd = parse_command line in run_kind s line cmd.kind cmd.arg a
