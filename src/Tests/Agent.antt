-- ===== src/Tests/Agent.antt =====
-- Runs of the models of src/agent, with a server of two answers and one gated tool.
use simple_coder.Prelude.{
  Bool, Bytes, List, Option, [], bytes_eq, codes, false, if◌then◌else◌, none, refl, some, suc, true,
  zero, ℕ, ◌∷◌, ◌≡◌, ◌≢◌, ◌⊎◌,
}
use simple_coder.Llm.Message.{
  ToolCall, Message, system_message, user_message, ApiResult, pos, assistant_message, tool_result,
}
use simple_coder.Agent.Confirm.{
  by_policy, ask, choose, ConfirmChoice, PolicyDecision, decide, make_confirm_policy, ConfirmPolicy,
  ConfirmGate, Gated, gate_allow, member, prefixes_of, any_prefix, empty_policy,
}
use simple_coder.Agent.Confirm.Policy.{decide-make_confirm_policy, any_matches}
use simple_coder.Agent.Confirm.Gate.{gate_allow_sound, Consents}
use simple_coder.Agent.ToolLoop.{
  loop_from, after_round, after_answer, after_calls, run_calls, answer, run_tool, run_found,
  run_confirmed, run_allowed, args_of, find_tool, Tool, Env, State, End, run_tool_loop,
  failed_result,
}
use simple_coder.Agent.ToolLoop.Calls.{IsProtocol}
use simple_coder.Agent.ToolLoop.Safety.{MayRun}
use simple_coder.Agent.Session.{finish, Settings, Agent, Clock, new_agent, send}
use simple_coder.Agent.Session.Turns.{Unchanged, send_failed, Life, Life-IsProtocol}

abbrev bash : Bytes
bash = codes "run_bash"

abbrev allow_rules : List Bytes
allow_rules = codes "run_bash:git " ∷ []

abbrev deny_rules : List Bytes
deny_rules = codes "run_bash:rm " ∷ codes "make_dir" ∷ []

decide-make_confirm_policy_example :
    decide (make_confirm_policy allow_rules deny_rules) bash (codes "git log") ≡ (
      if any_matches bash (codes "git log") deny_rules
      then PolicyDecision.deny
      else if any_matches bash (codes "git log") allow_rules
      then PolicyDecision.allow
      else PolicyDecision.prompt)
decide-make_confirm_policy_example =
    decide-make_confirm_policy allow_rules deny_rules bash (codes "git log")

-- A policy written out.
abbrev policy : ConfirmPolicy
policy = record empty_policy {
  allow_tools = codes "write_file" ∷ [];
  deny_tools = codes "make_dir" ∷ [];
}

abbrev gate : ConfirmGate
gate = record { policy = policy; always_allowed = [] }

abbrev gated_tool : Bytes → Gated
gated_tool name = record { name = name; requires_confirmation = true }

-- The user counts the prompts and agrees for good.
abbrev agrees : ℕ → Bytes → Bytes → ConfirmChoice × ℕ
agrees w name details = (ConfirmChoice.always, suc w)

denied : decide policy (codes "make_dir") [] ≡ PolicyDecision.deny
unfolding decide member bytes_eq
denied = refl

gate_allow_sound_example :
    (true ≡ false)
    ⊎ (decide policy bash [] ≢ PolicyDecision.deny)
      × ((decide policy bash [] ≡ PolicyDecision.allow)
          ⊎ (member bash [] ≡ true)
          ⊎ Consents (some agrees) bash [] 0)
unfolding gate_allow by_policy ask choose decide member any_prefix prefixes_of bytes_eq
gate_allow_sound_example = gate_allow_sound (some agrees) gate (gated_tool bash) [] 0 refl

-- The outside of a turn: how many requests were made, and how often `make_dir` ran.
abbrev Outside : Type 0
Outside = ℕ × ℕ

abbrev make_dir : Tool Unit Outside
make_dir = record {
  name = codes "make_dir";
  requires_confirmation = true;
  confirm_details = λ w args. some (codes "dir");
  execute = λ w args. (some (record { ok = true; output = codes "created" }), (w.0, suc w.1));
}

abbrev call : ToolCall
call = record { id = codes "c1"; name = codes "make_dir"; arguments = codes "{}" }

abbrev result_with : Bool → Bytes → List ToolCall → ApiResult Unit
result_with ok content calls = record (failed_result tt [] false) {
  ok = ok;
  content = content;
  tool_calls = calls;
}

-- The server asks for the tool first, and answers from the second request on.
abbrev answers_second : ℕ → ApiResult Unit
answers_second zero = result_with true (codes "let me") (call ∷ [])
answers_second (suc n) = result_with true (codes "done") []

abbrev env_with : (ℕ → ApiResult Unit) → Env Unit Outside Unit
env_with server = record {
  parse = λ s. some tt;
  empty_object = tt;
  no_time = tt;
  round = λ w h. (server w.0, (suc w.0, w.1));
  tools = make_dir ∷ [];
  confirmer = some (λ w name details. (ConfirmChoice.always, w));
  on_tool_call = λ w c. w;
  on_tool_result = λ w c r. w;
  canceled = λ w. false;
}

abbrev env : Env Unit Outside Unit
env = env_with answers_second

abbrev clock : Clock Unit
clock = record { above_zero = λ t. false; per_second = λ n t. tt }

abbrev start : State Outside
start = record { history = user_message (codes "hi") [] ∷ []; gate = gate; world = (0, 0) }

start-IsProtocol : IsProtocol start.history
start-IsProtocol =
    IsProtocol.plain {h = []} (user_message (codes "hi") []) IsProtocol.empty (λ e. cc) refl

abbrev end_history : List Message
end_history =
    user_message (codes "hi") []
    ∷ assistant_message (codes "let me") (call ∷ [])
    ∷ tool_result (codes "c1") (codes "User declined to run this tool.")
    ∷ assistant_message (codes "done") []
    ∷ []

abbrev ended : End Unit × State Outside
ended =
    (End.returned (answers_second 1), record { history = end_history; gate = gate; world = (2, 0) })

loop_run : run_tool_loop env 3 start ≡ ended
unfolding run_tool_loop loop_from after_round after_answer after_calls run_calls answer run_tool
    run_found run_confirmed run_allowed args_of find_tool gate_allow by_policy ask choose decide
    member prefixes_of any_prefix bytes_eq
loop_run = refl

-- `make_dir`, which the policy denies, has not run.
abbrev Untouched : ℕ → Outside → Type 0
Untouched n w = (w.0 ≡ n) × (w.1 ≡ 0)

abbrev Denied : Unit {0} → Option (Tool Unit Outside) → Type 0
Denied args none = Unit
Denied args (some t) = MayRun policy t args → ⊥

abbrev settings : Settings
settings = record { model = codes "m"; system_prompt = codes "be brief"; max_tool_iterations = 3 }

abbrev idle : Agent Outside Unit
idle = record {
  settings = settings;
  history = system_message (codes "be brief") ∷ [];
  gate = gate;
  last_total_tokens = pos 9;
  context_size = pos 0;
  last_tokens_per_second = tt;
  world = (0, 0);
}

-- The server is down from the second request on.
abbrev fails_second : ℕ → ApiResult Unit
fails_second zero = result_with true [] (call ∷ [])
fails_second (suc n) = result_with false [] []

send_failed_example :
    Unchanged
      (env_with fails_second)
      clock
      idle
      (send (env_with fails_second) clock (codes "hi") [] idle).1
unfolding send finish run_tool_loop loop_from after_round after_answer after_calls run_calls answer
    run_tool run_found run_confirmed run_allowed args_of find_tool gate_allow by_policy ask choose
    decide member prefixes_of any_prefix bytes_eq
send_failed_example =
    send_failed (env_with fails_second) clock (codes "hi") [] idle (fails_second 1) refl refl

abbrev fresh : Agent Outside Unit
fresh = new_agent settings allow_rules deny_rules (pos 0) none tt (0, 0)

-- No round may be made, so the turn fails at once.
abbrev no_rounds : Settings
no_rounds = record settings { max_tool_iterations = 0 }

abbrev stuck : Agent Outside Unit
stuck = new_agent no_rounds [] [] (pos 0) none tt (0, 0)

returned-raised : (r : ApiResult Unit) → ◌≢◌ {A = End Unit} (End.returned r) End.raised
returned-raised r = λ e. cc

stuck_returns : (send env clock (codes "hi") [] stuck).0 ≢ End.raised
unfolding send finish run_tool_loop loop_from new_agent
stuck_returns = returned-raised _

Life-IsProtocol_example : IsProtocol (send env clock (codes "hi") [] stuck).1.history
Life-IsProtocol_example =
    Life-IsProtocol env clock (
      Life.sends (codes "hi") [] (Life.starts no_rounds [] [] (pos 0) none tt (0, 0)) stuck_returns)
