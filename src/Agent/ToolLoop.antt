-- ===== src/Agent/ToolLoop.antt =====
-- `run_tool_loop` of src/agent/Agent.cpp. Everything outside (the server, the file system, the user,
-- the thread that sets the cancel flag, the callbacks) is a world `W` that the calls change. A call of
-- a tool may throw, as `json::value` does on a field of another type: `none`.
pub mod Calls
pub mod History
pub mod Safety
use simple_coder.Prelude.{
  Bool, Bytes, List, Option, [], bytes_eq, codes, false, if◌then◌else◌, none, not, some, suc,
  to_string, true, zero, ℕ, ◌++◌, ◌∷◌,
}
use simple_coder.Llm.Message.{ToolCall, Message, assistant_message, tool_result, ApiResult, ℤ, pos}
use simple_coder.Agent.Confirm.{ConfirmGate, Confirmer, Gated, gate_allow}

pub record ToolResult : Type 0 where
  pub ok : Bool
  pub output : Bytes

-- `Json` stands for the values of the JSON library.
pub record Tool (Json W : Type 0) : Type 0 where
  pub name : Bytes
  pub requires_confirmation : Bool
  pub confirm_details : W → Json → Option Bytes
  pub execute : W → Json → Option ToolResult × W

-- What the loop is given, and the two calls of the JSON library: `parse` gives `none` for a text that
-- is discarded.
pub record Env (Json W Time : Type 0) : Type 0 where
  pub parse : Bytes → Option Json
  pub empty_object : Json
  pub no_time : Time
  pub round : W → List Message → ApiResult Time × W
  pub tools : List (Tool Json W)
  pub confirmer : Confirmer W
  pub on_tool_call : W → ToolCall → W
  pub on_tool_result : W → ToolCall → ToolResult → W
  pub canceled : W → Bool

pub record State (W : Type 0) : Type 0 where
  pub history : List Message
  pub gate : ConfirmGate
  pub world : W

-- How the loop ends: it returns a result, or an exception leaves it.
pub data End (Time : Type 0) : Type 0 where
  returned : ApiResult Time → End Time
  raised : End Time

module _ {Json W : Type 0} where
  unfoldable pub find_tool : List (Tool Json W) → Bytes → Option (Tool Json W)
  unfolding bytes_eq
  find_tool [] name = none
  find_tool (t ∷ tools) name = if bytes_eq t.name name then some t else find_tool tools name

abbrev pub failed_result : {Time : Type 0} → Time → Bytes → Bool → ApiResult Time
failed_result no_time error canceled = record {
  ok = false;
  http_status = 0;
  error = error;
  content = [];
  reasoning = [];
  tool_calls = [];
  finish_reason = [];
  prompt_tokens = pos 0;
  completion_tokens = pos 0;
  total_tokens = pos 0;
  gen_seconds = no_time;
  canceled = canceled;
}

abbrev pub gated : {Json W : Type 0} → Tool Json W → Gated
gated t = record { name = t.name; requires_confirmation = t.requires_confirmation }

abbrev pub text_result : Bytes → ToolResult
text_result output = record { ok = false; output = output }

module _ {Json W Time : Type 0} (env : Env Json W Time) where
  unfoldable pub args_of : ToolCall → Json
  args_of call = elim (env.parse call.arguments) [ none ↦ env.empty_object | some args ↦ args ]

  unfoldable pub run_allowed :
      Tool Json W → Json → Bool × ConfirmGate × W → State W → Option ToolResult × State W
  run_allowed tool args (false, gate, w) s = (
    some (text_result (codes "User declined to run this tool.")),
    record s { gate = gate; world = w },
  )
  run_allowed tool args (true, gate, w) s =
      let (tr, w') = tool.execute w args in (tr, record s { gate = gate; world = w' })

  unfoldable pub run_confirmed :
      Tool Json W → Json → Option Bytes → State W → Option ToolResult × State W
  unfolding run_allowed
  run_confirmed tool args none s = (none, s)
  run_confirmed tool args (some details) s =
      run_allowed tool args (gate_allow env.confirmer s.gate (gated tool) details s.world) s

  unfoldable pub run_found : Option (Tool Json W) → ToolCall → State W → Option ToolResult × State W
  unfolding run_confirmed args_of
  run_found none call s =
      (some (text_result (codes "error: unknown tool '" ++ call.name ++ codes "'")), s)
  run_found (some tool) call s =
      let args = args_of call in run_confirmed tool args (tool.confirm_details s.world args) s

  -- One call up to its result, `none` if an exception leaves it.
  unfoldable pub run_tool : ToolCall → State W → Option ToolResult × State W
  unfolding run_found find_tool
  run_tool call s =
      run_found (find_tool env.tools call.name) call
        (record s { world = env.on_tool_call s.world call })

  -- The callback and the message of the result.
  unfoldable pub answer : ToolCall → ToolResult → State W → State W
  answer call tr s = record s {
    world = env.on_tool_result s.world call tr;
    history = s.history ++ tool_result call.id tr.output ∷ [];
  }

  -- The loop over the calls of one response; `true` if none threw.
  unfoldable pub run_calls : List ToolCall → State W → Bool × State W
  unfolding answer
  run_calls [] s = (true, s)
  run_calls (call ∷ calls) s =
      let (tr, s') = run_tool call s in
      elim tr [ none ↦ (false, s') | some result ↦ run_calls calls (answer call result s') ]

  unfoldable pub after_calls : (State W → End Time × State W) → Bool × State W → End Time × State W
  after_calls again (true, s) = again s
  after_calls again (false, s) = (raised, s)

  unfoldable pub after_answer :
      (State W → End Time × State W) → ApiResult Time → List ToolCall → State W → End Time × State W
  unfolding after_calls
  after_answer again res [] s =
      (returned res, record s { history = s.history ++ assistant_message res.content [] ∷ [] })
  after_answer again res (call ∷ calls) s = after_calls again (
      run_calls (call ∷ calls)
        (record s { history = s.history ++ assistant_message res.content (call ∷ calls) ∷ [] }))

  unfoldable pub after_round :
      (State W → End Time × State W) → ApiResult Time × W → State W → End Time × State W
  unfolding after_answer
  after_round again (res, w) s =
      if not res.ok
      then (returned res, record s { world = w })
      else after_answer again res res.tool_calls (record s { world = w })

  -- The rounds that are left, and `max_iters`.
  unfoldable pub loop_from : ℕ → ℕ → State W → End Time × State W
  unfolding after_round
  loop_from zero max_iters s = (
    returned (
        failed_result env.no_time
          (codes "tool loop exceeded " ++ to_string max_iters ++ codes " iterations") false),
    s,
  )
  loop_from (suc left) max_iters s = elim (env.canceled s.world) [
    | true ↦ (returned (failed_result env.no_time (codes "request canceled") true), s)
    | false ↦ after_round (loop_from left max_iters) (env.round s.world s.history) s
  ]

  unfoldable pub run_tool_loop : ℕ → State W → End Time × State W
  unfolding loop_from
  run_tool_loop max_iters s = loop_from max_iters max_iters s
