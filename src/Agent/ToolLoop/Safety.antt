-- ===== src/Agent/ToolLoop/Safety.antt =====
-- What a turn may do to the world outside: an invariant rule for the loop, and two uses of it.
use simple_coder.Prelude.{Bytes, List, false, some, suc, ℕ, ◌≡◌, ◌≢◌, ◌≤◌, ◌⊎◌}
use simple_coder.Llm.Message.{ToolCall, Message}
use simple_coder.Agent.Confirm.{ConfirmPolicy, deny, decide}
use simple_coder.Agent.Confirm.World.{asked}
use simple_coder.Agent.ToolLoop.{ToolResult, Tool, Env, State, End, find_tool}

-- A call that may run: the tool needs no confirmation, or the policy does not deny the details that
-- were shown for these arguments.
abbrev pub MayRun : {Json W : Type 0} → ConfirmPolicy → Tool Json W → Json → Type 0
MayRun {Json} {W} policy t args =
    (t.requires_confirmation ≡ false)
    ⊎ ((w : W) × (details : Bytes) × (t.confirm_details w args ≡ some details)
        × (decide policy t.name details ≢ deny))

-- `P n` holds of the world after `n` requests: a request leads from `P n` to `P (suc n)`, and all else
-- keeps `P n`; only the tools of the agent are asked to, and of their calls only those that may run.
pub record Keeps {Json W Time : Type 0} (env : Env Json W Time) (policy : ConfirmPolicy)
    (P : ℕ → W → Type 0) : Type 0 where
  pub round_keeps : (n : ℕ) (w : W) (h : List Message) → P n w → P (suc n) (env.round w h).1
  pub call_keeps : (n : ℕ) (w : W) (c : ToolCall) → P n w → P n (env.on_tool_call w c)
  pub result_keeps :
      (n : ℕ) (w : W) (c : ToolCall) (r : ToolResult) → P n w → P n (env.on_tool_result w c r)
  pub asked_keeps :
      (n : ℕ) (w : W) (name details : Bytes) → P n w → P n (asked env.confirmer w name details)
  pub execute_keeps :
      (n : ℕ) (name : Bytes) (t : Tool Json W) (w : W) (args : Json)
      → find_tool env.tools name ≡ some t
      → MayRun policy t args
      → P n w
      → P n (t.execute w args).1

-- What is kept of a state.
abbrev Holds : {W : Type 0} → ConfirmPolicy → (W → Type 0) → State W → Type 0
Holds policy P s = (s.gate.policy ≡ policy) × P s.world

module _ {Json W Time : Type 0} (env : Env Json W Time) (policy : ConfirmPolicy)
    (P : ℕ → W → Type 0) (keeps : Keeps env policy P) where
  -- After at most `b` requests.
  abbrev Within : ℕ → End Time × State W → Type 0
  Within b r = (m : ℕ) × (m ≤ b) × P m r.1.world
