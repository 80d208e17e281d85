-- ===== src/Agent/Session.antt =====
-- The class `Agent` of src/agent/Agent.cpp and Agent.hpp: the conversation and its turns. The
-- constructor's tools and its probe of the server are given as arguments.
pub mod Turns
use simple_coder.Prelude.{
  Bool, Bytes, List, Option, [], codes, if◌then◌else◌, length, none, not, some, take, ℕ, ◌&&◌, ◌++◌,
  ◌∷◌,
}
use simple_coder.Llm.Message.{
  ImagePart, Message, system_message, user_message, ApiResult, ℤ, pos, is_positive,
}
use simple_coder.Agent.Confirm.{ConfirmGate, make_confirm_policy}
use simple_coder.Agent.ToolLoop.{Env, State, End, returned, raised, run_tool_loop}

-- The fields of `Config` that the class reads later. A `max_tool_iterations` below zero makes no
-- round, as zero does.
pub record Settings : Type 0 where
  pub model : Bytes
  pub system_prompt : Bytes
  pub max_tool_iterations : ℕ

-- `Time` stands for `double`.
pub record Agent (W Time : Type 0) : Type 0 where
  pub settings : Settings
  pub history : List Message
  pub gate : ConfirmGate
  pub last_total_tokens : ℤ
  pub context_size : ℤ
  pub last_tokens_per_second : Time
  pub world : W

-- The seed of a conversation: the system prompt, unless it is empty.
unfoldable pub seed : Bytes → List Message
seed [] = []
seed (c ∷ s) = system_message (c ∷ s) ∷ []

-- The constructor: an explicit context size is preferred to what the server answers.
unfoldable pub choose_context_size : ℤ → Option ℤ → ℤ
choose_context_size configured probed =
    if is_positive configured then configured else elim probed [ none ↦ configured | some n ↦ n ]

module _ {W Time : Type 0} where
  unfoldable pub reset : Agent W Time → Agent W Time
  unfolding seed
  reset a = record a { history = seed a.settings.system_prompt }

  unfoldable pub compact_into_summary : Bytes → Agent W Time → Agent W Time
  unfolding seed
  compact_into_summary summary a = record a {
    history =
        seed a.settings.system_prompt
        ++ system_message (
            codes "Summary of the conversation so far (earlier turns were compacted into this):\n"
            ++ summary)
          ∷ [];
    last_total_tokens = pos 0;
  }

  unfoldable pub set_model : Bytes → Agent W Time → Agent W Time
  set_model model a = record a { settings = record (a.settings) { model = model } }

  unfoldable pub set_system_prompt : Bytes → Agent W Time → Agent W Time
  set_system_prompt prompt a = record a {
    settings = record (a.settings) { system_prompt = prompt };
  }

  unfoldable pub new_agent :
      Settings → List Bytes → List Bytes → ℤ → Option ℤ → Time → W → Agent W Time
  unfolding choose_context_size reset
  new_agent settings allow_rules deny_rules context_size probed no_time world = reset (record {
    settings = settings;
    history = [];
    gate = record { policy = make_confirm_policy allow_rules deny_rules; always_allowed = [] };
    last_total_tokens = pos 0;
    context_size = choose_context_size context_size probed;
    last_tokens_per_second = no_time;
    world = world;
  })

-- The arithmetic on `double` that `send` does.
pub record Clock (Time : Type 0) : Type 0 where
  pub above_zero : Time → Bool
  pub per_second : ℤ → Time → Time

module _ {Json W Time : Type 0} (env : Env Json W Time) (clock : Clock Time) where
  unfoldable pub note_usage : ApiResult Time → Agent W Time → Agent W Time
  note_usage res a = record a {
    last_total_tokens =
        if is_positive res.total_tokens then res.total_tokens else a.last_total_tokens;
    last_tokens_per_second =
        if clock.above_zero res.gen_seconds && is_positive res.completion_tokens
        then clock.per_second res.completion_tokens res.gen_seconds
        else a.last_tokens_per_second;
  }

  -- `mark` is the size of the history before the turn.
  unfoldable pub finish : ℕ → End Time × State W → Agent W Time → End Time × Agent W Time
  unfolding note_usage
  finish mark (raised, s) a =
      (raised, record a { history = s.history; gate = s.gate; world = s.world })
  finish mark (returned res, s) a =
      if not res.ok
      then (
        returned res,
        record a { history = take mark s.history; gate = s.gate; world = s.world },
      )
      else (
        returned res,
        note_usage res (record a { history = s.history; gate = s.gate; world = s.world }),
      )

  unfoldable pub send : Bytes → List ImagePart → Agent W Time → End Time × Agent W Time
  unfolding finish
  send text images a =
      let s : State W = record {
        history = a.history ++ user_message text images ∷ [];
        gate = a.gate;
        world = a.world;
      } in
      finish (length a.history) (run_tool_loop env a.settings.max_tool_iterations s) a
