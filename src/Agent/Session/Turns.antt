-- ===== src/Agent/Session/Turns.antt =====
-- The history of an agent between its turns.
use simple_coder.Prelude.{
  Bool-cases, Bytes, List, Option, [], ap, append_assoc, false, inl, inr, length, refl, sym, take,
  take-append, ℕ, ◌++◌, ◌∙◌, ◌∷◌, ◌≡◌, ◌≢◌,
}
use simple_coder.Llm.Message.{
  ImagePart, Message, ℤ, user, tool, user_message, system_message, ApiResult,
}
use simple_coder.Agent.ToolLoop.Calls.{IsProtocol, empty, plain}
use simple_coder.Agent.ToolLoop.History.{
  run_tool_loop-IsProtocol, run_tool_loop-append, returned-injective,
}
use simple_coder.Agent.ToolLoop.{Env, State, End, returned, raised, run_tool_loop}
use simple_coder.Agent.Session.{
  Settings, Agent, seed, reset, compact_into_summary, set_model, set_system_prompt, new_agent,
  Clock, note_usage, finish, send,
}

take_extended {ℓ} : {A : Type ℓ} (xs h ys : List A) → h ≡ xs ++ ys → take (length xs) h ≡ xs
take_extended xs h ys e = rw e (take-append xs ys)

module _ {Json W Time : Type 0} (env : Env Json W Time) (clock : Clock Time) where
  abbrev start_of : Bytes → List ImagePart → Agent W Time → State W
  start_of text images a = record {
    history = a.history ++ user_message text images ∷ [];
    gate = a.gate;
    world = a.world;
  }

  finish-returned :
      (mark : ℕ) (q : ApiResult Time) (s : State W) (a : Agent W Time)
      → (finish env clock mark (returned q, s) a).0 ≡ returned q
  unfolding finish
  finish-returned mark q s a = elim (Bool-cases q.ok) [ inl e ↦ simp e | inr e ↦ simp e ]

  -- What a failed turn leaves of the agent: all but the gate and the world outside.
  abbrev pub Unchanged : Agent W Time → Agent W Time → Type 0
  Unchanged a b =
      (b.history ≡ a.history)
      × (b.settings ≡ a.settings)
      × (b.last_total_tokens ≡ a.last_total_tokens)
      × (b.last_tokens_per_second ≡ a.last_tokens_per_second)

  finish_failed :
      (r : End Time × State W) (a : Agent W Time) (res : ApiResult Time) (ms : List Message)
      → r.1.history ≡ a.history ++ ms
      → (finish env clock (length a.history) r a).0 ≡ returned res
      → res.ok ≡ false
      → Unchanged a (finish env clock (length a.history) r a).1
  unfolding finish
  finish_failed (raised, s) a res ms e f bad = cc
  finish_failed (returned q, s) a res ms e f bad =
      let same = returned-injective q res (sym (finish-returned (length a.history) q s a) ∙ f) in
      let q_bad : q.ok ≡ false = ap (λ (r : ApiResult Time). r.ok) same ∙ bad in
      simp q_bad (take_extended a.history s.history ms e, refl, refl, refl)

  -- A turn that returns a failed result leaves the conversation, the settings and the usage numbers
  -- exactly as they were before it.
  pub send_failed :
      (text : Bytes) (images : List ImagePart) (a : Agent W Time) (res : ApiResult Time)
      → (send env clock text images a).0 ≡ returned res
      → res.ok ≡ false
      → Unchanged a (send env clock text images a).1
  unfolding send
  send_failed text images a res f bad =
      let s = start_of text images a in
      let (ms, e) = run_tool_loop-append env a.settings.max_tool_iterations s in
      finish_failed (run_tool_loop env a.settings.max_tool_iterations s) a res
        (user_message text images ∷ ms)
        (e ∙ append_assoc a.history (user_message text images ∷ []) ms) f bad

  finish-IsProtocol :
      (r : End Time × State W) (a : Agent W Time) (ms : List Message)
      → r.1.history ≡ a.history ++ ms
      → IsProtocol a.history
      → (r.0 ≢ raised → IsProtocol r.1.history)
      → (finish env clock (length a.history) r a).0 ≢ raised
      → IsProtocol (finish env clock (length a.history) r a).1.history
  unfolding finish note_usage
  finish-IsProtocol (raised, s) a ms e p q ne = absurd (ne refl)
  finish-IsProtocol (returned res, s) a ms e p q ne = elim (Bool-cases res.ok) [
    | inl good ↦ simp good (q (λ f. cc))
    | inr bad ↦ simp bad (rw (take_extended a.history s.history ms e) p)
  ]

  send-IsProtocol :
      (text : Bytes) (images : List ImagePart) (a : Agent W Time)
      → IsProtocol a.history
      → (send env clock text images a).0 ≢ raised
      → IsProtocol (send env clock text images a).1.history
  unfolding send
  send-IsProtocol text images a p ne =
      let n = a.settings.max_tool_iterations in
      let s = start_of text images a in
      let (ms, e) = run_tool_loop-append env n s in
      let asked = plain (user_message text images) p (λ (f : user ≡ tool). cc) refl in
      finish-IsProtocol (run_tool_loop env n s) a (user_message text images ∷ ms)
        (e ∙ append_assoc a.history (user_message text images ∷ []) ms) p
        (run_tool_loop-IsProtocol env n s asked) ne

  seed-IsProtocol : (prompt : Bytes) → IsProtocol (seed prompt)
  unfolding seed
  seed-IsProtocol [] = empty
  seed-IsProtocol (c ∷ s) = plain {h = []} (system_message (c ∷ s)) empty (λ e. cc) refl

  -- An agent after its constructor and any calls of its methods, no turn having thrown.
  pub data Life : Agent W Time → Type 0 where
    starts :
        (settings : Settings) (allow_rules deny_rules : List Bytes) (size : ℤ) (probed : Option ℤ)
        (no_time : Time) (world : W)
        → Life (new_agent settings allow_rules deny_rules size probed no_time world)
    sends :
        {a : Agent W Time} (text : Bytes) (images : List ImagePart)
        → Life a
        → (send env clock text images a).0 ≢ raised
        → Life (send env clock text images a).1
    resets : {a : Agent W Time} → Life a → Life (reset a)
    compacts : {a : Agent W Time} (summary : Bytes) → Life a → Life (compact_into_summary summary a)
    sets_model : {a : Agent W Time} (model : Bytes) → Life a → Life (set_model model a)
    sets_prompt : {a : Agent W Time} (text : Bytes) → Life a → Life (set_system_prompt text a)

  -- As long as no exception leaves a turn, whatever is sent, reset or compacted, the conversation is
  -- always one that the chat API accepts.
  pub Life-IsProtocol : {a : Agent W Time} → Life a → IsProtocol a.history
  unfolding new_agent reset compact_into_summary set_model set_system_prompt
  Life-IsProtocol (starts settings allow_rules deny_rules size probed no_time world) =
      seed-IsProtocol settings.system_prompt
  Life-IsProtocol (sends {a} text images life ne) =
      send-IsProtocol text images a (Life-IsProtocol life) ne
  Life-IsProtocol (resets {a} life) = seed-IsProtocol a.settings.system_prompt
  Life-IsProtocol (compacts {a} summary life) =
      plain _ (seed-IsProtocol a.settings.system_prompt) (λ e. cc) refl
  Life-IsProtocol (sets_model model life) = Life-IsProtocol life
  Life-IsProtocol (sets_prompt text life) = Life-IsProtocol life
