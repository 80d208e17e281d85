-- ===== src/Agent/ToolLoop/Calls.antt =====
-- What the calls of one response do to the history, and the histories that the chat API accepts.
use simple_coder.Prelude.{
  Bool, Bytes, List, Option, Option-cases, [], ap, append-nil, append_assoc, false, inl, inr, none,
  refl, some, sym, true, ◌++◌, ◌∙◌, ◌∷◌, ◌≡◌, ◌≢◌,
}
use simple_coder.Llm.Message.{assistant, tool, ToolCall, Message, tool_result}
use simple_coder.Agent.Confirm.{ConfirmGate}
use simple_coder.Agent.ToolLoop.{
  Tool, Env, State, find_tool, run_tool, run_found, run_confirmed, run_allowed, answer, run_calls,
}

-- One message of the tool role for each call, in order, with the id of the call that it answers.
pub data Answers : List ToolCall → List Message → Type 0 where
  none_left : Answers [] []
  answers :
      {call : ToolCall} {calls : List ToolCall} {m : Message} {ms : List Message}
      → m.role ≡ tool
      → m.tool_call_id ≡ call.id
      → Answers calls ms
      → Answers (call ∷ calls) (m ∷ ms)

-- What the chat API accepts: tool messages stand only behind the assistant message whose calls they
-- answer, one for each call.
pub data IsProtocol : List Message → Type 0 where
  empty : IsProtocol []
  plain :
      {h : List Message} (m : Message)
      → IsProtocol h
      → m.role ≢ tool
      → m.tool_calls ≡ []
      → IsProtocol (h ++ m ∷ [])
  round :
      {h : List Message} (m : Message) (ms : List Message)
      → IsProtocol h
      → m.role ≡ assistant
      → Answers m.tool_calls ms
      → IsProtocol (h ++ m ∷ ms)

module _ {Json W Time : Type 0} (env : Env Json W Time) where
  run_allowed-history :
      (t : Tool Json W) (args : Json) (b : Bool) (gate : ConfirmGate) (w : W) (s : State W)
      → (run_allowed env t args (b, gate, w) s).1.history ≡ s.history
  unfolding run_allowed
  run_allowed-history t args true gate w s = refl
  run_allowed-history t args false gate w s = refl

  run_confirmed-history :
      (t : Tool Json W) (args : Json) (details : Option Bytes) (s : State W)
      → (run_confirmed env t args details s).1.history ≡ s.history
  unfolding run_confirmed
  run_confirmed-history t args none s = refl
  run_confirmed-history t args (some details) s = run_allowed-history t args _ _ _ s

  run_found-history :
      (t : Option (Tool Json W)) (call : ToolCall) (s : State W)
      → (run_found env t call s).1.history ≡ s.history
  unfolding run_found
  run_found-history none call s = refl
  run_found-history (some t) call s = run_confirmed-history t _ _ s

  run_tool-history : (call : ToolCall) (s : State W) → (run_tool env call s).1.history ≡ s.history
  unfolding run_tool
  run_tool-history call s =
      run_found-history (find_tool env.tools call.name) call
        (record s { world = env.on_tool_call s.world call })

  -- The calls of a response add messages of the tool role, and one for each call unless one throws.
  pub record Added (calls : List ToolCall) (s : State W) (r : Bool × State W) : Type 0 where
    pub messages : List Message
    pub extends : r.1.history ≡ s.history ++ messages
    pub complete : r.0 ≡ true → Answers calls messages

  pub run_calls-Added :
      (calls : List ToolCall) (s : State W) → Added calls s (run_calls env calls s)
  unfolding run_calls answer
  run_calls-Added [] s = record {
    messages = [];
    extends = sym (append-nil _);
    complete = λ e. none_left;
  }
  run_calls-Added (call ∷ calls) s =
      let same = run_tool-history call s in
      elim (Option-cases (run_tool env call s).0) [
        | inl e ↦ record {
          messages = [];
          extends = rw (e, run_calls) (same ∙ sym (append-nil _));
          complete = λ t. cc (rw (e, run_calls) at t);
        }
        | inr (tr, e) ↦
            let rest = run_calls-Added calls (answer env call tr (run_tool env call s).1) in
            record {
              messages = tool_result call.id tr.output ∷ rest.messages;
              extends =
                  rw (e, run_calls)
                    (rest.extends
                      ∙ append_assoc _ (tool_result call.id tr.output ∷ []) rest.messages
                      ∙ ap
                          (λ (h : List Message). h ++ tool_result call.id tr.output ∷ rest.messages)
                          same);
              complete = λ t. answers refl refl (rest.complete (rw (e, run_calls) at t));
            }
      ]
