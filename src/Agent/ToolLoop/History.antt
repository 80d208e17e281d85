-- ===== src/Agent/ToolLoop/History.antt =====
-- The history that the loop leaves.
use simple_coder.Prelude.{
  Bool, Bool-cases, Bytes, List, [], ap, append-nil, append_assoc, false, inl, inr, refl, suc, sym,
  true, zero, ℕ, ◌++◌, ◌∙◌, ◌∷◌, ◌≡◌, ◌≢◌,
}
use simple_coder.Llm.Message.{ToolCall, Message, ApiResult, assistant_message}
use simple_coder.Agent.ToolLoop.Calls.{IsProtocol, plain, round, Added, run_calls-Added}
use simple_coder.Agent.ToolLoop.{
  Env, State, End, returned, raised, run_calls, after_calls, after_answer, after_round, loop_from,
  run_tool_loop,
}

result_of : {Time : Type 0} → ApiResult Time → End Time → ApiResult Time
result_of other (returned res) = res
result_of other raised = other

pub returned-injective :
    {Time : Type 0} (a b : ApiResult Time) → ◌≡◌ {A = End Time} (returned a) (returned b) → a ≡ b
unfolding result_of
returned-injective a b e = ap (result_of a) e

module _ {Json W Time : Type 0} (env : Env Json W Time) where
  -- What holds of the loop from state `s` on, however it ends.
  record Kept (s : State W) (r : End Time × State W) : Type 0 where
    messages : List Message
    extends : r.1.history ≡ s.history ++ messages
    protocol : IsProtocol s.history → r.0 ≢ raised → IsProtocol r.1.history
    closes :
        (res : ApiResult Time)
        → r.0 ≡ returned res
        → res.ok ≡ true
        → (h : List Message) × (r.1.history ≡ h ++ assistant_message res.content [] ∷ [])

  -- The loop goes on from a state whose history holds whole rounds more.
  Kept-later :
      (s s' : State W) (ms : List Message) (r : End Time × State W)
      → s'.history ≡ s.history ++ ms
      → (IsProtocol s.history → IsProtocol s'.history)
      → Kept s' r
      → Kept s r
  Kept-later s s' ms r e p k = record {
    messages = ms ++ k.messages;
    extends =
        k.extends
        ∙ ap (λ (h : List Message). h ++ k.messages) e
        ∙ append_assoc s.history ms k.messages;
    protocol = λ h ne. k.protocol (p h) ne;
    closes = k.closes;
  }

  Kept-stop :
      (s s' : State W) (res : ApiResult Time)
      → s'.history ≡ s.history
      → res.ok ≡ false
      → Kept s (returned res, s')
  Kept-stop s s' res e bad = record {
    messages = [];
    extends = e ∙ sym (append-nil s.history);
    protocol = λ h ne. rw e h;
    closes = λ res' f good. cc (ap (λ (r : ApiResult Time). r.ok) (returned-injective res res' f));
  }

  whole_history :
      (h h1 h2 ms : List Message) (m : Message)
      → h1 ≡ h ++ m ∷ []
      → h2 ≡ h1 ++ ms
      → h2 ≡ h ++ m ∷ ms
  whole_history h h1 h2 ms m e f =
      f ∙ ap (λ (t : List Message). t ++ ms) e ∙ append_assoc h (m ∷ []) ms

  after_calls-Kept :
      (again : State W → End Time × State W) (content : Bytes) (calls : List ToolCall)
      (s s1 : State W) (r : Bool × State W)
      → ((s' : State W) → Kept s' (again s'))
      → s1.history ≡ s.history ++ assistant_message content calls ∷ []
      → Added env calls s1 r
      → Kept s (after_calls env again r)
  unfolding after_calls
  after_calls-Kept again content calls s s1 (true, s') ih e added =
      Kept-later s s' (assistant_message content calls ∷ added.messages) (again s')
        (whole_history _ _ _ added.messages _ e added.extends)
        (λ h.
          rw (whole_history _ _ _ added.messages _ e added.extends)
            (round _ added.messages h refl (added.complete refl)))
        (ih s')
  after_calls-Kept again content calls s s1 (false, s') ih e added = record {
    messages = assistant_message content calls ∷ added.messages;
    extends = whole_history _ _ _ added.messages _ e added.extends;
    protocol = λ h ne. absurd (ne refl);
    closes = λ res f good. cc;
  }

  after_answer-Kept :
      (again : State W → End Time × State W) (res : ApiResult Time) (calls : List ToolCall)
      (s : State W)
      → ((s' : State W) → Kept s' (again s'))
      → Kept s (after_answer env again res calls s)
  unfolding after_answer after_calls
  after_answer-Kept again res [] s ih = record {
    messages = assistant_message res.content [] ∷ [];
    extends = refl;
    protocol = λ h ne. plain _ h (λ e. cc) refl;
    closes = λ res' e good. (
      s.history,
      ap (λ (r : ApiResult Time). s.history ++ assistant_message r.content [] ∷ [])
          (returned-injective res res' e),
    );
  }
  after_answer-Kept again res (call ∷ calls) s ih =
      let h1 = s.history ++ assistant_message res.content (call ∷ calls) ∷ [] in
      let s1 = record s { history = h1 } in
      after_calls-Kept again res.content (call ∷ calls) s s1 (run_calls env (call ∷ calls) s1) ih
        refl (run_calls-Added env (call ∷ calls) s1)

  after_round-Kept :
      (again : State W → End Time × State W) (rw_ : ApiResult Time × W) (s : State W)
      → ((s' : State W) → Kept s' (again s'))
      → Kept s (after_round env again rw_ s)
  unfolding after_round
  after_round-Kept again (res, w) s ih = elim (Bool-cases res.ok) [
    | inl good ↦ simp good (
        Kept-later s (record s { world = w }) [] _ (sym (append-nil _)) (λ h. h)
          (after_answer-Kept again res res.tool_calls (record s { world = w }) ih))
    | inr bad ↦ simp bad (Kept-stop s (record s { world = w }) res refl bad)
  ]

  loop_from-Kept : (left max_iters : ℕ) (s : State W) → Kept s (loop_from env left max_iters s)
  unfolding loop_from
  loop_from-Kept zero max_iters s = Kept-stop s s _ refl refl
  loop_from-Kept (suc left) max_iters s = elim (Bool-cases (env.canceled s.world)) [
    | inl stop ↦ rw (stop, loop_from) (Kept-stop s s _ refl refl)
    | inr go ↦
        rw (go, loop_from)
          (after_round-Kept (loop_from env left max_iters) (env.round s.world s.history) s
            (loop_from-Kept left max_iters))
  ]

  -- The loop only adds messages to the history, however it ends.
  pub run_tool_loop-append :
      (max_iters : ℕ) (s : State W)
      → (ms : List Message) × ((run_tool_loop env max_iters s).1.history ≡ s.history ++ ms)
  unfolding run_tool_loop
  run_tool_loop-append max_iters s =
      let k = loop_from-Kept max_iters max_iters s in (k.messages, k.extends)

  -- Unless an exception leaves the loop, a history that the chat API accepts stays one: each call
  -- that the model made is followed by its result, in order, and by nothing else.
  pub run_tool_loop-IsProtocol :
      (max_iters : ℕ) (s : State W)
      → IsProtocol s.history
      → (run_tool_loop env max_iters s).0 ≢ raised
      → IsProtocol (run_tool_loop env max_iters s).1.history
  unfolding run_tool_loop
  run_tool_loop-IsProtocol max_iters s h ne = (loop_from-Kept max_iters max_iters s).protocol h ne

  -- After a loop that succeeds the last message is the assistant's text without calls.
  pub run_tool_loop_answer :
      (max_iters : ℕ) (s : State W) (res : ApiResult Time)
      → (run_tool_loop env max_iters s).0 ≡ returned res
      → res.ok ≡ true
      → (h : List Message) × ((run_tool_loop env max_iters s).1.history
          ≡ h ++ assistant_message res.content [] ∷ [])
  unfolding run_tool_loop
  run_tool_loop_answer max_iters s = (loop_from-Kept max_iters max_iters s).closes
