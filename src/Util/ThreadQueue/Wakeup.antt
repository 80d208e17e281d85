-- ===== src/Util/ThreadQueue/Wakeup.antt =====
-- All interleavings of producers, consumers and `shutdown`.
use simple_coder.Prelude.{
  Bool, List, Option, [], ap, append-nil, append_assoc, arith, false, length, length-append, none,
  refl, some, sym, true, ◌++◌, ◌+◌, ◌<◌, ◌∙◌, ◌∷◌, ◌≡◌, ◌≤◌,
}
use simple_coder.Util.ThreadQueue.{
  Queue, new, push, notify_one, shutdown, notify_all, enter_pop, wake, Outcome, returns, test_from,
  test_pop, try_from, try_pop,
}

nil_of_length {ℓ} : {A : Type ℓ} (xs : List A) → length xs ≤ 0 → xs ≡ []
nil_of_length [] h = refl
nil_of_length (x ∷ xs) h = absurd (omega arith)

not-true : (b : Bool) → ¬ (b ≡ true) → b ≡ false
not-true true h = absurd (h refl)
not-true false h = refl

module _ {ℓ} {A : Type ℓ} where
  abbrev taken : Outcome A → List A
  taken (returns (some value)) = value ∷ []
  taken _ = []

  abbrev from_option : Option A → List A
  from_option none = []
  from_option (some value) = value ∷ []

  -- A step of some thread, with what it puts into the queue and what it takes out.
  pub data Step (q : Queue A) : Queue A → List A → List A → Type ℓ where
    pushes : (value : A) → Step q (push value q) (value ∷ []) []
    notifies_one : 0 < q.to_notify_one → Step q (notify_one q) [] []
    shuts_down : Step q (shutdown q) [] []
    notifies_all : 0 < q.to_notify_all → Step q (notify_all q) [] []
    enters_pop : Step q (enter_pop q) [] []
    wakes : 0 < q.asleep → Step q (wake q) [] []
    tests : 0 < q.checking → Step q (test_pop q).0 [] (taken (test_pop q).1)
    tries : Step q (try_pop q).0 [] (from_option (try_pop q).1)

  -- From a new queue, with all that was pushed and all that was taken, in order.
  pub data Reach : Queue A → List A → List A → Type ℓ where
    start : Reach new [] []
    next :
        {q r : Queue A} {pushed popped ins outs : List A}
        → Reach q pushed popped
        → Step q r ins outs
        → Reach r (pushed ++ ins) (popped ++ outs)

  test_order :
      (xs : List A) (c : Bool) (q : Queue A)
      → q.items ≡ xs
      → xs ++ [] ≡ taken (test_from xs c q).1 ++ (test_from xs c q).0.items
  unfolding test_from
  test_order [] false q e = sym e
  test_order [] true q e = sym e
  test_order (x ∷ xs) c q e = append-nil _

  try_order :
      (xs : List A) (q : Queue A)
      → q.items ≡ xs
      → xs ++ [] ≡ from_option (try_from xs q).1 ++ (try_from xs q).0.items
  unfolding try_from
  try_order [] q e = sym e
  try_order (x ∷ xs) q e = append-nil _

  Step-order :
      {q r : Queue A} {ins outs : List A} → Step q r ins outs → q.items ++ ins ≡ outs ++ r.items
  unfolding push notify_one shutdown notify_all enter_pop wake test_pop try_pop
  Step-order (pushes value) = refl
  Step-order (notifies_one h) = append-nil _
  Step-order shuts_down = append-nil _
  Step-order (notifies_all h) = append-nil _
  Step-order enters_pop = append-nil _
  Step-order (wakes h) = append-nil _
  Step-order {q} (tests h) = test_order q.items q.closed q refl
  Step-order {q} tries = try_order q.items q refl

  -- The queue is first in, first out: what was pushed is what was taken, followed by what is still in
  -- it, whatever the threads do.
  pub Reach-order :
      {q : Queue A} {pushed popped : List A} → Reach q pushed popped → pushed ≡ popped ++ q.items
  unfolding new
  Reach-order start = refl
  Reach-order (next {q} {r} {pushed} {popped} {ins} {outs} reach s) =
      ap (λ (t : List A). t ++ ins) (Reach-order reach)
      ∙ append_assoc popped q.items ins
      ∙ ap (◌++◌ popped) (Step-order s)
      ∙ sym (append_assoc popped outs r.items)

  -- While a thread sleeps, each item has a thread that is about to take it or to be told of it, and a
  -- closed queue has a broadcast under way.
  record Awake (q : Queue A) : Type ℓ where
    enough : 0 < q.asleep → length q.items ≤ q.checking + q.to_notify_one
    told : 0 < q.asleep → q.closed ≡ true → 0 < q.to_notify_all

  test_from-Awake :
      (xs : List A) (c : Bool) (q : Queue A)
      → q.items ≡ xs
      → q.closed ≡ c
      → 0 < q.checking
      → Awake q
      → Awake (test_from xs c q).0
  unfolding test_from
  test_from-Awake [] false q e f h a = record {
    enough = λ _. omega (arith, ap length e);
    told = λ _ g. cc;
  }
  test_from-Awake [] true q e f h a = record {
    enough = λ k. omega (arith, ap length e, a.enough k);
    told = λ k g. a.told k g;
  }
  test_from-Awake (x ∷ xs) c q e f h a = record {
    enough = λ k. omega (arith, ap length e, a.enough k);
    told = λ k g. a.told k g;
  }

  try_from-Awake : (xs : List A) (q : Queue A) → q.items ≡ xs → Awake q → Awake (try_from xs q).0
  unfolding try_from
  try_from-Awake [] q e a = a
  try_from-Awake (x ∷ xs) q e a = record {
    enough = λ k. omega (arith, ap length e, a.enough k);
    told = a.told;
  }

  Step-Awake : {q r : Queue A} {ins outs : List A} → Step q r ins outs → Awake q → Awake r
  unfolding push notify_one shutdown notify_all enter_pop wake test_pop try_pop
  Step-Awake {q} (pushes value) a = record {
    enough = λ k. omega (arith, a.enough k, length-append q.items (value ∷ []));
    told = a.told;
  }
  Step-Awake {q} (notifies_one h) a = record {
    enough = λ k. ground (arith, a.enough (omega arith));
    told = λ k g. a.told (omega arith) g;
  }
  Step-Awake shuts_down a = record { enough = a.enough; told = λ k g. omega arith }
  Step-Awake (notifies_all h) a = record {
    enough = λ k. absurd (omega arith);
    told = λ k g. absurd (omega arith);
  }
  Step-Awake enters_pop a = record { enough = λ k. omega (arith, a.enough k); told = a.told }
  Step-Awake (wakes h) a = record {
    enough = λ k. omega (arith, a.enough h);
    told = λ k g. a.told h g;
  }
  Step-Awake {q} (tests h) a = test_from-Awake q.items q.closed q refl refl h a
  Step-Awake {q} tries a = try_from-Awake q.items q refl a

  Reach-Awake : {q : Queue A} {pushed popped : List A} → Reach q pushed popped → Awake q
  unfolding new
  Reach-Awake start = record {
    enough = λ k. absurd (omega arith);
    told = λ k g. absurd (omega arith);
  }
  Reach-Awake (next reach s) = Step-Awake s (Reach-Awake reach)

  -- No wake-up is lost: when no thread is between a critical section and its notification, and none
  -- is about to test, a consumer sleeps only while the queue is empty and not shut down.
  pub Reach-asleep :
      {q : Queue A} {pushed popped : List A}
      → Reach q pushed popped
      → q.to_notify_one ≡ 0
      → q.to_notify_all ≡ 0
      → q.checking ≡ 0
      → 0 < q.asleep
      → (q.items ≡ []) × (q.closed ≡ false)
  Reach-asleep {q} reach one all none_checks h =
      let a = Reach-Awake reach in
      (
        nil_of_length q.items (omega (arith, a.enough h)),
        not-true q.closed (λ c. omega (arith, a.told h c)),
      )
