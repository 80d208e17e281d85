-- ===== src/Util/ThreadQueue.antt =====
-- src/util/ThreadQueue.hpp. A critical section is one step; what a thread does after it releases the
-- mutex (the two notifications) and the wait of `pop` are steps of their own, in any order with those
-- of the other threads.
pub mod Wakeup
use simple_coder.Prelude.{
  Bool, List, Option, [], false, if◌then◌else◌, length, none, some, true, ℕ, ◌++◌, ◌+◌, ◌-◌, ◌==◌,
  ◌∷◌,
}

pub record Queue {ℓ} (A : Type ℓ) : Type ℓ where
  pub items : List A  -- queue_
  pub closed : Bool  -- closed_
  pub checking : ℕ  -- threads in `pop` that hold or want the mutex to test the predicate
  pub asleep : ℕ  -- threads that wait on cv_
  pub to_notify_one : ℕ  -- threads in `push` between the unlock and `notify_one`
  pub to_notify_all : ℕ  -- threads in `shutdown` between the unlock and `notify_all`

-- What the test of the predicate leads to: the thread sleeps, or `pop` returns.
pub data Outcome {ℓ} (A : Type ℓ) : Type ℓ where
  sleeps : Outcome A
  returns : Option A → Outcome A

module _ {ℓ} {A : Type ℓ} where
  unfoldable pub new : Queue A
  new = record {
    items = [];
    closed = false;
    checking = 0;
    asleep = 0;
    to_notify_one = 0;
    to_notify_all = 0;
  }

  unfoldable pub push : A → Queue A → Queue A
  push value q = record q { items = q.items ++ value ∷ []; to_notify_one = q.to_notify_one + 1 }

  -- `cv_.notify_one()`: a thread that sleeps, if there is one, goes back to the test.
  unfoldable pub notify_one : Queue A → Queue A
  notify_one q = record q {
    to_notify_one = q.to_notify_one - 1;
    checking = q.checking + (if q.asleep == 0 then 0 else 1);
    asleep = q.asleep - 1;
  }

  unfoldable pub shutdown : Queue A → Queue A
  shutdown q = record q { closed = true; to_notify_all = q.to_notify_all + 1 }

  unfoldable pub notify_all : Queue A → Queue A
  notify_all q = record q {
    to_notify_all = q.to_notify_all - 1;
    checking = q.checking + q.asleep;
    asleep = 0;
  }

  -- A consumer calls `pop`.
  unfoldable pub enter_pop : Queue A → Queue A
  enter_pop q = record q { checking = q.checking + 1 }

  -- A wait may end with no notification.
  unfoldable pub wake : Queue A → Queue A
  wake q = record q { checking = q.checking + 1; asleep = q.asleep - 1 }

  test_from : List A → Bool → Queue A → Queue A × Outcome A
  test_from [] false q = (record q { checking = q.checking - 1; asleep = q.asleep + 1 }, sleeps)
  test_from [] true q = (record q { checking = q.checking - 1 }, returns none)
  test_from (value ∷ rest) c q =
      (record q { checking = q.checking - 1; items = rest }, returns (some value))

  -- One test of `pop` under the mutex.
  unfoldable pub test_pop : Queue A → Queue A × Outcome A
  unfolding test_from
  test_pop q = test_from q.items q.closed q

  try_from : List A → Queue A → Queue A × Option A
  try_from [] q = (q, none)
  try_from (value ∷ rest) q = (record q { items = rest }, some value)

  unfoldable pub try_pop : Queue A → Queue A × Option A
  unfolding try_from
  try_pop q = try_from q.items q

  unfoldable pub size : Queue A → ℕ
  size q = length q.items
