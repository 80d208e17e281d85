-- ===== src/Llm/StreamParser/Order.antt =====
-- The map of the tool calls keeps the order of its keys.
use simple_coder.Prelude.{Bool-cases, List, [], arith, false, inl, inr, refl, true, ◌∷◌, ◌≡◌}
use simple_coder.Llm.Message.{ℤ, pos, negsuc, ToolCall}
use simple_coder.Llm.StreamParser.{update_call, int_lt, int_eq}

-- The keys of the map ascend.
Below : ℤ → List (ℤ × ToolCall) → Type 0
Below i [] = Unit
Below i ((k, call) ∷ m) = int_lt i k ≡ true

pub Ascending : List (ℤ × ToolCall) → Type 0
Ascending [] = Unit
Ascending ((k, call) ∷ m) = Below k m × Ascending m

pub Ascending-nil : Ascending []
unfolding Ascending
Ascending-nil = tt

int_lt-connected : (i k : ℤ) → int_eq k i ≡ false → int_lt i k ≡ false → int_lt k i ≡ true
int_lt-connected (pos a) (pos b) h g = ground arith
int_lt-connected (pos a) (negsuc b) h g = refl
int_lt-connected (negsuc a) (pos b) h g = ground arith
int_lt-connected (negsuc a) (negsuc b) h g = ground arith

Below-update_call :
    (j i : ℤ) (f : ToolCall → ToolCall) (m : List (ℤ × ToolCall))
    → int_lt j i ≡ true
    → Below j m
    → Below j (update_call i f m)
unfolding update_call Below
Below-update_call j i f [] h b = h
Below-update_call j i f ((k, call) ∷ m) h b = elim (Bool-cases (int_eq k i)) [
  | inl e ↦ rw e b
  | inr e ↦ elim (Bool-cases (int_lt i k)) [ inl g ↦ rw (e, g) h | inr g ↦ rw (e, g) b ]
]

pub update_call-Ascending :
    (i : ℤ) (f : ToolCall → ToolCall) (m : List (ℤ × ToolCall))
    → Ascending m
    → Ascending (update_call i f m)
unfolding update_call Below Ascending
update_call-Ascending i f [] a = (tt, tt)
update_call-Ascending i f ((k, call) ∷ m) (b, a) = elim (Bool-cases (int_eq k i)) [
  | inl e ↦ rw e (b, a)
  | inr e ↦ elim (Bool-cases (int_lt i k)) [
    | inl g ↦ rw (e, g) (g, (b, a))
    | inr g ↦
        rw (e, g)
          (Below-update_call k i f m (int_lt-connected i k e g) b, update_call-Ascending i f m a)
  ]
]
