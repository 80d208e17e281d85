-- ===== src/App/Config/Numbers.antt =====
-- What a key of a number stores.
use simple_coder.Prelude.{Bytes, codes, ℕ, ◌<◌, ◌^◌, ◌↔◌, ◌≡◌}
use simple_coder.Llm.Message.{ℤ, pos, negsuc}
use simple_coder.App.ConfigValue.{Checked, checked, ◌>>=◌, to_int}
use simple_coder.App.Config.{Doubles, Config}

to_nat : ℤ → ℕ
to_nat (pos n) = n
to_nat (negsuc n) = 0

IsNegative : ℤ → Type 0
IsNegative (pos n) = ⊥
IsNegative (negsuc n) = Unit

-- The messages and results of a number's key.
pub iterations_message : Bytes
iterations_message = codes "config: 'max_tool_iterations' must be a positive integer"

module _ (D : Doubles) where
  abbrev stored : Config D.Double → ℤ → Config D.Double
  stored cfg n = record cfg { max_tool_iterations = n }

  store : Checked ℕ → Config D.Double → Checked (Config D.Double)
  store n cfg = n >>= λ n. checked (stored cfg (to_int n))

  -- A positive number, stored as itself exactly when it fits an `int`.
  pub Accepted : Config D.Double → Checked (Config D.Double) → Type 0
  Accepted cfg r =
      (n : ℕ) × (0 < n)
      × (r ≡ checked (stored cfg (to_int n)))
      × ((to_int n ≡ pos n) ↔ (n < 2 ^ 31))
