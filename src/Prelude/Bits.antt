-- ===== src/Prelude/Bits.antt =====
-- Bit operations at variables, and laws over a byte by evaluation.
use Prim.Native.Nat.{
  ℕ, zero, suc, ◌+◌, ◌*◌, ◌/◌, ◌%◌, ◌^◌, ◌≤◌, ◌<◌, min, max, bit_and, bit_or, digits,
  bit_and-bitwise, bit_or-bitwise,
}
use mathlib.Core.Path.{◌≡◌, refl, ap, sym, ◌∙◌}
use mathlib.Core.Bool.{Bool, true, ◌&&◌}
use native.Mathlib.Omega.{arith}
use native.Mathlib.Nat.{pow-suc}

-- A test of every number under a bound, by evaluation.
unfoldable pub holds_below : (ℕ → Bool) → ℕ → Bool
holds_below test zero = true
holds_below test (suc bound) = holds_below test bound && test bound

pub holds_below-lt :
    (test : ℕ → Bool) (bound : ℕ) {x : ℕ}
    → holds_below test bound ≡ true
    → x < bound
    → test x ≡ true
unfolding holds_below
holds_below-lt test zero {x} all small = absurd (omega arith)
holds_below-lt test (suc bound) {x} all small = ground (arith, holds_below-lt test bound {x = x})

-- The native operations stand for `digits`, of which the count of digits to go does not matter as
-- long as there are enough.
module _ (fill : ℕ → ℕ) (op : ℕ → ℕ → ℕ) where
  spare_fuel : (m n : ℕ) → n ≤ m → (a b : ℕ) → a ≤ n → digits fill op m a b ≡ digits fill op n a b
  spare_fuel m zero more (suc a) b small = absurd (omega arith)
  spare_fuel zero (suc n) more a b small = absurd (omega arith)
  spare_fuel zero zero more zero b small = refl
  spare_fuel (suc m) zero more zero b small = refl
  spare_fuel (suc m) (suc n) more zero b small = refl
  spare_fuel (suc m) (suc n) more (suc a) b small =
      omega (arith, spare_fuel m n (omega arith) (suc a / 2) (b / 2) (omega arith))

  -- The lowest digit is split off.
  bitwise_halves :
      ((b : ℕ) → fill b ≡ fill (b / 2) * 2 + op 0 (b % 2))
      → (a b : ℕ)
      → digits fill op a a b ≡ digits fill op (a / 2) (a / 2) (b / 2) * 2 + op (a % 2) (b % 2)
  bitwise_halves base zero b = base b
  bitwise_halves base (suc a) b =
      let h = suc a / 2 in omega (arith, spare_fuel a h (omega arith) h (b / 2) (omega arith))

pub bit_and_step : (a b : ℕ) → bit_and a b ≡ bit_and (a / 2) (b / 2) * 2 + min (a % 2) (b % 2)
bit_and_step a b =
    bit_and-bitwise a b
    ∙ bitwise_halves (λ b. zero) min (λ b. omega arith) a b
    ∙ ap (λ (t : ℕ). t * 2 + min (a % 2) (b % 2)) (sym (bit_and-bitwise (a / 2) (b / 2)))

bit_or_step : (a b : ℕ) → bit_or a b ≡ bit_or (a / 2) (b / 2) * 2 + max (a % 2) (b % 2)
bit_or_step a b =
    bit_or-bitwise a b
    ∙ bitwise_halves (λ b. b) max (λ b. omega arith) a b
    ∙ ap (λ (t : ℕ). t * 2 + max (a % 2) (b % 2)) (sym (bit_or-bitwise (a / 2) (b / 2)))

digits_none : (n a : ℕ) → digits (λ b. zero) min n a 0 ≡ 0
digits_none zero a = refl
digits_none (suc n) zero = refl
digits_none (suc n) (suc a) = omega (arith, digits_none n (suc a / 2))

bit_and-zero : (a : ℕ) → bit_and a 0 ≡ 0
bit_and-zero a = bit_and-bitwise a 0 ∙ digits_none a a

digits_all : (n a : ℕ) → a ≤ n → digits (λ b. b) max n a 0 ≡ a
digits_all zero zero small = refl
digits_all zero (suc a) small = absurd (omega arith)
digits_all (suc n) zero small = refl
digits_all (suc n) (suc a) small = omega (arith, digits_all n (suc a / 2) (omega arith))

bit_or-zero : (a : ℕ) → bit_or a 0 ≡ a
bit_or-zero a = bit_or-bitwise a 0 ∙ digits_all a a (omega arith)

-- The masks of two, four, six and eight ones.
pub bit_and_3 : (a : ℕ) → bit_and a 3 ≡ a % 4
bit_and_3 a = omega (arith, bit_and_step a 3, bit_and_step (a / 2) 1, bit_and-zero (a / 2 / 2))

pub bit_and_15 : (a : ℕ) → bit_and a 15 ≡ a % 16
bit_and_15 a = omega (arith, bit_and_step a 15, bit_and_step (a / 2) 7, bit_and_3 (a / 2 / 2))

pub bit_and_63 : (a : ℕ) → bit_and a 63 ≡ a % 64
bit_and_63 a = omega (arith, bit_and_step a 63, bit_and_step (a / 2) 31, bit_and_15 (a / 2 / 2))

pub bit_and_255 : (a : ℕ) → bit_and a 255 ≡ a % 256
bit_and_255 a = omega (arith, bit_and_step a 255, bit_and_step (a / 2) 127, bit_and_63 (a / 2 / 2))

half_fields : (k x : ℕ) → x * 2 ^ suc k / 2 ≡ x * 2 ^ k
half_fields k x = omega (arith, ap (λ (t : ℕ). x * t) (pow-suc 2 k))

-- Fields that do not overlap are added.
pub bit_or_fields : (k x b : ℕ) → b < 2 ^ k → bit_or (x * 2 ^ k) b ≡ x * 2 ^ k + b
bit_or_fields zero x b h = ground (arith, bit_or-zero x)
bit_or_fields (suc k) x b h = omega (
  arith,
  pow-suc 2 k,
  ap (λ (t : ℕ). x * t) (pow-suc 2 k),
  bit_or_step (x * 2 ^ suc k) b,
  ap (λ (t : ℕ). bit_or t (b / 2)) (half_fields k x),
  bit_or_fields k x (b / 2) (omega (arith, pow-suc 2 k)),
)

-- `x << k` and `x >> k` with no bound on the width.
abbrev pub shl : ℕ → ℕ → ℕ
shl x k = x * 2 ^ k

abbrev pub shr : ℕ → ℕ → ℕ
shr x k = x / 2 ^ k
