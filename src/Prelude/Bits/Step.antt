-- ===== src/Prelude/Bits/Step.antt =====
-- One equation for the lowest digit of `&` and of `|`.
use Prim.Native.Nat.{
  ℕ, zero, suc, ◌+◌, ◌*◌, ◌/◌, ◌%◌, ◌≤◌, min, max, bit_and, bit_or, digits, bit_and-bitwise,
  bit_or-bitwise,
}
use mathlib.Core.Path.{◌≡◌, refl, ap, ◌∙◌}
use native.Mathlib.Decide.{ℕ_discrete}
use native.Mathlib.Omega.{arith}

module _ (rest : ℕ → ℕ) (digit : ℕ → ℕ → ℕ) where
  -- One unit of fuel above the number.
  one_spare : (n b a : ℕ) → a ≤ n → digits rest digit (suc n) a b ≡ digits rest digit n a b
  one_spare zero b a low = ground arith
  one_spare (suc k) b zero low = refl
  one_spare (suc k) b (suc a) low = omega (arith, one_spare k (b / 2) (suc a / 2) (omega arith))

  -- Any fuel above the number.
  spare : (m n b a : ℕ) → a ≤ n → n ≤ m → digits rest digit m a b ≡ digits rest digit n a b
  spare zero n b a low fuel = ap (λ (t : ℕ). digits rest digit t a b) {x = 0} (omega arith)
  spare (suc k) n b a low fuel = elim (ℕ_discrete n (suc k)) [
    | yes e ↦ ap (λ (t : ℕ). digits rest digit t a b) {x = suc k} (omega arith)
    | no ne ↦ one_spare k b a (omega arith) ∙ spare k n b a low (omega arith)
  ]

pub bit_and_step : (a b : ℕ) → bit_and a b ≡ min (a % 2) (b % 2) + 2 * bit_and (a / 2) (b / 2)
bit_and_step zero b = omega (arith, bit_and-bitwise 0 (b / 2), bit_and-bitwise 0 b)
bit_and_step (suc k) b = omega (
  arith,
  spare (λ y. zero) min k (suc k / 2) (b / 2) (suc k / 2) (omega arith) (omega arith),
  bit_and-bitwise (suc k / 2) (b / 2),
  bit_and-bitwise (suc k) b,
)

pub bit_or_step : (a b : ℕ) → bit_or a b ≡ max (a % 2) (b % 2) + 2 * bit_or (a / 2) (b / 2)
bit_or_step zero b = omega (arith, bit_or-bitwise 0 (b / 2), bit_or-bitwise 0 b)
bit_or_step (suc k) b = omega (
  arith,
  spare (λ y. y) max k (suc k / 2) (b / 2) (suc k / 2) (omega arith) (omega arith),
  bit_or-bitwise (suc k / 2) (b / 2),
  bit_or-bitwise (suc k) b,
)
