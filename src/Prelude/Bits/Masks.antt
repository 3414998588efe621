-- ===== src/Prelude/Bits/Masks.antt =====
-- Masks: what they keep and what they drop.
use Prim.Native.Nat.{
  ℕ, zero, suc, ◌+◌, ◌-◌, ◌*◌, ◌/◌, ◌^◌, ◌≤◌, ◌<◌, bit_and, bit_or, bit_and-bitwise,
}
use mathlib.Core.Path.{◌≡◌, refl, ap}
use native.Mathlib.Nat.{pow-suc, one-le-pow}
use native.Mathlib.Omega.{arith}
use orlix_system.Prelude.Bits.{bit_and_step, bit_or_step, bit_and-zero}

twice_field : (q k : ℕ) → q * 2 ^ suc k ≡ 2 * (q * 2 ^ k)
twice_field q k = omega (arith, ap (λ (t : ℕ). q * t) (pow-suc 2 k))

-- `&` works on the fields above and below bit `k` apart.
pub bit_and-join :
    (k q r m n : ℕ)
    → r < 2 ^ k
    → n < 2 ^ k
    → bit_and (q * 2 ^ k + r) (m * 2 ^ k + n) ≡ bit_and q m * 2 ^ k + bit_and r n
bit_and-join zero q r m n h h' = ground (arith, bit_and-zero 0)
bit_and-join (suc k) q r m n h h' = omega (
  arith,
  twice_field q k,
  twice_field m k,
  twice_field (bit_and q m) k,
  pow-suc 2 k,
  bit_and_step (q * 2 ^ suc k + r) (m * 2 ^ suc k + n),
  bit_and_step r n,
  ap (λ (t : ℕ). bit_and t ((m * 2 ^ suc k + n) / 2)) (halve q r),
  ap (λ (t : ℕ). bit_and (q * 2 ^ k + r / 2) t) (halve m n),
  bit_and-join k q (r / 2) m (n / 2) (omega (arith, pow-suc 2 k)) (omega (arith, pow-suc 2 k)),
)
  where
    halve : (x y : ℕ) → (x * 2 ^ suc k + y) / 2 ≡ x * 2 ^ k + y / 2
    halve x y = omega (arith, twice_field x k)

-- A mask and its complement part a word of `k` bits.
pub bit_and-parts :
    (k a b : ℕ) → a < 2 ^ k → b < 2 ^ k → bit_and a b + bit_and a (2 ^ k - 1 - b) ≡ a
bit_and-parts zero zero zero h h' = refl
bit_and-parts zero zero (suc b) h h' = absurd (omega arith)
bit_and-parts zero (suc a) b h h' = absurd (omega arith)
bit_and-parts (suc k) a b h h' = omega (
  arith,
  pow-suc 2 k,
  one-le-pow k 2,
  bit_and_step a b,
  bit_and_step a (2 ^ suc k - 1 - b),
  ap (λ (t : ℕ). bit_and (a / 2) t) half,
  bit_and-parts k (a / 2) (b / 2) (omega (arith, pow-suc 2 k)) (omega (arith, pow-suc 2 k)),
)
  where
    half : (2 ^ suc k - 1 - b) / 2 ≡ 2 ^ k - 1 - b / 2
    half = omega (arith, pow-suc 2 k)

pub bit_and-le : (n a b : ℕ) → a ≤ n → bit_and a b ≤ a
bit_and-le zero zero b h = omega (arith, bit_and-bitwise 0 b)
bit_and-le zero (suc a) b h = absurd (omega arith)
bit_and-le (suc n) a b h = ground (arith, bit_and_step a b, bit_and-le n (a / 2) (b / 2))

pub bit_or-lt : (k a b : ℕ) → a < 2 ^ k → b < 2 ^ k → bit_or a b < 2 ^ k
bit_or-lt zero zero zero h h' = omega arith
bit_or-lt zero zero (suc b) h h' = absurd (omega arith)
bit_or-lt zero (suc a) b h h' = absurd (omega arith)
bit_or-lt (suc k) a b h h' = omega (
  arith,
  pow-suc 2 k,
  bit_or_step a b,
  bit_or-lt k (a / 2) (b / 2) (omega (arith, pow-suc 2 k)) (omega (arith, pow-suc 2 k)),
)
