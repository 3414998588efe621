-- ===== src/Prelude/Bits.antt =====
-- Laws of `&` and `|` at variables, for fields of a word at every width.
mod Step
pub mod Masks
pub use Step.{bit_and_step, bit_or_step}
use Prim.Native.Nat.{ℕ, zero, suc, ◌+◌, ◌-◌, ◌*◌, ◌/◌, ◌%◌, ◌^◌, ◌≤◌, ◌<◌, bit_and, bit_or}
use mathlib.Core.Path.{◌≡◌, refl, ap}
use native.Mathlib.Nat.{pow-suc, one-le-pow}
use native.Mathlib.Omega.{arith}

-- Every law goes from `a / 2` to `a`; `n` bounds the digits that are left.
or_zero_below : (n a : ℕ) → a ≤ n → bit_or a 0 ≡ a
or_zero_below n zero h = refl
or_zero_below zero (suc a) h = absurd (omega arith)
or_zero_below (suc n) (suc a) h =
    omega (arith, bit_or_step (suc a) 0, or_zero_below n (suc a / 2) (omega arith))

and_zero_below : (n a : ℕ) → a ≤ n → bit_and a 0 ≡ 0
and_zero_below n zero h = refl
and_zero_below zero (suc a) h = absurd (omega arith)
and_zero_below (suc n) (suc a) h =
    omega (arith, bit_and_step (suc a) 0, and_zero_below n (suc a / 2) (omega arith))

pub bit_or-zero : (a : ℕ) → bit_or a 0 ≡ a
bit_or-zero a = or_zero_below a a (omega arith)

pub bit_and-zero : (a : ℕ) → bit_and a 0 ≡ 0
bit_and-zero a = and_zero_below a a (omega arith)

twice_field : (q k : ℕ) → q * 2 ^ suc k ≡ 2 * (q * 2 ^ k)
twice_field q k = omega (arith, ap (λ (t : ℕ). q * t) (pow-suc 2 k))

-- `|` joins a field above bit `k` with one below it.
pub bit_or-join : (k q r : ℕ) → r < 2 ^ k → bit_or (q * 2 ^ k) r ≡ q * 2 ^ k + r
bit_or-join zero q r h = ground (arith, bit_or-zero q)
bit_or-join (suc k) q r h = ground (
  arith,
  twice_field q k,
  pow-suc 2 k,
  bit_or_step (q * 2 ^ suc k) r,
  bit_or-join k q (r / 2) (omega (arith, pow-suc 2 k)),
)

-- A mask that is `m` above bit `k` and 0 below clears the low field.
pub bit_and-high :
    (k q r m : ℕ) → r < 2 ^ k → bit_and (q * 2 ^ k + r) (m * 2 ^ k) ≡ bit_and q m * 2 ^ k
bit_and-high zero q r m h = ground arith
bit_and-high (suc k) q r m h = ground (
  arith,
  twice_field q k,
  twice_field m k,
  twice_field (bit_and q m) k,
  pow-suc 2 k,
  bit_and_step (q * 2 ^ suc k + r) (m * 2 ^ suc k),
  bit_and-high k q (r / 2) m (omega (arith, pow-suc 2 k)),
)

and_ones_join : (k q r : ℕ) → r < 2 ^ k → bit_and (q * 2 ^ k + r) (2 ^ k - 1) ≡ r
and_ones_join zero q r h = omega (arith, bit_and-zero (q * 1 + r))
and_ones_join (suc k) q r h = ground (
  arith,
  twice_field q k,
  pow-suc 2 k,
  one-le-pow k 2,
  bit_and_step (q * 2 ^ suc k + r) (2 ^ suc k - 1),
  and_ones_join k q (r / 2) (omega (arith, pow-suc 2 k)),
)

-- `k` ones as a mask: the remainder by `2 ^ k`.
pub bit_and-low : (k a : ℕ) → bit_and a (2 ^ k - 1) ≡ a % 2 ^ k
bit_and-low k a = ground (arith, one-le-pow k 2, and_ones_join k (a / 2 ^ k) (a % 2 ^ k))

-- Setting bit 0 sets it, and leaves the other bits.
pub bit_or-one : (a : ℕ) → (bit_or a 1 % 2 ≡ 1) × (bit_or a 1 / 2 ≡ a / 2)
bit_or-one a = (omega (arith, bit_or_step a 1), omega (arith, bit_or_step a 1, bit_or-zero (a / 2)))
