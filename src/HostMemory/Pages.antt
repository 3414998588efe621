-- ===== src/HostMemory/Pages.antt =====
-- The arithmetic of whole pages.
use native.Mathlib.Nat.{one-le-pow, mod-lt, div-add-mod', div-eq_of_lt-le, mul-mod_left}
use orlix_system.Prelude.{ℕ, ◌+◌, ◌-◌, ◌*◌, ◌/◌, ◌%◌, ◌^◌, ◌≤◌, ◌<◌, ◌≡◌, ◌≢◌, arith, ap}
use orlix_system.HostMemory.Space.{page_start, page_end, address_max}

-- What rounding down and rounding up do, for any size.
pub round_bounds :
    (a p : ℕ)
    → 0 < p
    → (a / p * p ≤ a)
      × (a < a / p * p + p)
      × (a ≤ (a + p - 1) / p * p)
      × ((a + p - 1) / p * p < a + p)
round_bounds a p h =
    omega (arith, div-add-mod' a p, div-add-mod' (a + p - 1) p, mod-lt a h, mod-lt (a + p - 1) h)

round_up-aligned : (a p : ℕ) → 0 < p → a % p ≡ 0 → (a + p - 1) / p * p ≡ a
round_up-aligned a p h e = omega (
  arith,
  div-add-mod' a p,
  ap (λ (t : ℕ). t * p)
      (div-eq_of_lt-le {k = a / p} p {m = a + p - 1} (omega (arith, div-add-mod' a p))
        (grind (arith, div-add-mod' a p))),
)

-- A multiple below another is a whole step below it.
below_multiple : (a b p : ℕ) → a % p ≡ 0 → b % p ≡ 0 → a < b → a + p ≤ b
below_multiple a b p ha hb h = grind (arith, div-add-mod' a p, div-add-mod' b p)

module _ (page_shift : ℕ) where
  page_pos : 0 < 2 ^ page_shift
  page_pos = omega (arith, one-le-pow page_shift 2)

  -- The whole pages of a range hold it.
  pub page_range :
      (target length : ℕ)
      → page_end page_shift target length ≢ 0
      → (page_start page_shift target ≤ target)
        × (target + length ≤ page_end page_shift target length)
        × (page_end page_shift target length ≤ address_max)
  unfolding page_start page_end
  page_range target length h = ground (
    arith,
    page_pos,
    round_bounds target (2 ^ page_shift),
    round_bounds (target + length) (2 ^ page_shift),
    h,
  )

  pub page_aligned :
      (target length : ℕ)
      → (page_start page_shift target % 2 ^ page_shift ≡ 0)
        × (page_end page_shift target length % 2 ^ page_shift ≡ 0)
  unfolding page_start page_end
  page_aligned target length = ground (
    arith,
    mul-mod_left (target / 2 ^ page_shift) (2 ^ page_shift),
    mul-mod_left ((target + length + 2 ^ page_shift - 1) / 2 ^ page_shift) (2 ^ page_shift),
  )

  -- Whole pages are their own range.
  pub page_range_whole :
      (start end : ℕ)
      → 2 ^ 64 % 2 ^ page_shift ≡ 0
      → start % 2 ^ page_shift ≡ 0
      → end % 2 ^ page_shift ≡ 0
      → start < end
      → end ≤ address_max
      → (page_start page_shift start ≡ start) × (page_end page_shift start (end - start) ≡ end)
  unfolding page_start page_end
  page_range_whole start end word a b h in_word = ground (
    arith,
    page_pos,
    div-add-mod' start (2 ^ page_shift),
    round_up-aligned end (2 ^ page_shift),
    below_multiple end (2 ^ 64) (2 ^ page_shift) b word,
  )
