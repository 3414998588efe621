-- ===== src/Uaccess/Pages.antt =====
-- Addresses of one page.
use native.Mathlib.Nat.{mod-eq_of_lt, mod-add-mod, div-add-mod, mul-div_cancel_left}
use orlix_system.Prelude.{ℕ, ◌+◌, ◌*◌, ◌/◌, ◌%◌, ◌<◌, ◌≡◌, sym, ap, ◌∙◌, arith}

mod_within : (a j p : ℕ) → a % p + j < p → (a + j) % p ≡ a % p + j
mod_within a j p h = sym (mod-add-mod a p j) ∙ mod-eq_of_lt h

pub same_page : (a j p : ℕ) → a % p + j < p → ((a + j) / p ≡ a / p) × ((a + j) % p ≡ a % p + j)
same_page a j p h = (
  sym (mul-div_cancel_left ((a + j) / p) pos)
      ∙ ap (λ (t : ℕ). t / p) same
      ∙ mul-div_cancel_left (a / p) pos,
  mod_within a j p h,
)
  where
    pos : 0 < p
    pos = omega arith

    same : p * ((a + j) / p) ≡ p * (a / p)
    same = omega (arith, div-add-mod (a + j) p, div-add-mod a p, mod_within a j p h)
