-- ===== src/PageTable/Fields.antt =====
-- What the fields of an entry are after they have been put together.
use native.Mathlib.Nat.{div-add-mod', div-eq_of_lt-le}
use orlix_system.Prelude.{
  ℕ, zero, suc, ◌+◌, ◌-◌, ◌*◌, ◌/◌, ◌%◌, ◌^◌, ◌≤◌, ◌<◌, ◌≡◌, ◌⊎◌, refl, ap, ◌∙◌, subst, Bool, true,
  false, not, ◌==◌, arith, bit_and, bit_or, u64, if◌then◌else◌, leb, ltb, ◌&&◌, inl, inr,
  Bool-cases,
}
use orlix_system.Prelude.Bits.{bit_or-join, bit_and-low, bit_and-zero, bit_or_step}
use orlix_system.Prelude.Bits.Masks.{bit_and-join}
use orlix_system.PageTable.{
  Table, vmalloc_start, vmalloc_end, set_one, set_ptes, pte_present, swp_type, swp_offset,
  swp_entry, pte_swp_exclusive, pte_swp_mkexclusive, pte_swp_clear_exclusive, pte_pfn, pfn_pte,
}

or_comm_below : (n a b : ℕ) → a ≤ n → b ≤ n → bit_or a b ≡ bit_or b a
or_comm_below zero a b h h' = let same : a ≡ b = omega arith in rw (same) refl
or_comm_below (suc n) a b h h' = omega (
  arith,
  bit_or_step a b,
  bit_or_step b a,
  or_comm_below n (a / 2) (b / 2) (omega arith) (omega arith),
)

swap_sum :
    (type offset : ℕ)
    → type < 2 ^ 5
    → offset < 2 ^ 51
    → swp_entry type offset ≡ (offset * 32 + type) * 2 ^ 8
unfolding swp_entry
swap_sum type offset h h' =
    let low : bit_and type (2 ^ 5 - 1) ≡ type = omega (arith, bit_and-low 5 type) in
    let high : u64 (offset * 2 ^ 13) ≡ offset * 2 ^ 13 = omega arith in
    rw (low, high)
      (omega (
        arith,
        or_comm_below (type * 2 ^ 8 + offset * 2 ^ 13) (type * 2 ^ 8) (offset * 2 ^ 13)
            (omega arith) (omega arith),
        bit_or-join 13 offset (type * 2 ^ 8) (omega arith),
      ))

-- An entry with a type and an offset: not present, and marked exclusive or not.
pub record IsSwap (entry type offset : ℕ) (exclusive : Bool) : Type 0 where
  pub type_back : swp_type entry ≡ type
  pub offset_back : swp_offset entry ≡ offset
  pub not_present : pte_present entry ≡ false
  pub marked : pte_swp_exclusive entry ≡ exclusive

fields-IsSwap :
    (type offset low : ℕ)
    → type < 2 ^ 5
    → low < 2 ^ 8
    → bit_and low 65 ≡ 0
    → IsSwap ((offset * 32 + type) * 2 ^ 8 + low) type offset (not (bit_and low 128 == 0))
unfolding swp_type swp_offset pte_present pte_swp_exclusive
fields-IsSwap type offset low h h' clear =
    let entry = (offset * 32 + type) * 2 ^ 8 + low in
    record {
      type_back = omega (arith, bit_and-low 5 (entry / 2 ^ 8));
      offset_back = omega arith;
      not_present = ground (
        arith,
        bit_and-join 8 (offset * 32 + type) low 0 65 h' (omega arith),
        bit_and-zero (offset * 32 + type),
        clear,
      );
      marked =
          ap (λ (b : ℕ). not (b == 0))
            (omega (
              arith,
              bit_and-join 8 (offset * 32 + type) low 0 128 h' (omega arith),
              bit_and-zero (offset * 32 + type),
            ));
    }

-- An entry made of a type and an offset that fit gives them back, is not present and not
-- exclusive; marking it exclusive changes that mark alone, and clearing the mark undoes it.
pub swp_entry-IsSwap :
    (type offset : ℕ)
    → type < 2 ^ 5
    → offset < 2 ^ 51
    → let entry = swp_entry type offset in
      IsSwap entry type offset false
      × IsSwap (pte_swp_mkexclusive entry) type offset true
      × (pte_swp_clear_exclusive (pte_swp_mkexclusive entry) ≡ entry)
unfolding pte_swp_mkexclusive pte_swp_clear_exclusive
swp_entry-IsSwap type offset h h' =
    let q = offset * 32 + type in
    let no_low : q * 2 ^ 8 + 0 ≡ q * 2 ^ 8 = omega arith in
    let mark : bit_or (q * 2 ^ 8) 128 ≡ q * 2 ^ 8 + 128 = bit_or-join 8 q 128 (omega arith) in
    rw (swap_sum type offset h h', mark)
      (
        subst (λ (e : ℕ). IsSwap e type offset false) no_low
            (fields-IsSwap type offset 0 h (omega arith) refl),
        fields-IsSwap type offset 128 h (omega arith) refl,
        omega (
          arith,
          bit_and-join 8 q 128 (2 ^ 56 - 1) 127 (omega arith) (omega arith),
          bit_and-low 56 q,
        ),
      )

split_field : (q r p : ℕ) → r < p → ((q * p + r) / p ≡ q) × ((q * p + r) % p ≡ r)
split_field q r p h =
    let quotient : (q * p + r) / p ≡ q =
      div-eq_of_lt-le {k = q} p {m = q * p + r} (omega arith) (grind arith) in
    (quotient, omega (arith, quotient, div-add-mod' (q * p + r) p, ap (λ (t : ℕ). t * p) quotient))

step_mul : (a b p : ℕ) → a < b → a * p + p ≤ b * p
step_mul a b p h = grind arith

set_one-entries :
    (kernel : Bool) (address i e : ℕ) (t : Table) (a : ℕ)
    → (set_one kernel address i e t).entries a ≡ (if a == i then e else t.entries a)
set_one-entries kernel address i e t a =
    elim (Bool-cases
      (kernel && leb vmalloc_start address && ltb address vmalloc_end && pte_present e)) [
        | inl synced ↦ rw (synced) refl
        | inr plain ↦ rw (plain) refl
      ]

module _ (page_shift : ℕ) where
  pfn_pte-sum :
      (pfn prot : ℕ)
      → pfn * 2 ^ page_shift < 2 ^ 64
      → prot < 2 ^ page_shift
      → pfn_pte page_shift pfn prot ≡ pfn * 2 ^ page_shift + prot
  unfolding pfn_pte
  pfn_pte-sum pfn prot h h' =
      let fits : u64 (pfn * 2 ^ page_shift) ≡ pfn * 2 ^ page_shift = omega (arith, h) in
      rw (fits) (bit_or-join page_shift pfn prot h')

  -- An entry that is made of a page frame number and a protection that fit has both of them.
  pub pte_pfn-pfn_pte :
      (pfn prot : ℕ)
      → pfn * 2 ^ page_shift < 2 ^ 64
      → prot < 2 ^ page_shift
      → (pte_pfn page_shift (pfn_pte page_shift pfn prot) ≡ pfn)
        × (pfn_pte page_shift pfn prot % 2 ^ page_shift ≡ prot)
  unfolding pte_pfn
  pte_pfn-pfn_pte pfn prot h h' =
      rw (pfn_pte-sum pfn prot h h') (split_field pfn prot (2 ^ page_shift) h')

  run_of_entries :
      (nr : ℕ) (kernel : Bool) (address i e : ℕ) (t : Table)
      → ((k : ℕ) → k < nr → e + k * 2 ^ page_shift < 2 ^ 64)
      → ((k : ℕ)
          → k < nr
          → (set_ptes page_shift nr kernel address i e t).entries (i + k) ≡ e + k * 2 ^ page_shift)
        × ((a : ℕ)
            → (a < i) ⊎ (i + nr ≤ a)
            → (set_ptes page_shift nr kernel address i e t).entries a ≡ t.entries a)
  unfolding set_ptes
  run_of_entries zero kernel address i e t h =
      ((λ k low. absurd (omega (arith, low))), λ a out. refl)
  run_of_entries (suc nr) kernel address i e t h =
      let one : ℕ = e + 2 ^ page_shift in
      let shift_rest : (k : ℕ)
          → k < nr
          → u64 one + k * 2 ^ page_shift ≡ e + (k + 1) * 2 ^ page_shift =
        λ k low. grind (arith, h (k + 1) (omega (arith, low))) in
      let later =
        run_of_entries nr kernel (u64 (address + 2 ^ page_shift)) (i + 1) (u64 one)
          (set_one kernel address i e t)
          (λ k low. omega (arith, shift_rest k low, h (k + 1) (omega (arith, low)))) in
      (
        (λ k low. elim (Bool-cases (k == 0)) [
          | inl first ↦
              later.1 (i + k) (inl (ground (arith, first)))
              ∙ set_one-entries kernel address i e t (i + k)
              ∙ ground (arith, first)
          | inr next ↦
              let step : i + k ≡ i + 1 + (k - 1) = ground (arith, next) in
              let back : k - 1 + 1 ≡ k = ground (arith, next) in
              ap
                (λ (x : ℕ).
                  (set_ptes page_shift nr kernel (u64 (address + 2 ^ page_shift)) (i + 1) (u64 one)
                      (set_one kernel address i e t)).entries
                    x)
                step
              ∙ later.0 (k - 1) (ground (arith, next, low))
              ∙ shift_rest (k - 1) (ground (arith, next, low))
              ∙ ap (λ (x : ℕ). e + x * 2 ^ page_shift) back
        ]),
        λ a out.
            later.1 a (ground (arith, out))
            ∙ set_one-entries kernel address i e t a
            ∙ ground (arith, out),
      )

  -- `nr` entries from an entry of a page frame number on have that number and the following ones,
  -- as far as they fit, with the same protection; no other entry changes.
  pub set_ptes-IsRun :
      (nr : ℕ) (kernel : Bool) (address i pfn prot : ℕ) (t : Table)
      → 0 < nr
      → (pfn + nr) * 2 ^ page_shift ≤ 2 ^ 64
      → prot < 2 ^ page_shift
      → let t' = set_ptes page_shift nr kernel address i (pfn_pte page_shift pfn prot) t in
        ((k : ℕ) → k < nr → t'.entries (i + k) ≡ pfn_pte page_shift (pfn + k) prot)
        × ((a : ℕ) → (a < i) ⊎ (i + nr ≤ a) → t'.entries a ≡ t.entries a)
  set_ptes-IsRun nr kernel address i pfn prot t some_entries fits h =
      let below : (k : ℕ) → k < nr → (pfn + k) * 2 ^ page_shift + 2 ^ page_shift ≤ 2 ^ 64 = λ k low.
        omega (arith, fits, step_mul (pfn + k) (pfn + nr) (2 ^ page_shift) (omega (arith, low))) in
      let run =
        run_of_entries nr kernel address i (pfn * 2 ^ page_shift + prot) t
          (λ k low. grind (arith, below k low, h)) in
      rw (pfn_pte-sum pfn prot (grind (arith, below 0 some_entries, h)) h) (
        (λ k low.
            run.0 k low
            ∙ grind (arith, pfn_pte-sum (pfn + k) prot (omega (arith, below k low, h)) h)),
        run.1,
      )
