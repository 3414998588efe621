-- ===== src/TrapDecode/Search.antt =====
-- The backward search for the instruction that put the TLS pointer into a register.
use native.Mathlib.Decide.{ℕ_discrete}
use orlix_system.Prelude.{
  if◌then◌else◌, le→ltb, ◌^◌, ◌∙◌, ℕ, zero, suc, ◌+◌, ◌-◌, ◌*◌, ◌/◌, ◌%◌, ◌≤◌, ◌<◌, ◌≡◌, ◌≢◌, ◌↔◌,
  refl, ap, Bool, true, false, if◌then◌else◌, not, some, List, arith, bit_and, get_elem?, ltb,
  Bool-cases, Option-cases, inl, inr,
}
use orlix_system.Prelude.Bits.{bit_and-low, bit_and-zero}
use orlix_system.Prelude.Bits.Masks.{bit_and-join}
use orlix_system.TrapDecode.Classes.{Overwrites, writes_register_iff}
use orlix_system.TrapDecode.{
  mrs_tpidr_el0_destination, integer_class, integer_instruction_writes_register, reads_tls_into,
  search_loop, recent_tpidr_write_matches_base, search_instructions,
}

-- `MRS Xr, TPIDR_EL0`
abbrev pub mrs_tpidr_el0 : ℕ → ℕ
mrs_tpidr_el0 r = 0xd53bd040 + r

mrs_bits : (i : ℕ) → i < 2 ^ 32 → bit_and i 0xffffffe0 ≡ i / 32 * 32
mrs_bits i h =
    ap (λ (t : ℕ). bit_and t 0xffffffe0) whole
    ∙ bit_and-join 5 (i / 32) (i % 32) (2 ^ 27 - 1) 0 (omega arith) (omega arith)
    ∙ omega (arith, bit_and-low 27 (i / 32), bit_and-zero (i % 32))
  where
    whole : i ≡ i / 32 * 2 ^ 5 + i % 32
    whole = omega arith

-- Whether `p` is true of every register number below `count`.
every : (ℕ → Bool) → ℕ → Bool
every p zero = true
every p (suc last) = let others = every p last in if p last then others else false

every-at : (p : ℕ → Bool) (r count : ℕ) → r < count → every p count ≡ true → p r ≡ true
unfolding every
every-at p r zero low all = ground arith
every-at p r (suc last) low all = ground (arith, every-at p r last)

no_mrs_class : every (λ r. not (integer_class (mrs_tpidr_el0 r))) 32 ≡ true
unfolding every integer_class
no_mrs_class = refl

-- The MRS decoder accepts exactly the 32 instructions `MRS Xr, TPIDR_EL0`, with their register,
-- and none of them counts as an integer instruction that overwrites a register.
pub mrs_destination_iff :
    (i r : ℕ)
    → i < 2 ^ 32
    → ((mrs_tpidr_el0_destination i ≡ some r) ↔ ((r < 32) × (i ≡ mrs_tpidr_el0 r)))
      × (r < 32 → (q : ℕ) → integer_instruction_writes_register (mrs_tpidr_el0 r) q ≡ false)
unfolding mrs_tpidr_el0_destination integer_instruction_writes_register
mrs_destination_iff i r h = (
  (
    λ e. ground (arith, mrs_bits i h, bit_and-low 5 i),
    λ p. ground (arith, mrs_bits i h, bit_and-low 5 i),
  ),
  λ small q.
      ground (arith, every-at (λ r. not (integer_class (mrs_tpidr_el0 r))) r 32 small no_mrs_class),
)

passed : (i base : ℕ) → integer_instruction_writes_register i base ≡ false → ¬ Overwrites i base
passed i base w o = absurd (cc (w, (writes_register_iff i base).1 o))

passes : (i base : ℕ) → (¬ Overwrites i base) → integer_instruction_writes_register i base ≡ false
passes i base kept = elim (Bool-cases (integer_instruction_writes_register i base)) [
  | inl w ↦ absurd (kept ((writes_register_iff i base).0 w))
  | inr w ↦ w
]

module _ (instructions : List ℕ) (index base : ℕ) where
  -- The instruction `k` places before the faulting one reads TLS into the register, and none
  -- between them is an integer instruction of `Overwrites` that has the register as its destination.
  pub record HasSource (from rounds k : ℕ) : Type 0 where
    pub later : from ≤ k
    pub near : k < from + rounds
    pub within : k ≤ index
    pub source : ℕ
    pub found : get_elem? instructions (index - k) ≡ some source
    pub reads : reads_tls_into source base ≡ true
    pub kept :
        (j : ℕ)
        → from ≤ j
        → j < k
        → (i : ℕ) × (get_elem? instructions (index - j) ≡ some i) × (¬ Overwrites i base)

  -- The next instruction back does not overwrite the register.
  HasSource-earlier :
      (offset rounds k i : ℕ)
      → get_elem? instructions (index - offset) ≡ some i
      → (¬ Overwrites i base)
      → HasSource (offset + 1) rounds k
      → HasSource offset (suc rounds) k
  HasSource-earlier offset rounds k i e w s = record {
    later = omega arith;
    near = omega arith;
    within = s.within;
    source = s.source;
    found = s.found;
    reads = s.reads;
    kept = λ j lo hi. elim (ℕ_discrete j offset) [
      | yes same ↦ (i, rw same e, w)
      | no other ↦ s.kept j (omega arith) hi
    ];
  }

  HasSource-later :
      (offset rounds k : ℕ)
      → offset ≢ k
      → HasSource offset (suc rounds) k
      → HasSource (offset + 1) rounds k
  HasSource-later offset rounds k ne s = record {
    later = omega arith;
    near = omega arith;
    within = s.within;
    source = s.source;
    found = s.found;
    reads = s.reads;
    kept = λ j lo hi. s.kept j (omega arith) hi;
  }

  search_sound :
      (rounds offset : ℕ)
      → search_loop instructions index base rounds offset ≡ true
      → (k : ℕ) × HasSource offset rounds k
  unfolding search_loop
  search_sound zero offset h = cc
  search_sound (suc rounds) offset h = elim (Bool-cases (ltb index offset)) [
    | inl out ↦ absurd (ground (arith, h, out))
    | inr within ↦ elim (Option-cases (get_elem? instructions (index - offset))) [
      | inl e ↦ absurd (ground (arith, h, within, e))
      | inr (i, e) ↦ elim (Bool-cases (reads_tls_into i base)) [
        | inl reads ↦ (
          offset,
          record {
            later = omega arith;
            near = omega arith;
            within = ground (arith, within);
            source = i;
            found = e;
            reads = reads;
            kept = λ j lo hi. absurd (omega arith);
          },
        )
        | inr other ↦ elim (Bool-cases (integer_instruction_writes_register i base)) [
          | inl w ↦ absurd (cc (rw (within, e, other, w) at h))
          | inr w ↦
              let (k, s) = search_sound rounds (offset + 1) (rw (within, e, other, w) at h) in
              (k, HasSource-earlier offset rounds k i e (passed i base w) s)
        ]
      ]
    ]
  ]

  search_complete :
      (rounds offset k : ℕ)
      → HasSource offset rounds k
      → search_loop instructions index base rounds offset ≡ true
  unfolding search_loop
  search_complete zero offset k s = absurd (omega arith)
  search_complete (suc rounds) offset k s = elim (ℕ_discrete offset k) [
    | yes same ↦
        let e : get_elem? instructions (index - offset) ≡ some s.source = rw same s.found in
        rw (le→ltb index offset (omega (arith, s.within)), e, s.reads)
    | no other ↦
        let (i, e, kept) = s.kept offset (omega arith) (omega (arith, s.later)) in
        let w = passes i base kept in
        let rest =
          search_complete rounds (offset + 1) k (HasSource-later offset rounds k other s) in
        elim (Bool-cases (reads_tls_into i base)) [
          | inl reads ↦ rw (le→ltb index offset (omega (arith, s.within, s.later)), e, reads)
          | inr more ↦ rw (le→ltb index offset (omega (arith, s.within, s.later)), e, more, w) rest
        ]
  ]

  -- For a faulting instruction inside the text and a register other than 31, the search succeeds
  -- exactly when one of the 32 instructions before it is an MRS of TPIDR_EL0 into the register, and
  -- no instruction after that one has the register as the destination and is an ADR, ADRP, ADD or SUB
  -- immediate, logical immediate, move wide, bitfield or extract, or a logical operation without
  -- inversion, ADD or SUB with a shifted register. Other instructions that write the register, such
  -- as loads, do not end the search.
  pub search-HasSource :
      (count : ℕ)
      → index < count
      → base ≢ 31
      → (recent_tpidr_write_matches_base instructions count index base ≡ true)
        ↔ ((k : ℕ) × HasSource 1 search_instructions k)
  unfolding recent_tpidr_write_matches_base
  search-HasSource count h ne = (
    λ e. search_sound search_instructions 1 (ground arith),
    λ (k, s). ground (arith, search_complete search_instructions 1 k s),
  )
