-- ===== src/TrapDecode/Classes.antt =====
-- The instructions that the search takes for writes of a register, by the fields of their encoding.
use native.Mathlib.Nat.{mod-lt, div-add-mod, mul_comm}
use orlix_system.Prelude.{
  ℕ, ◌+◌, ◌*◌, sym, ◌/◌, ◌%◌, ◌^◌, ◌<◌, ◌≡◌, ◌≢◌, ◌⊎◌, ◌↔◌, ap, ◌∙◌, true, arith, bit_and,
}
use orlix_system.Prelude.Bits.{bit_and-low, bit_and-zero}
use orlix_system.Prelude.Bits.Masks.{bit_and-join}
use orlix_system.TrapDecode.{integer_class, integer_instruction_writes_register}

-- Bits 24 to 28, and bits 23 to 28, of an instruction, and bit 21.
abbrev pub major : ℕ → ℕ
major i = i / 2 ^ 24 % 32

abbrev pub minor : ℕ → ℕ
minor i = i / 2 ^ 23 % 64

abbrev pub bit_21 : ℕ → ℕ
bit_21 i = i / 2 ^ 21 % 2

-- ADR and ADRP; ADD and SUB immediate; logical immediate, move wide, bitfield and extract; logical
-- with a shifted register that is not inverted; ADD and SUB with a shifted register.
abbrev pub IsInteger : ℕ → Type 0
IsInteger i =
    (major i ≡ 16)
    ⊎ (major i ≡ 17)
    ⊎ (minor i ≡ 36)
    ⊎ (minor i ≡ 37)
    ⊎ (minor i ≡ 38)
    ⊎ (minor i ≡ 39)
    ⊎ ((major i ≡ 10) × (bit_21 i ≡ 0))
    ⊎ ((major i ≡ 11) × (bit_21 i ≡ 0))

-- The instruction is of such a class, and its destination is register `r`, which is not 31.
abbrev pub Overwrites : ℕ → ℕ → Type 0
Overwrites i r = (r ≢ 31) × (i % 32 ≡ r) × IsInteger i

-- A mask with no bit below `k`.
field : (k m i : ℕ) → 0 < 2 ^ k → bit_and i (m * 2 ^ k + 0) ≡ bit_and (i / 2 ^ k) m * 2 ^ k
field k m i h =
    ap (λ (t : ℕ). bit_and t (m * 2 ^ k + 0))
      (sym (div-add-mod i (2 ^ k)) ∙ omega (arith, mul_comm (2 ^ k) (i / 2 ^ k)))
    ∙ bit_and-join k (i / 2 ^ k) (i % 2 ^ k) m 0 (mod-lt i h) h
    ∙ omega (arith, bit_and-zero (i % 2 ^ k))

major_bits : (i : ℕ) → bit_and i 0x1f000000 ≡ major i * 2 ^ 24
major_bits i = field 24 31 i (omega arith) ∙ ap (λ (t : ℕ). t * 2 ^ 24) (bit_and-low 5 (i / 2 ^ 24))

minor_bits : (i : ℕ) → bit_and i 0x1f800000 ≡ minor i * 2 ^ 23
minor_bits i = field 23 63 i (omega arith) ∙ ap (λ (t : ℕ). t * 2 ^ 23) (bit_and-low 6 (i / 2 ^ 23))

mixed_bits : (i : ℕ) → bit_and i 0x1f200000 ≡ major i * 2 ^ 24 + bit_21 i * 2 ^ 21
mixed_bits i =
    let q = i / 2 ^ 21 in
    let parts : bit_and q 249 ≡ q / 8 % 32 * 8 + q % 2 =
      ap (λ (t : ℕ). bit_and t 249) (omega arith)
      ∙ bit_and-join 3 (q / 8) (q % 8) 31 1 (omega arith) (omega arith)
      ∙ omega (arith, bit_and-low 5 (q / 8), bit_and-low 1 (q % 8)) in
    field 21 249 i (omega arith) ∙ omega (arith, parts)

integer_class_iff : (i : ℕ) → (integer_class i ≡ true) ↔ IsInteger i
unfolding integer_class
integer_class_iff i = ground (arith, major_bits i, minor_bits i, mixed_bits i)

pub writes_register_iff :
    (i r : ℕ) → (integer_instruction_writes_register i r ≡ true) ↔ Overwrites i r
unfolding integer_instruction_writes_register
writes_register_iff i r = ground (arith, integer_class_iff i, bit_and-low 5 i)
