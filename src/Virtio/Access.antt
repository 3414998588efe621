-- ===== src/Virtio/Access.antt =====
-- `orlix_virtio_mmio_read32`, `..._write32`, and the narrower accesses that go through them.
use orlix_system.Prelude.{
  ℕ, ◌-◌, ◌*◌, ◌/◌, ◌%◌, ◌^◌, Bool, true, false, Option, none, some, bit_and, bit_or, u8, u16, u32,
  set,
}
use orlix_system.Virtio.Device.{Host, Machine, find_slot}
use orlix_system.Virtio.Registers.{register_at, read_register}
use orlix_system.Virtio.Control.{write_register}

module _ {W : Type 0} (host : Host W) where
  -- `none` is a return of false: no slot has the address.
  unfoldable pub read32 : ℕ → Machine W → Option ℕ
  read32 address m = elim (find_slot m.slots address) [
    | none ↦ none
    | some (i, s, offset) ↦ some (read_register host (register_at offset) m.guest.world s)
  ]

  -- The first result is what the function returns.
  unfoldable pub write32 : ℕ → ℕ → ℕ → Machine W → Option (Bool × Machine W)
  write32 fuel address value m = elim (find_slot m.slots address) [
    | none ↦ some (false, m)
    | some (i, s, offset) ↦
        elim (write_register host fuel (register_at offset) value
          (record { slot = s; guest = m.guest })) [
            | none ↦ none
            | some d ↦ some (true, record { slots = set m.slots i d.slot; guest = d.guest })
          ]
  ]

  -- `physical_address & ~0x3UL`
  abbrev pub aligned : ℕ → ℕ
  aligned address = address - address % 4

  unfoldable pub read8 : ℕ → Machine W → Option ℕ
  read8 address m = elim (read32 (aligned address) m) [
    | none ↦ none
    | some word ↦ some (u8 (word / 2 ^ (address % 4 * 8)))
  ]

  -- `physical_address & 0x2UL`, as a shift.
  abbrev half_shift : ℕ → ℕ
  half_shift address = address % 4 / 2 * 16

  unfoldable pub read16 : ℕ → Machine W → Option ℕ
  read16 address m = elim (read32 (aligned address) m) [
    | none ↦ none
    | some word ↦ some (u16 (word / 2 ^ half_shift address))
  ]

  -- `word &= ~(mask << shift); word |= (u32)value << shift`
  unfoldable pub merge : ℕ → ℕ → ℕ → ℕ → ℕ
  merge mask shift word value =
      bit_or (bit_and word (0xffffffff - u32 (mask * 2 ^ shift))) (u32 (value * 2 ^ shift))

  unfoldable pub write8 : ℕ → ℕ → ℕ → Machine W → Option (Bool × Machine W)
  write8 fuel address value m = elim (read32 (aligned address) m) [
    | none ↦ some (false, m)
    | some word ↦ write32 fuel (aligned address) (merge 0xff (address % 4 * 8) word value) m
  ]

  unfoldable pub write16 : ℕ → ℕ → ℕ → Machine W → Option (Bool × Machine W)
  write16 fuel address value m = elim (read32 (aligned address) m) [
    | none ↦ some (false, m)
    | some word ↦ write32 fuel (aligned address) (merge 0xffff (half_shift address) word value) m
  ]
