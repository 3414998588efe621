-- ===== src/Virtio/Chain.antt =====
-- `orlix_virtio_mmio_guest_ptr`, `orlix_virtio_mmio_resolve_desc_chain`, and the properties of the
-- device that depend on the host.
pub mod Resolve
use orlix_system.Prelude.{
  ℕ, ◌+◌, ◌-◌, ◌/◌, ◌%◌, ◌^◌, Bool, true, false, ◌||◌, not, Option, none, some, ltb, leb, ◌==◌,
  if◌then◌else◌, bit_and,
}
use orlix_system.Memory.{Memory}
use orlix_system.Virtio.Layout.{
  has, f_indirect, desc_bytes, desc_addr, desc_len, desc_flags, id_block, id_console, id_rng,
}
use orlix_system.Virtio.Device.{Host, Slot}

abbrev pub ulong_max : ℕ
ulong_max = 2 ^ 64 - 1

-- The guest address, if `length` bytes from it do not run over the end of the address space.
unfoldable pub guest_ptr : ℕ → ℕ → Option ℕ
guest_ptr address length =
    if address == 0 || ltb ulong_max address || ltb (ulong_max - address) length
    then none
    else some address

pub record DescChain : Type 0 where
  pub desc : ℕ
  pub head : ℕ
  pub count : ℕ

indirect_chain : Memory → ℕ → ℕ → Option DescChain
unfolding guest_ptr
indirect_chain m queue_desc head =
    let length = desc_len m queue_desc head in
    if length == 0 || not (length % desc_bytes == 0)
    then none
    else elim (guest_ptr (desc_addr m queue_desc head) length) [
      | none ↦ none
      | some indirect ↦
          if ltb 0 (length / desc_bytes)
          then some (record { desc = indirect; head = 0; count = length / desc_bytes })
          else none
    ]

unfoldable pub resolve_desc_chain : Memory → ℕ → ℕ → ℕ → Option DescChain
unfolding indirect_chain
resolve_desc_chain m queue_desc queue_num head =
    if leb queue_num head
    then none
    else if not (has (desc_flags m queue_desc head) f_indirect)
    then some (record { desc = queue_desc; head = head; count = queue_num })
    else indirect_chain m queue_desc head

-- `type & ~VIRTIO_BLK_T_BARRIER`
unfoldable pub block_command : ℕ → ℕ
block_command type = bit_and type 0x7fffffff

module _ {W : Type 0} (host : Host W) where
  unfoldable pub block_capacity : W → Slot → Option ℕ
  block_capacity w s =
      if s.device_id == id_block then host.block_capacity w s.host_block_device else none

  unfoldable pub device_present : W → Slot → Bool
  unfolding block_capacity
  device_present w s =
      if s.device_id == id_block
      then elim (block_capacity w s) [ none ↦ false | some sectors ↦ true ]
      else s.device_id == id_console || s.device_id == id_rng

  -- VIRTIO_F_VERSION_1 is bit 32, VIRTIO_RING_F_INDIRECT_DESC 28, VIRTIO_BLK_F_FLUSH 9 and
  -- VIRTIO_BLK_F_RO 5; they are distinct, so that `|` is a sum.
  unfoldable pub device_features : W → Slot → ℕ
  unfolding block_capacity
  device_features w s =
      if s.device_id == id_block
      then elim (block_capacity w s) [
        | none ↦ 0
        | some sectors ↦ 2 ^ 32 + 2 ^ 28 + 2 ^ 9 + (if s.read_only then 2 ^ 5 else 0)
      ]
      else if s.device_id == id_console
      then 2 ^ 32
      else if s.device_id == id_rng
      then 2 ^ 32
      else 0
