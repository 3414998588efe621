-- ===== src/Virtio/Registers.antt =====
-- The registers of a slot's window, and what `orlix_virtio_mmio_read32` returns for each.
use orlix_system.Prelude.{
  ℕ, ◌+◌, ◌*◌, ◌/◌, ◌^◌, ◌==◌, Option, none, some, ltb, List, [], ◌∷◌, u32, if◌then◌else◌,
}
use orlix_system.Virtio.Layout.{queue_size}
use orlix_system.Virtio.Device.{Host, Slot, Queue, selected_queue}
use orlix_system.Virtio.Chain.{block_capacity, device_present, device_features as offered_features}

-- The case labels of the two `switch` statements; `other` is `default`.
pub data Register : Type 0 where
  magic_value version device_id vendor_id : Register
  device_features device_features_sel driver_features driver_features_sel : Register
  queue_sel queue_num_max queue_num queue_ready queue_notify : Register
  interrupt_status interrupt_ack status : Register
  queue_desc_low queue_desc_high queue_avail_low queue_avail_high : Register
  queue_used_low queue_used_high : Register
  shm_sel shm_len_low shm_len_high shm_base_low shm_base_high : Register
  config_generation capacity_low capacity_high : Register
  other : Register

-- The offsets of virtio_mmio.h; `capacity` is the first field of `struct virtio_blk_config`.
abbrev register_table : List (ℕ × Register)
register_table =
    (0x000, Register.magic_value)
    ∷ (0x004, Register.version)
    ∷ (0x008, Register.device_id)
    ∷ (0x00c, Register.vendor_id)
    ∷ (0x010, Register.device_features)
    ∷ (0x014, Register.device_features_sel)
    ∷ (0x020, Register.driver_features)
    ∷ (0x024, Register.driver_features_sel)
    ∷ (0x030, Register.queue_sel)
    ∷ (0x034, Register.queue_num_max)
    ∷ (0x038, Register.queue_num)
    ∷ (0x044, Register.queue_ready)
    ∷ (0x050, Register.queue_notify)
    ∷ (0x060, Register.interrupt_status)
    ∷ (0x064, Register.interrupt_ack)
    ∷ (0x070, Register.status)
    ∷ (0x080, Register.queue_desc_low)
    ∷ (0x084, Register.queue_desc_high)
    ∷ (0x090, Register.queue_avail_low)
    ∷ (0x094, Register.queue_avail_high)
    ∷ (0x0a0, Register.queue_used_low)
    ∷ (0x0a4, Register.queue_used_high)
    ∷ (0x0ac, Register.shm_sel)
    ∷ (0x0b0, Register.shm_len_low)
    ∷ (0x0b4, Register.shm_len_high)
    ∷ (0x0b8, Register.shm_base_low)
    ∷ (0x0bc, Register.shm_base_high)
    ∷ (0x0fc, Register.config_generation)
    ∷ (0x100, Register.capacity_low)
    ∷ (0x104, Register.capacity_high)
    ∷ []

find_register : List (ℕ × Register) → ℕ → Register
find_register [] offset = Register.other
find_register ((o, r) ∷ rest) offset = if offset == o then r else find_register rest offset

unfoldable pub register_at : ℕ → Register
unfolding find_register
register_at offset = find_register register_table offset

-- A field of the selected queue, or 0 where no queue is selected.
abbrev from_queue : Option Queue → (Queue → ℕ) → ℕ
from_queue none f = 0
from_queue (some q) f = f q

abbrev sectors_or_zero : Option ℕ → ℕ
sectors_or_zero none = 0
sectors_or_zero (some sectors) = sectors

module _ {W : Type 0} (host : Host W) where
  -- The `switch` of `read32`.
  unfoldable pub read_register : Register → W → Slot → ℕ
  read_register Register.magic_value w s = b'v' + b'i' * 2 ^ 8 + b'r' * 2 ^ 16 + b't' * 2 ^ 24
  read_register Register.version w s = 2
  read_register Register.device_id w s = if device_present host w s then s.device_id else 0
  read_register Register.vendor_id w s = 0x4f524c58
  read_register Register.device_features w s =
      if ltb s.device_features_sel 2
      then u32 (offered_features host w s / 2 ^ (s.device_features_sel * 32))
      else 0
  read_register Register.queue_num_max w s = from_queue (selected_queue s) (λ q. queue_size)
  read_register Register.queue_num w s = from_queue (selected_queue s) (λ q. q.num)
  read_register Register.queue_ready w s = from_queue (selected_queue s) (λ q. q.ready)
  read_register Register.interrupt_status w s = s.interrupt_status
  read_register Register.status w s = s.status
  read_register Register.queue_desc_low w s = from_queue (selected_queue s) (λ q. u32 q.desc)
  read_register Register.queue_desc_high w s =
      from_queue (selected_queue s) (λ q. u32 (q.desc / 2 ^ 32))
  read_register Register.queue_avail_low w s = from_queue (selected_queue s) (λ q. u32 q.avail)
  read_register Register.queue_avail_high w s =
      from_queue (selected_queue s) (λ q. u32 (q.avail / 2 ^ 32))
  read_register Register.queue_used_low w s = from_queue (selected_queue s) (λ q. u32 q.used)
  read_register Register.queue_used_high w s =
      from_queue (selected_queue s) (λ q. u32 (q.used / 2 ^ 32))
  read_register Register.capacity_low w s = u32 (sectors_or_zero (block_capacity host w s))
  read_register Register.capacity_high w s =
      u32 (sectors_or_zero (block_capacity host w s) / 2 ^ 32)
  read_register Register.shm_len_low w s = 0xffffffff
  read_register Register.shm_len_high w s = 0xffffffff
  read_register _ w s = 0
