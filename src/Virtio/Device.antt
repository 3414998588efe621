-- ===== src/Virtio/Device.antt =====
-- The state of mmio.c: `struct orlix_virtio_mmio_queue`, `struct orlix_virtio_mmio_slot`, and what
-- a slot's handlers work on.
use orlix_system.Prelude.{
  ℕ, ◌+◌, ◌-◌, ◌≤◌, Bool, true, false, ◌&&◌, Option, none, some, List, [], ◌∷◌, ltb, leb,
  if◌then◌else◌, get_elem?, set, length,
}
use orlix_system.Memory.{Memory}
use orlix_system.Virtio.Layout.{id_block, id_console, id_rng, slot_size, queue_count}

pub record Queue : Type 0 where
  pub num : ℕ
  pub ready : ℕ
  pub desc : ℕ
  pub avail : ℕ
  pub used : ℕ
  pub last_avail : ℕ

abbrev pub zero_queue : Queue
zero_queue = record { num = 0; ready = 0; desc = 0; avail = 0; used = 0; last_avail = 0 }

-- `notify_work_queued` says that `schedule_work` was called and the work has not started;
-- `console_input_timer` is the expiry given to `mod_timer`, while it is pending.
pub record Slot : Type 0 where
  pub base : ℕ
  pub irq : ℕ
  pub device_id : ℕ
  pub host_block_device : ℕ
  pub read_only : Bool
  pub device_identifier : List ℕ
  pub status : ℕ
  pub interrupt_status : ℕ
  pub device_features_sel : ℕ
  pub driver_features_sel : ℕ
  pub driver_features : List ℕ
  pub queue_sel : ℕ
  pub shm_sel : ℕ
  pub queues : List Queue
  pub notify_work_queued : Bool
  pub pending_queues : ℕ
  pub notify_work_initialized : Bool
  pub console_input_timer : Option ℕ
  pub console_input_timer_initialized : Bool

-- What mmio.c calls and does not define: the host's block files, console and entropy
-- (orlix_host_block_*, orlix_host_console_*, orlix_host_entropy_read), the interrupt line, and of
-- Linux `strscpy` and `jiffies + msecs_to_jiffies(ms)`. `W` is their state. A read returns the
-- bytes that it puts at the start of the buffer.
pub record Host (W : Type 0) : Type 0 where
  pub block_capacity : W → ℕ → Option ℕ
  pub block_read : W → ℕ → ℕ → ℕ → Bool × List ℕ × W
  pub block_write : W → ℕ → ℕ → List ℕ → Bool × W
  pub block_flush : W → ℕ → Bool × W
  pub console_read_input : W → ℕ → List ℕ × W
  pub console_write : W → List ℕ → W
  pub entropy_read : W → ℕ → List ℕ × W
  pub irq_dispatch : W → ℕ → W
  pub strscpy : List ℕ → ℕ → List ℕ
  pub jiffies_after : W → ℕ → ℕ

-- No host function writes past the buffer that it is given.
pub record WithinBuffer {W : Type 0} (host : Host W) : Type 0 where
  pub block_read_within :
      (w : W) (device sector n : ℕ) → length (host.block_read w device sector n).1 ≤ n
  pub console_read_within : (w : W) (n : ℕ) → length (host.console_read_input w n).0 ≤ n
  pub entropy_read_within : (w : W) (n : ℕ) → length (host.entropy_read w n).0 ≤ n
  pub strscpy_within : (s : List ℕ) (n : ℕ) → length (host.strscpy s n) ≤ n

pub record Guest (W : Type 0) : Type 0 where
  pub mem : Memory
  pub world : W

pub record Device (W : Type 0) : Type 0 where
  pub slot : Slot
  pub guest : Guest W

pub record Machine (W : Type 0) : Type 0 where
  pub slots : List Slot
  pub guest : Guest W

abbrev new_slot : ℕ → ℕ → ℕ → ℕ → Bool → List ℕ → Slot
new_slot base irq device_id block read_only name = record {
  base = base;
  irq = irq;
  device_id = device_id;
  host_block_device = block;
  read_only = read_only;
  device_identifier = name;
  status = 0;
  interrupt_status = 0;
  device_features_sel = 0;
  driver_features_sel = 0;
  driver_features = 0 ∷ 0 ∷ [];
  queue_sel = 0;
  shm_sel = 0;
  queues = zero_queue ∷ zero_queue ∷ [];
  notify_work_queued = false;
  pending_queues = 0;
  notify_work_initialized = false;
  console_input_timer = none;
  console_input_timer_initialized = false;
}

-- "orlix-base-block0", "orlix-state-block1", "orlix-console0" and "orlix-rng0"
abbrev base_block_name : List ℕ
base_block_name =
    b'o' ∷ b'r' ∷ b'l' ∷ b'i' ∷ b'x' ∷ b'-' ∷ b'b' ∷ b'a' ∷ b's' ∷ b'e' ∷ b'-' ∷ b'b' ∷ b'l' ∷ b'o'
    ∷ b'c' ∷ b'k' ∷ b'0' ∷ []

abbrev state_block_name : List ℕ
state_block_name =
    b'o' ∷ b'r' ∷ b'l' ∷ b'i' ∷ b'x' ∷ b'-' ∷ b's' ∷ b't' ∷ b'a' ∷ b't' ∷ b'e' ∷ b'-' ∷ b'b' ∷ b'l'
    ∷ b'o' ∷ b'c' ∷ b'k' ∷ b'1' ∷ []

abbrev console_name : List ℕ
console_name =
    b'o' ∷ b'r' ∷ b'l' ∷ b'i' ∷ b'x' ∷ b'-' ∷ b'c' ∷ b'o' ∷ b'n' ∷ b's' ∷ b'o' ∷ b'l' ∷ b'e' ∷ b'0'
    ∷ []

abbrev rng_name : List ℕ
rng_name = b'o' ∷ b'r' ∷ b'l' ∷ b'i' ∷ b'x' ∷ b'-' ∷ b'r' ∷ b'n' ∷ b'g' ∷ b'0' ∷ []

-- `orlix_virtio_mmio_slots` at boot.
abbrev pub boot_slots : List Slot
boot_slots =
    new_slot 0x10001000 32 id_block 0 true base_block_name
    ∷ new_slot 0x10001200 33 id_block 1 false state_block_name
    ∷ new_slot 0x10001400 34 id_console 0 false console_name
    ∷ new_slot 0x10001600 35 id_rng 0 false rng_name
    ∷ []

-- The loop of `find_slot` over the slots from index `i` on: the index of the slot and the offset
-- of the register.
unfoldable pub find_from : List Slot → ℕ → ℕ → Option (ℕ × Slot × ℕ)
find_from [] i address = none
find_from (s ∷ slots) i address =
    if leb s.base address && ltb address (s.base + slot_size)
    then some (i, s, address - s.base)
    else find_from slots (i + 1) address

unfoldable pub find_slot : List Slot → ℕ → Option (ℕ × Slot × ℕ)
unfolding find_from
find_slot slots address = find_from slots 0 address

unfoldable pub selected_queue : Slot → Option Queue
selected_queue s = if leb queue_count s.queue_sel then none else get_elem? s.queues s.queue_sel

-- A write through the pointer to queue `i`.
abbrev pub put_queue : Slot → ℕ → Queue → Slot
put_queue s i q = record s { queues = set s.queues i q }
