-- ===== src/Virtio/Control.antt =====
-- What `orlix_virtio_mmio_write32` does for each register.
pub mod Addresses
pub mod Fields
pub mod Valid
pub mod Reset
use mathlib.Core.Option
use orlix_system.Prelude.{
  ℕ, ◌-◌, ◌*◌, ◌^◌, ◌==◌, false, Option, none, some, ltb, List, [], ◌∷◌, bit_and, bit_or, u64,
  if◌then◌else◌, length, set,
}
use orlix_system.Virtio.Layout.{id_console}
use orlix_system.Virtio.Device.{Host, Device, Slot, Queue, zero_queue, selected_queue, put_queue}
use orlix_system.Virtio.Service.{start_console_input_timer, schedule_queue}
use orlix_system.Virtio.Registers.{Register}

-- `queue->desc = (queue->desc & 0xffffffff00000000ULL) | value` and its like.
abbrev pub set_low : ℕ → ℕ → ℕ
set_low address value = bit_or (bit_and address 0xffffffff00000000) value

abbrev pub set_high : ℕ → ℕ → ℕ
set_high address value = bit_or (u64 (value * 2 ^ 32)) (bit_and address 0xffffffff)

-- A write to a field of the selected queue, where there is one.
abbrev pub update_queue : Slot → (Queue → Queue) → Slot
update_queue s f = elim (selected_queue s) [ none ↦ s | some q ↦ put_queue s s.queue_sel (f q) ]

-- A store into an array; outside of the array it is none, since C says nothing of it.
abbrev pub store_at : List ℕ → ℕ → ℕ → Option (List ℕ)
store_at array i value = if ltb i (length array) then some (set array i value) else none

module _ {W : Type 0} (host : Host W) where
  -- `case VIRTIO_MMIO_QUEUE_READY`: a queue that stops being ready starts over, and the console's
  -- input queue starts the timer.
  unfoldable pub write_queue_ready : ℕ → Device W → Device W
  write_queue_ready value d = elim (selected_queue d.slot) [
    | none ↦ d
    | some q ↦
        if value == 0
        then record d {
          slot = put_queue d.slot d.slot.queue_sel (record q { ready = 0; last_avail = 0 });
        }
        else let d' = record d {
          slot = put_queue d.slot d.slot.queue_sel (record q { ready = 1 });
        } in
          if d.slot.device_id == id_console
          then if d.slot.queue_sel == 0 then start_console_input_timer host d' else d'
          else d'
  ]

  -- `case VIRTIO_MMIO_STATUS`: a write of 0 resets the device, its work included.
  unfoldable pub write_status : ℕ → Slot → Slot
  write_status value s =
      let reset = record s {
        notify_work_queued = if s.notify_work_initialized then false else s.notify_work_queued;
        pending_queues = 0;
        queues = zero_queue ∷ zero_queue ∷ [];
        driver_features = 0 ∷ 0 ∷ [];
        interrupt_status = 0;
      } in
      let s' = if value == 0 then reset else s in record s' { status = bit_and value 0xff }

  -- The `switch` of `write32`. `none` means that the fuel of a queue's loop ran out, or that a store
  -- is outside of its array.
  unfoldable pub write_register : ℕ → Register → ℕ → Device W → Option (Device W)
  write_register fuel Register.device_features_sel value d =
      some (record d { slot = record (d.slot) { device_features_sel = value } })
  write_register fuel Register.driver_features value d =
      if ltb d.slot.driver_features_sel (length d.slot.driver_features)
      then Option.map
          (λ features. record d { slot = record (d.slot) { driver_features = features } })
          (store_at d.slot.driver_features d.slot.driver_features_sel value)
      else some d
  write_register fuel Register.driver_features_sel value d =
      some (record d { slot = record (d.slot) { driver_features_sel = value } })
  write_register fuel Register.queue_sel value d =
      some (record d { slot = record (d.slot) { queue_sel = value } })
  write_register fuel Register.queue_num value d =
      some (record d { slot = update_queue d.slot (λ q. record q { num = value }) })
  write_register fuel Register.queue_ready value d = some (write_queue_ready value d)
  write_register fuel Register.queue_notify value d = schedule_queue host fuel value d
  write_register fuel Register.queue_desc_low value d =
      some (record d { slot = update_queue d.slot (λ q. record q { desc = set_low q.desc value }) })
  write_register fuel Register.queue_desc_high value d =
      some
        (record d { slot = update_queue d.slot (λ q. record q { desc = set_high q.desc value }) })
  write_register fuel Register.queue_avail_low value d =
      some
        (record d { slot = update_queue d.slot (λ q. record q { avail = set_low q.avail value }) })
  write_register fuel Register.queue_avail_high value d =
      some
        (record d { slot = update_queue d.slot (λ q. record q { avail = set_high q.avail value }) })
  write_register fuel Register.queue_used_low value d =
      some (record d { slot = update_queue d.slot (λ q. record q { used = set_low q.used value }) })
  write_register fuel Register.queue_used_high value d =
      some
        (record d { slot = update_queue d.slot (λ q. record q { used = set_high q.used value }) })
  write_register fuel Register.shm_sel value d =
      some (record d { slot = record (d.slot) { shm_sel = value } })
  write_register fuel Register.interrupt_ack value d = some (record d {
    slot = record (d.slot) {
      interrupt_status = bit_and d.slot.interrupt_status (0xffffffff - value);
    };
  })
  write_register fuel Register.status value d = some (record d { slot = write_status value d.slot })
  write_register fuel _ value d = some d
