-- ===== src/Virtio/Service.antt =====
-- The queues of each device: `orlix_virtio_mmio_process_queue`, the console timer, and the work
-- item that serves a block device (`orlix_virtio_mmio_notify_work`, `..._schedule_queue`).
pub mod Output
use mathlib.Core.Option
use orlix_system.Prelude.{
  ℕ, zero, suc, ◌^◌, ◌==◌, true, false, Option, none, some, leb, bit_or, if◌then◌else◌, get_elem?,
}
use orlix_system.Virtio.Layout.{has, queue_count, id_block, id_console, id_rng, s_ok, poll_ms}
use orlix_system.Virtio.Device.{Host, Device, Slot, Queue}
use orlix_system.Virtio.Block.{process_block_request}
use orlix_system.Virtio.Stream.{
  process_console_input_desc, process_console_output_desc, process_rng_desc,
}
use orlix_system.Virtio.Ring.{Handler, drain, open_queue}

module _ {W : Type 0} (host : Host W) where
  -- The bodies of the four loops, for the table at `desc`.
  unfoldable pub handle_console_input : ℕ → Handler W
  handle_console_input desc head g = process_console_input_desc host desc head g

  unfoldable pub handle_console_output : ℕ → Handler W
  handle_console_output desc head g =
      let (written, g') = process_console_output_desc host desc head g in (true, written, g')

  unfoldable pub handle_rng : ℕ → Handler W
  handle_rng desc head g =
      let (written, g') = process_rng_desc host desc head g in (true, written, g')

  -- A request that fails counts one byte.
  unfoldable pub handle_block : Slot → ℕ → ℕ → Handler W
  handle_block slot num desc head g =
      let (result, written, g') = process_block_request host slot desc head num g in
      (true, (if result == s_ok then written else 1), g')

  -- The frame that the four functions share: the checks, then the loop.
  unfoldable pub run_queue : (Queue → ℕ → Handler W) → ℕ → ℕ → Device W → Option (Device W)
  run_queue handle fuel i d = elim (get_elem? d.slot.queues i) [
    | none ↦ some d
    | some q ↦ elim (open_queue q) [
      | none ↦ some d
      | some (desc, avail) ↦ drain host (handle q desc) avail i fuel d
    ]
  ]

  unfoldable pub process_console_input_queue : ℕ → Device W → Option (Device W)
  process_console_input_queue fuel d = run_queue (λ q. handle_console_input) fuel 0 d

  unfoldable pub process_console_output_queue : ℕ → ℕ → Device W → Option (Device W)
  process_console_output_queue fuel i d =
      if leb queue_count i then some d else run_queue (λ q. handle_console_output) fuel i d

  unfoldable pub process_rng_queue : ℕ → ℕ → Device W → Option (Device W)
  process_rng_queue fuel i d = if i == 0 then run_queue (λ q. handle_rng) fuel i d else some d

  -- `timer_setup` when it was not done, and `mod_timer` ten milliseconds from now.
  unfoldable pub start_console_input_timer : Device W → Device W
  start_console_input_timer d =
      if d.slot.device_id == id_console
      then record d {
        slot = record (d.slot) {
          console_input_timer_initialized = true;
          console_input_timer = some (host.jiffies_after d.guest.world poll_ms);
        };
      }
      else d

  -- The timer's function: it serves the queue, and asks for another call while the queue is ready.
  -- The timer is not pending while it runs.
  unfoldable pub console_input_timer : ℕ → Device W → Option (Device W)
  console_input_timer fuel d =
      let fired = record d { slot = record (d.slot) { console_input_timer = none } } in
      elim (process_console_input_queue fuel fired) [
        | none ↦ none
        | some d' ↦ elim (get_elem? d'.slot.queues 0) [
          | none ↦ some d'
          | some q ↦
              if q.ready == 0
              then some d'
              else some (record d' {
                slot = record (d'.slot) {
                  console_input_timer = some (host.jiffies_after d'.guest.world poll_ms);
                };
              })
        ]
      ]

  unfoldable pub process_console_queue : ℕ → ℕ → Device W → Option (Device W)
  process_console_queue fuel i d =
      if i == 0
      then Option.map start_console_input_timer (process_console_input_queue fuel d)
      else if i == 1
      then process_console_output_queue fuel i d
      else some d

  unfoldable pub process_queue : ℕ → ℕ → Device W → Option (Device W)
  unfolding process_console_queue
  process_queue fuel i d =
      if leb queue_count i
      then some d
      else if d.slot.device_id == id_console
      then process_console_queue fuel i d
      else if d.slot.device_id == id_rng
      then process_rng_queue fuel i d
      else run_queue (λ q. handle_block d.slot q.num) fuel i d

  -- `if (pending & BIT(i)) process_queue(slot, i)`
  unfoldable pub process_pending : ℕ → ℕ → ℕ → Device W → Option (Device W)
  process_pending fuel pending i d = if has pending (2 ^ i) then process_queue fuel i d else some d

  -- One round of the `do … while`: it takes the pending bits and serves queues 0 and 1.
  unfoldable pub notify_round : ℕ → Device W → Option (Device W)
  notify_round fuel d =
      let pending = d.slot.pending_queues in
      let taken = record d { slot = record (d.slot) { pending_queues = 0 } } in
      elim (process_pending fuel pending 0 taken) [
        | none ↦ none
        | some d' ↦ process_pending fuel pending 1 d'
      ]

  unfoldable pub notify_rounds : ℕ → ℕ → Device W → Option (Device W)
  notify_rounds zero fuel d = none
  notify_rounds (suc rounds) fuel d = elim (notify_round fuel d) [
    | none ↦ none
    | some d' ↦
        let rest = notify_rounds rounds fuel d' in
        if d'.slot.pending_queues == 0 then some d' else rest
  ]

  -- The work function. `fuel` bounds its rounds and each queue's; the work leaves the work queue
  -- when it starts.
  unfoldable pub notify_work : ℕ → Device W → Option (Device W)
  notify_work fuel d =
      notify_rounds fuel fuel (record d { slot = record (d.slot) { notify_work_queued = false } })

  unfoldable pub schedule_queue : ℕ → ℕ → Device W → Option (Device W)
  schedule_queue fuel i d =
      if leb queue_count i
      then some d
      else if d.slot.device_id == id_block
      then some (record d {
        slot = record (d.slot) {
          notify_work_initialized = true;
          pending_queues = bit_or d.slot.pending_queues (2 ^ i);
          notify_work_queued = true;
        };
      })
      else process_queue fuel i d
