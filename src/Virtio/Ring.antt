-- ===== src/Virtio/Ring.antt =====
-- `orlix_virtio_mmio_push_used`, and the loop over the available ring that the four
-- `..._process_..._queue` functions of mmio.c share.
pub mod Push
pub mod Drain
pub mod Heads
use orlix_system.Prelude.{
  ℕ, zero, suc, ◌+◌, ◌*◌, ◌%◌, ◌==◌, Bool, true, false, ◌||◌, Option, none, some, ltb, bit_or, u16,
  if◌then◌else◌, get_elem?,
}
use orlix_system.Memory.{Memory, load, store}
use orlix_system.Virtio.Layout.{
  ring_header, ring_idx, avail_entry, used_entry, int_vring, queue_size, desc_bytes,
}
use orlix_system.Virtio.Device.{Host, Guest, Device, Queue, put_queue}
use orlix_system.Virtio.Chain.{guest_ptr}

-- What a queue does with the chain at `head`: false if the loop is to stop before the chain is
-- returned to the driver, the count of bytes written, and the guest.
abbrev pub Handler : Type 0 → Type 0
Handler W = ℕ → Guest W → Bool × ℕ × Guest W

-- The four stores of `push_used` into the used ring at `used`, of `num` entries.
unfoldable pub append_used : ℕ → ℕ → ℕ → ℕ → Memory → Memory
append_used used num head written m =
    let used_index = load 2 m (ring_idx used) in
    let entry = used_entry used (used_index % num) in
    let with_id = store 4 m entry head in
    let with_len = store 4 with_id (entry + 4) written in
    store 2 with_len (ring_idx used) (u16 (used_index + 1))

module _ {W : Type 0} (host : Host W) where
  unfoldable pub push_used : Queue → ℕ → ℕ → Device W → Device W
  unfolding guest_ptr append_used
  push_used q head written d = elim (guest_ptr q.used ring_header) [
    | none ↦ d
    | some used ↦ record {
      slot = record (d.slot) { interrupt_status = bit_or d.slot.interrupt_status int_vring };
      guest = record {
        mem = append_used used q.num head written d.guest.mem;
        world = host.irq_dispatch d.guest.world d.slot.irq;
      };
    }
  ]

  -- One round of the loop: the head from the ring, the handler, `push_used`, `last_avail++`.
  unfoldable pub serve : Handler W → ℕ → ℕ → Queue → Device W → Bool × Device W
  unfolding push_used
  serve handle avail i q d =
      let head = load 2 d.guest.mem (avail_entry avail (q.last_avail % q.num)) in
      let (go, written, g) = handle head d.guest in
      let d' = push_used q head written (record d { guest = g }) in
      if go
      then (
        true,
        record d' { slot = put_queue d'.slot i (record q { last_avail = u16 (q.last_avail + 1) }) },
      )
      else (false, record d { guest = g })

  -- The `while` loop over queue `i`, whose available ring is at `avail`, with fuel. `none` means
  -- that the fuel ran out.
  unfoldable pub drain : Handler W → ℕ → ℕ → ℕ → Device W → Option (Device W)
  drain handle avail i zero d = none
  drain handle avail i (suc fuel) d = elim (get_elem? d.slot.queues i) [
    | none ↦ some d
    | some q ↦
        if q.last_avail == load 2 d.guest.mem (ring_idx avail)
        then some d
        else let (go, d') = serve handle avail i q d in
          elim go [ true ↦ drain handle avail i fuel d' | false ↦ some d' ]
  ]

-- The checks before the loop: the queue, and the addresses of its table and available ring.
unfoldable pub open_queue : Queue → Option (ℕ × ℕ)
unfolding guest_ptr
open_queue q =
    if q.ready == 0 || q.num == 0 || ltb queue_size q.num
    then none
    else elim (guest_ptr q.desc (desc_bytes * q.num)) [
      | none ↦ none
      | some desc ↦ elim (guest_ptr q.avail ring_header) [
        | none ↦ none
        | some avail ↦ some (desc, avail)
      ]
    ]
