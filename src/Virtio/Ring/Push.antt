-- ===== src/Virtio/Ring/Push.antt =====
-- What `orlix_virtio_mmio_push_used` leaves in the used ring, and what it leaves alone.
use native.Mathlib.Nat.{mod-lt}
use orlix_system.Prelude.{
  ℕ, ◌+◌, ◌*◌, ◌/◌, ◌%◌, ◌^◌, ◌≤◌, ◌<◌, ◌≡◌, refl, ◌⊎◌, inl, inr, some, arith, u16,
}
use orlix_system.Prelude.Bits.{bit_or-one}
use orlix_system.Memory.{Memory, load, store}
use orlix_system.Memory.Frame.{store-outside, load-store, load-store_apart}
use orlix_system.Virtio.Layout.{ring_idx, used_entry}
use orlix_system.Virtio.Device.{Host, Device, Queue}
use orlix_system.Virtio.Chain.{guest_ptr, ulong_max}
use orlix_system.Virtio.Ring.{append_used, push_used}

-- The used ring's header is at an address that `guest_ptr` accepts, and the ring has entries.
pub record HasUsed (q : Queue) : Type 0 where
  pub present : 0 < q.used
  pub fits : q.used + 4 ≤ ulong_max
  pub entries : 0 < q.num

guest_ptr-used : {q : Queue} → HasUsed q → guest_ptr q.used 4 ≡ some q.used
unfolding guest_ptr
guest_ptr-used u = ground arith

-- The index of the used ring, and the entry that the next push fills.
abbrev pub used_idx : Queue → Memory → ℕ
used_idx q m = load 2 m (ring_idx q.used)

abbrev pub next_entry : Queue → Memory → ℕ
next_entry q m = used_entry q.used (used_idx q m % q.num)

-- An entry of the ring lies between the header and the end of the ring.
entry_bounds :
    {q : Queue} (m : Memory)
    → HasUsed q
    → (q.used + 4 ≤ next_entry q m) × (next_entry q m + 8 ≤ q.used + 4 + 8 * q.num)
entry_bounds {q} m u = omega (arith, mod-lt (used_idx q m) u.entries)

module _ (q : Queue) (head written : ℕ) (m : Memory) (u : HasUsed q) where
  abbrev entry : ℕ
  entry = next_entry q m

  abbrev with_id : Memory
  with_id = store 4 m entry head

  abbrev with_len : Memory
  with_len = store 4 with_id (entry + 4) written

  abbrev new_idx : ℕ
  new_idx = u16 (used_idx q m + 1)

  abbrev after : Memory
  after = append_used q.used q.num head written m

  append_used-id : head < 2 ^ 32 → load 4 after (next_entry q m) ≡ head
  unfolding append_used
  append_used-id h = omega (
    arith,
    entry_bounds m u,
    load-store_apart 4 2 with_len (ring_idx q.used) entry new_idx
        (inr (omega (arith, entry_bounds m u))),
    load-store_apart 4 4 with_id (entry + 4) entry written (inl (omega arith)),
    load-store 4 m entry head,
  )

  append_used-len : written < 2 ^ 32 → load 4 after (next_entry q m + 4) ≡ written
  unfolding append_used
  append_used-len h = omega (
    arith,
    load-store_apart 4 2 with_len (ring_idx q.used) (entry + 4) new_idx
        (inr (omega (arith, entry_bounds m u))),
    load-store 4 with_id (entry + 4) written,
  )

  append_used-idx : used_idx q after ≡ u16 (used_idx q m + 1)
  unfolding append_used
  append_used-idx = omega (arith, load-store 2 with_len (ring_idx q.used) new_idx)

  append_used-outside : (a : ℕ) → (a < q.used + 2) ⊎ (q.used + 4 + 8 * q.num ≤ a) → after a ≡ m a
  unfolding append_used
  append_used-outside a h = ground (
    arith,
    entry_bounds m u,
    store-outside 2 with_len (ring_idx q.used) new_idx a,
    store-outside 4 with_id (entry + 4) written a,
    store-outside 4 m entry head a,
  )

module _ {W : Type 0} (host : Host W) (q : Queue) (head written : ℕ) (d : Device W) where
  pub record Pushed (d' : Device W) : Type 0 where
    pub id : load 4 d'.guest.mem (next_entry q d.guest.mem) ≡ head
    pub len : load 4 d'.guest.mem (next_entry q d.guest.mem + 4) ≡ written
    pub idx : used_idx q d'.guest.mem ≡ u16 (used_idx q d.guest.mem + 1)
    pub raised : d'.slot.interrupt_status % 2 ≡ 1
    pub others : d'.slot.interrupt_status / 2 ≡ d.slot.interrupt_status / 2
    pub dispatched : d'.guest.world ≡ host.irq_dispatch d.guest.world d.slot.irq
    pub untouched :
        (a : ℕ) → (a < q.used + 2) ⊎ (q.used + 4 + 8 * q.num ≤ a) → d'.guest.mem a ≡ d.guest.mem a

  -- A push onto a used ring puts the head and the count into the entry at the old index, advances
  -- the index by one modulo 2 ^ 16, sets the ring bit of the interrupt status and no other,
  -- dispatches the slot's interrupt, and writes nothing outside the ring.
  pub push_used-Pushed :
      HasUsed q → head < 2 ^ 32 → written < 2 ^ 32 → Pushed (push_used host q head written d)
  unfolding push_used
  push_used-Pushed u hh hw =
      rw (push_used, guest_ptr-used u)
        (record {
          id = append_used-id q head written d.guest.mem u hh;
          len = append_used-len q head written d.guest.mem u hw;
          idx = append_used-idx q head written d.guest.mem u;
          raised = (bit_or-one d.slot.interrupt_status).0;
          others = (bit_or-one d.slot.interrupt_status).1;
          dispatched = refl;
          untouched = append_used-outside q head written d.guest.mem u;
        })

  pub queues-push_used : (push_used host q head written d).slot.queues ≡ d.slot.queues
  unfolding push_used
  queues-push_used = ground arith
