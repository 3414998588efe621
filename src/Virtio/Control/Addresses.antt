-- ===== src/Virtio/Control/Addresses.antt =====
-- The 64-bit addresses of a queue, written and read through pairs of 32-bit registers.
use orlix_system.Prelude.{
  ℕ, ◌+◌, ◌*◌, ◌/◌, ◌%◌, ◌^◌, ◌<◌, ◌≡◌, refl, ap, ◌∙◌, Option, none, some, arith, bit_and, bit_or,
  get_elem?-set_self,
}
use orlix_system.Prelude.Bits.{bit_or-join, bit_and-low, bit_and-high}
use orlix_system.Virtio.Device.{Host, Device, Slot, Queue, selected_queue, put_queue}
use orlix_system.Virtio.Registers.{Register, read_register}
use orlix_system.Virtio.Control.{set_low, set_high, update_queue, write_register}

high_ones : (q : ℕ) → q < 2 ^ 32 → bit_and q 0xffffffff ≡ q
high_ones q h = omega (arith, bit_and-low 32 q)

pub set_low-eq : (a v : ℕ) → a < 2 ^ 64 → v < 2 ^ 32 → set_low a v ≡ a / 2 ^ 32 * 2 ^ 32 + v
set_low-eq a v ha hv = omega (
  arith,
  ap (λ (t : ℕ). bit_or (bit_and t 0xffffffff00000000) v) whole,
  ap (λ (t : ℕ). bit_or t v) (bit_and-high 32 (a / 2 ^ 32) (a % 2 ^ 32) 0xffffffff (omega arith)),
  ap (λ (t : ℕ). bit_or (t * 2 ^ 32) v) (high_ones (a / 2 ^ 32) (omega arith)),
  bit_or-join 32 (a / 2 ^ 32) v hv,
)
  where
    whole : a ≡ a / 2 ^ 32 * 2 ^ 32 + a % 2 ^ 32
    whole = omega arith

pub set_high-eq : (a v : ℕ) → v < 2 ^ 32 → set_high a v ≡ v * 2 ^ 32 + a % 2 ^ 32
set_high-eq a v hv = ground (arith, bit_and-low 32 a, bit_or-join 32 v (a % 2 ^ 32))

-- The three addresses of a queue, with their registers.
pub data Field : Type 0 where
  desc avail used : Field

abbrev pub low : Field → Register
low desc = Register.queue_desc_low
low avail = Register.queue_avail_low
low used = Register.queue_used_low

abbrev pub high : Field → Register
high desc = Register.queue_desc_high
high avail = Register.queue_avail_high
high used = Register.queue_used_high

abbrev pub address : Field → Queue → ℕ
address desc q = q.desc
address avail q = q.avail
address used q = q.used

abbrev pub with_address : Field → Queue → ℕ → Queue
with_address desc q a = record q { desc = a }
with_address avail q a = record q { avail = a }
with_address used q a = record q { used = a }

pub selected_queue-put :
    (s : Slot) {q : Queue} (q' : Queue)
    → selected_queue s ≡ some q
    → selected_queue (put_queue s s.queue_sel q') ≡ some q'
unfolding selected_queue
selected_queue-put s {q} q' h = ground (arith, get_elem?-set_self s.queues s.queue_sel {x = q} q')

address-with : (f : Field) (q : Queue) (a : ℕ) → address f (with_address f q a) ≡ a
address-with desc q a = refl
address-with avail q a = refl
address-with used q a = refl

with-with :
    (f : Field) (q : Queue) (a b : ℕ) → with_address f (with_address f q a) b ≡ with_address f q b
with-with desc q a b = refl
with-with avail q a b = refl
with-with used q a b = refl

module _ {W : Type 0} (host : Host W) (fuel : ℕ) where
  -- The selected queue of the device is replaced.
  abbrev replaced : Device W → Queue → Device W
  replaced d q = record d { slot = put_queue d.slot d.slot.queue_sel q }

  write_low :
      (f : Field) (v : ℕ) (d : Device W) {q : Queue}
      → selected_queue d.slot ≡ some q
      → write_register host fuel (low f) v d
        ≡ some (replaced d (with_address f q (set_low (address f q) v)))
  unfolding write_register
  write_low desc v d h = rw (update_queue, h)
  write_low avail v d h = rw (update_queue, h)
  write_low used v d h = rw (update_queue, h)

  write_high :
      (f : Field) (v : ℕ) (d : Device W) {q : Queue}
      → selected_queue d.slot ≡ some q
      → write_register host fuel (high f) v d
        ≡ some (replaced d (with_address f q (set_high (address f q) v)))
  unfolding write_register
  write_high desc v d h = rw (update_queue, h)
  write_high avail v d h = rw (update_queue, h)
  write_high used v d h = rw (update_queue, h)

  read_low :
      (f : Field) (w : W) (s : Slot) {q : Queue}
      → selected_queue s ≡ some q
      → read_register host (low f) w s ≡ address f q % 2 ^ 32
  unfolding read_register
  read_low desc w s h = rw h
  read_low avail w s h = rw h
  read_low used w s h = rw h

  read_high :
      (f : Field) (w : W) (s : Slot) {q : Queue}
      → selected_queue s ≡ some q
      → read_register host (high f) w s ≡ address f q / 2 ^ 32 % 2 ^ 32
  unfolding read_register
  read_high desc w s h = rw h
  read_high avail w s h = rw h
  read_high used w s h = rw h

  -- Two writes in a row.
  abbrev pub then_write : Register → ℕ → Option (Device W) → Option (Device W)
  then_write r v none = none
  then_write r v (some d) = write_register host fuel r v d

  abbrev pub write_both : Register → ℕ → Register → ℕ → Device W → Option (Device W)
  write_both r v r' v' d = then_write r' v' (write_register host fuel r v d)

  pub record Holds (f : Field) (lo hi : ℕ) (q : Queue) (r : Option (Device W)) : Type 0 where
    pub device : Device W
    pub writes : r ≡ some device
    pub queue : selected_queue device.slot ≡ some (with_address f q (hi * 2 ^ 32 + lo))
    pub reads_low : (w : W) → read_register host (low f) w device.slot ≡ lo
    pub reads_high : (w : W) → read_register host (high f) w device.slot ≡ hi

  module _ (f : Field) (lo hi : ℕ) (hlo : lo < 2 ^ 32) (hhi : hi < 2 ^ 32) where
    -- From a device that holds the address.
    Holds-of :
        (d d' : Device W) (q q' : Queue) (r : Option (Device W))
        → r ≡ some (replaced d' (with_address f q (hi * 2 ^ 32 + lo)))
        → selected_queue d'.slot ≡ some q'
        → Holds f lo hi q r
    Holds-of d d' q q' r e at =
        let held : selected_queue (replaced d' (with_address f q (hi * 2 ^ 32 + lo))).slot
            ≡ some (with_address f q (hi * 2 ^ 32 + lo)) =
          selected_queue-put d'.slot (with_address f q (hi * 2 ^ 32 + lo)) at in
        record {
          device = replaced d' (with_address f q (hi * 2 ^ 32 + lo));
          writes = e;
          queue = held;
          reads_low = λ w. read_low f w _ held ∙ omega (arith, address-with f q (hi * 2 ^ 32 + lo));
          reads_high =
              λ w. read_high f w _ held ∙ omega (arith, address-with f q (hi * 2 ^ 32 + lo));
        }

    -- With a queue selected, writing the low and the high half of one of its three addresses, in
    -- either order, makes the address `hi * 2 ^ 32 + lo`, changes no other field of the queue, and
    -- the two registers then read back as written.
    pub address_writes :
        (d : Device W) (q : Queue)
        → selected_queue d.slot ≡ some q
        → address f q < 2 ^ 64
        → Holds f lo hi q (write_both (low f) lo (high f) hi d)
          × Holds f lo hi q (write_both (high f) hi (low f) lo d)
    address_writes d q at small = (
      Holds-of d (replaced d low_first) q low_first _
          (ap (then_write (high f) hi) (write_low f lo d at)
            ∙ write_high f hi (replaced d low_first) at_low
            ∙ ap (λ (p : Queue). some (replaced (replaced d low_first) p)) whole_low)
          at_low,
      Holds-of d (replaced d high_first) q high_first _
          (ap (then_write (low f) lo) (write_high f hi d at)
            ∙ write_low f lo (replaced d high_first) at_high
            ∙ ap (λ (p : Queue). some (replaced (replaced d high_first) p)) whole_high)
          at_high,
    )
      where
        low_first : Queue
        low_first = with_address f q (set_low (address f q) lo)

        high_first : Queue
        high_first = with_address f q (set_high (address f q) hi)

        at_low : selected_queue (replaced d low_first).slot ≡ some low_first
        at_low = selected_queue-put d.slot low_first at

        at_high : selected_queue (replaced d high_first).slot ≡ some high_first
        at_high = selected_queue-put d.slot high_first at

        whole_low :
            with_address f low_first (set_high (address f low_first) hi)
            ≡ with_address f q (hi * 2 ^ 32 + lo)
        whole_low =
            with-with f q _ _
            ∙ ap (with_address f q) (
                set_high-eq (address f low_first) hi hhi
                ∙ omega (
                  arith,
                  address-with f q (set_low (address f q) lo),
                  set_low-eq (address f q) lo small hlo,
                ))

        whole_high :
            with_address f high_first (set_low (address f high_first) lo)
            ≡ with_address f q (hi * 2 ^ 32 + lo)
        whole_high =
            with-with f q _ _
            ∙ ap (with_address f q) (
                omega (
                  arith,
                  address-with f q (set_high (address f q) hi),
                  set_high-eq (address f q) hi hhi,
                  set_low-eq (address f high_first) lo
                      (omega (
                        arith,
                        address-with f q (set_high (address f q) hi),
                        set_high-eq (address f q) hi hhi,
                      ))
                      hlo,
                ))
