-- ===== src/Virtio/Control/Fields.antt =====
-- The widths and sizes of a slot's fields, kept by the queues' loops.
use mathlib.Core.Option
use orlix_system.Prelude.{
  if_both, if◌then◌else◌, ◌%◌, ap, subst, Option-cases, ℕ, zero, suc, ◌+◌, ◌^◌, ◌≤◌, ◌<◌, ◌≡◌, inl,
  inr, Bool, Option, none, some, List, [], ◌∷◌, arith, bit_or, u16, length, get_elem?, set,
  length-set, All, Bool-cases, leb, ◌==◌,
}
use orlix_system.Prelude.Bits.Masks.{bit_or-lt}
use orlix_system.Memory.{load}
use orlix_system.Virtio.Layout.{
  ring_idx, avail_entry, int_vring, queue_count, id_block, id_console, id_rng,
}
use orlix_system.Virtio.Device.{Host, Device, Slot, Queue, put_queue, selected_queue}
use orlix_system.Virtio.Ring.{Handler, push_used, serve, drain, open_queue}
use orlix_system.Virtio.Service.{
  run_queue, process_queue, handle_console_input, handle_console_output, handle_rng, handle_block,
  process_console_input_queue, process_console_output_queue, process_rng_queue,
  process_console_queue, start_console_input_timer, schedule_queue,
}

pub record IsValidQueue (q : Queue) : Type 0 where
  pub num_word : q.num < 2 ^ 32
  pub ready_flag : q.ready ≤ 1
  pub desc_word : q.desc < 2 ^ 64
  pub avail_word : q.avail < 2 ^ 64
  pub used_word : q.used < 2 ^ 64
  pub last_word : q.last_avail < 2 ^ 16

abbrev pub AllValid : List Queue → Type 0
AllValid [] = Unit {0}
AllValid (q ∷ qs) = IsValidQueue q × AllValid qs

pub record IsValid (s : Slot) : Type 0 where
  pub two_queues : length s.queues ≡ 2
  pub queues_valid : AllValid s.queues
  pub two_features : length s.driver_features ≡ 2
  pub status_byte : s.status < 256
  pub interrupt_word : s.interrupt_status < 2 ^ 32
  pub pending_bits : s.pending_queues < 4
  pub queue_sel_word : s.queue_sel < 2 ^ 32
  pub shm_sel_word : s.shm_sel < 2 ^ 32
  pub device_sel_word : s.device_features_sel < 2 ^ 32
  pub driver_sel_word : s.driver_features_sel < 2 ^ 32
  pub features_words : All (λ feature. feature < 2 ^ 32) s.driver_features

AllValid-set :
    (qs : List Queue) (i : ℕ) {q : Queue} → AllValid qs → IsValidQueue q → AllValid (set qs i q)
AllValid-set [] i v w = tt
AllValid-set (x ∷ qs) zero v w = (w, v.1)
AllValid-set (x ∷ qs) (suc i) v w = (v.0, AllValid-set qs i v.1 w)

AllValid-get :
    (qs : List Queue) (i : ℕ) {q : Queue} → AllValid qs → get_elem? qs i ≡ some q → IsValidQueue q
AllValid-get [] i v h = cc
AllValid-get (x ∷ qs) zero v h =
    subst IsValidQueue (ap (λ (o : Option Queue). Option.get_or o x) h) v.0
AllValid-get (x ∷ qs) (suc i) v h = AllValid-get qs i v.1 h

pub put_queue-IsValid :
    (s : Slot) (i : ℕ) (q : Queue) → IsValid s → IsValidQueue q → IsValid (put_queue s i q)
put_queue-IsValid s i q v w = record {
  two_queues = omega (arith, length-set s.queues i q, v.two_queues);
  queues_valid = AllValid-set s.queues i v.queues_valid w;
  two_features = v.two_features;
  status_byte = v.status_byte;
  interrupt_word = v.interrupt_word;
  pending_bits = v.pending_bits;
  queue_sel_word = v.queue_sel_word;
  shm_sel_word = v.shm_sel_word;
  device_sel_word = v.device_sel_word;
  driver_sel_word = v.driver_sel_word;
  features_words = v.features_words;
}

pub selected_queue-valid :
    (s : Slot) {q : Queue} → IsValid s → selected_queue s ≡ some q → IsValidQueue q
unfolding selected_queue
selected_queue-valid s {q} v h = elim (Bool-cases (leb queue_count s.queue_sel)) [
  | inl out ↦ absurd (ground (arith, out))
  | inr low ↦ AllValid-get s.queues s.queue_sel v.queues_valid (rw low at h)
]

-- A device that the function returns is valid; with no fuel it returns none.
abbrev pub Keeps : {W : Type 0} → Option (Device W) → Type 0
Keeps none = Unit {0}
Keeps (some d) = IsValid d.slot

abbrev pub ValidDevice : {W : Type 0} → Device W → Type 0
ValidDevice d = IsValid d.slot

module _ {W : Type 0} (host : Host W) where
  push_used-IsValid :
      (q : Queue) (head written : ℕ) (d : Device W)
      → IsValid d.slot
      → IsValid (push_used host q head written d).slot
  unfolding push_used
  push_used-IsValid q head written d v =
      ground (arith, bit_or-lt 32 d.slot.interrupt_status int_vring)

  serve-IsValid :
      (handle : Handler W) (avail i : ℕ) (q : Queue) (d : Device W)
      → IsValidQueue q
      → IsValid d.slot
      → IsValid (serve host handle avail i q d).1.slot
  unfolding serve
  serve-IsValid handle avail i q d w v =
      let head = load 2 d.guest.mem (avail_entry avail (q.last_avail % q.num)) in
      let result = handle head d.guest in
      let pushed = push_used host q head result.1 (record d { guest = result.2 }) in
      let kept : IsValid pushed.slot =
        push_used-IsValid q head result.1 (record d { guest = result.2 }) v in
      elim (Bool-cases result.0) [
        | inl go ↦
            rw (serve, go)
              (put_queue-IsValid pushed.slot i (record q { last_avail = u16 (q.last_avail + 1) })
                kept (omega arith))
        | inr stop ↦ rw (serve, stop) v
      ]

  drain-Keeps :
      (handle : Handler W) (avail i fuel : ℕ) (d : Device W)
      → IsValid d.slot
      → Keeps (drain host handle avail i fuel d)
  unfolding drain
  drain-Keeps handle avail i zero d v = tt
  drain-Keeps handle avail i (suc fuel) d v = elim (Option-cases (get_elem? d.slot.queues i)) [
    | inl e ↦ rw (drain, e) v
    | inr (q, e) ↦ elim (Bool-cases (q.last_avail == load 2 d.guest.mem (ring_idx avail))) [
      | inl done ↦ rw (drain, e, done) v
      | inr more ↦
          let kept =
            serve-IsValid handle avail i q d (AllValid-get d.slot.queues i v.queues_valid e) v in
          elim (Bool-cases (serve host handle avail i q d).0) [
            | inl go ↦ rw (drain, e, more, go) (drain-Keeps handle avail i fuel _ kept)
            | inr stop ↦ rw (drain, e, more, stop) kept
          ]
    ]
  ]

  run_queue-Keeps :
      (handle : Queue → ℕ → Handler W) (fuel i : ℕ) (d : Device W)
      → IsValid d.slot
      → Keeps (run_queue host handle fuel i d)
  unfolding run_queue
  run_queue-Keeps handle fuel i d v = elim (Option-cases (get_elem? d.slot.queues i)) [
    | inl e ↦ rw (run_queue, e) v
    | inr (q, e) ↦ elim (Option-cases (open_queue q)) [
      | inl shut ↦ rw (run_queue, e, shut) v
      | inr ((desc, avail), opened) ↦
          rw (run_queue, e, opened) (drain-Keeps (handle q desc) avail i fuel d v)
    ]
  ]

  pub timer-IsValid :
      (d : Device W) → IsValid d.slot → IsValid (start_console_input_timer host d).slot
  unfolding start_console_input_timer
  timer-IsValid d v = ground arith

  timed-Keeps :
      (r : Option (Device W)) → Keeps r → Keeps (Option.map (start_console_input_timer host) r)
  timed-Keeps none k = tt
  timed-Keeps (some d) k = timer-IsValid d k

  Keeps-if : (b : Bool) (x y : Option (Device W)) → Keeps x → Keeps y → Keeps (if b then x else y)
  Keeps-if = if_both Keeps

  process_queue-Keeps :
      (fuel i : ℕ) (d : Device W) → IsValid d.slot → Keeps (process_queue host fuel i d)
  unfolding process_queue process_console_queue process_console_input_queue
      process_console_output_queue process_rng_queue
  process_queue-Keeps fuel i d v = Keeps-if (leb queue_count i) _ _ v (
      Keeps-if (d.slot.device_id == id_console) _ _
        (Keeps-if (i == 0) _ _
          (timed-Keeps _ (run_queue-Keeps (λ q. handle_console_input host) fuel 0 d v))
          (Keeps-if (i == 1) _ _
            (Keeps-if (leb queue_count i) _ _ v
              (run_queue-Keeps (λ q. handle_console_output host) fuel i d v))
            v))
        (Keeps-if (d.slot.device_id == id_rng) _ _
          (Keeps-if (i == 0) _ _ (run_queue-Keeps (λ q. handle_rng host) fuel i d v) v)
          (run_queue-Keeps (λ q. handle_block host d.slot q.num) fuel i d v)))

  pending_bit : (p i : ℕ) → p < 4 → i < 2 → bit_or p (2 ^ i) < 4
  pending_bit p zero h k = bit_or-lt 2 p 1 h (omega arith)
  pending_bit p (suc zero) h k = bit_or-lt 2 p 2 h (omega arith)
  pending_bit p (suc (suc i)) h k = absurd (omega arith)

  pub schedule_queue-Keeps :
      (fuel i : ℕ) (d : Device W) → IsValid d.slot → Keeps (schedule_queue host fuel i d)
  unfolding schedule_queue
  schedule_queue-Keeps fuel i d v = elim (Bool-cases (leb queue_count i)) [
    | inl out ↦ rw (schedule_queue, out) v
    | inr low ↦
        rw (schedule_queue, low)
          (Keeps-if (d.slot.device_id == id_block) _ _
            (ground (arith, pending_bit d.slot.pending_queues i)) (process_queue-Keeps fuel i d v))
  ]
