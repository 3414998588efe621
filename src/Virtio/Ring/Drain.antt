-- ===== src/Virtio/Ring/Drain.antt =====
-- The loop over the available ring: with a guest that makes nothing more available it ends, and
-- every available chain has been returned once.
use orlix_system.Prelude.{
  ℕ, zero, suc, ◌+◌, ◌-◌, ◌*◌, ◌%◌, ◌^◌, ◌≤◌, ◌<◌, ◌≡◌, ◌≢◌, refl, ◌∙◌, ap, ◌⊎◌, Bool, true, some,
  arith, u16, ==_iff, ne→==, get_elem?, set, get_elem?-set_self,
}
use orlix_system.Memory.{Memory, load}
use orlix_system.Memory.Frame.{SameAt, load-SameAt, load-lt}
use orlix_system.Virtio.Layout.{ring_idx}
use orlix_system.Virtio.Device.{Host, Guest, Device, Queue, put_queue}
use orlix_system.Virtio.Ring.{Handler, push_used, serve, drain}
use orlix_system.Virtio.Ring.Push.{
  HasUsed, used_idx, Pushed, push_used-Pushed, push_used-Pushed, queues-push_used,
}

-- How many chains are available: the index of the ring past the last one taken, modulo 2 ^ 16.
abbrev pub avail_idx : ℕ → Memory → ℕ
avail_idx avail m = load 2 m (ring_idx avail)

abbrev pub pending : ℕ → Queue → Memory → ℕ
pending avail q m = (avail_idx avail m + 2 ^ 16 - q.last_avail) % 2 ^ 16

-- The two rings of a queue: the used ring is one that can be written, no store into it reaches the
-- index of the available ring, and `last_avail` is a `u16`.
pub record HasRings (avail : ℕ) (q : Queue) : Type 0 where
  pub used : HasUsed q
  pub apart : (avail + 4 ≤ q.used + 2) ⊎ (q.used + 4 + 8 * q.num ≤ avail + 2)
  pub last : q.last_avail < 2 ^ 16

-- What the loop asks of a handler: it goes on, counts in 32 bits, and leaves both indices alone.
pub record IsQuiet {W : Type 0} (avail used : ℕ) (handle : Handler W) : Type 0 where
  pub goes_on : (head : ℕ) (g : Guest W) → (handle head g).0 ≡ true
  pub counts : (head : ℕ) (g : Guest W) → (handle head g).1 < 2 ^ 32
  pub keeps_avail : (head : ℕ) (g : Guest W) → SameAt 2 (avail + 2) g.mem (handle head g).2.mem
  pub keeps_used : (head : ℕ) (g : Guest W) → SameAt 2 (used + 2) g.mem (handle head g).2.mem

module _ {W : Type 0} (host : Host W) (handle : Handler W) (avail i : ℕ) where
  abbrev head_of : Queue → Memory → ℕ
  head_of q m = load 2 m (avail + 4 + 2 * (q.last_avail % q.num))

  abbrev pub next : Queue → Queue
  next q = record q { last_avail = u16 (q.last_avail + 1) }

  -- One round.
  pub record Served (q : Queue) (d : Device W) (r : Bool × Device W) : Type 0 where
    pub go : r.0 ≡ true
    pub queues : r.1.slot.queues ≡ set d.slot.queues i (next q)
    pub avail_same : avail_idx avail r.1.guest.mem ≡ avail_idx avail d.guest.mem
    pub used_next : used_idx q r.1.guest.mem ≡ u16 (used_idx q d.guest.mem + 1)

  module _ (q : Queue) (d : Device W) (r : HasRings avail q)
      (quiet : IsQuiet avail q.used handle) where
    abbrev handled : Bool × ℕ × Guest W
    handled = handle (head_of q d.guest.mem) d.guest

    abbrev before : Device W
    before = record d { guest = handled.2 }

    abbrev pushed : Device W
    pushed = push_used host q (head_of q d.guest.mem) handled.1 before

    abbrev after : Device W
    after = record pushed { slot = put_queue pushed.slot i (next q) }

    pub serve-eq : serve host handle avail i q d ≡ (true, after)
    unfolding serve
    serve-eq = rw (serve, quiet.goes_on (head_of q d.guest.mem) d.guest)

    pub has_pushed : Pushed host q (head_of q d.guest.mem) handled.1 before pushed
    has_pushed =
        push_used-Pushed host q (head_of q d.guest.mem) handled.1 before r.used
          (omega (arith, load-lt 2 d.guest.mem (avail + 4 + 2 * (q.last_avail % q.num))))
          (quiet.counts (head_of q d.guest.mem) d.guest)

    avail_kept : SameAt 2 (avail + 2) d.guest.mem pushed.guest.mem
    avail_kept a lo hi =
        has_pushed.untouched a (ground (arith, r.apart))
        ∙ quiet.keeps_avail (head_of q d.guest.mem) d.guest a lo hi

    pub serve-Served : Served q d (serve host handle avail i q d)
    serve-Served = rw serve-eq (record {
      go = refl;
      queues =
          ap (λ qs. set qs i (next q))
            (queues-push_used host q (head_of q d.guest.mem) handled.1 before);
      avail_same = load-SameAt 2 d.guest.mem pushed.guest.mem (avail + 2) avail_kept;
      used_next =
          has_pushed.idx
          ∙ ap (λ (t : ℕ). u16 (t + 1))
              (load-SameAt 2 d.guest.mem handled.2.mem (q.used + 2)
                (quiet.keeps_used (head_of q d.guest.mem) d.guest));
    })

  -- What the loop reaches: `k` rounds later, with nothing left.
  pub record Drained (q : Queue) (k : ℕ) (d d' : Device W) : Type 0 where
    pub queue :
        get_elem? d'.slot.queues i ≡ some (record q { last_avail = avail_idx avail d.guest.mem })
    pub avail_same : avail_idx avail d'.guest.mem ≡ avail_idx avail d.guest.mem
    pub used_idx_by : used_idx q d'.guest.mem ≡ u16 (used_idx q d.guest.mem + k)

  pub drain_stop :
      (fuel : ℕ) (q : Queue) (d : Device W)
      → get_elem? d.slot.queues i ≡ some q
      → q.last_avail ≡ avail_idx avail d.guest.mem
      → drain host handle avail i (suc fuel) d ≡ some d
  unfolding drain
  drain_stop fuel q d at done = rw (drain, at, (==_iff _ _).1 done)

  pub drain_go :
      (fuel : ℕ) (q : Queue) (d : Device W)
      → get_elem? d.slot.queues i ≡ some q
      → q.last_avail ≢ avail_idx avail d.guest.mem
      → (serve host handle avail i q d).0 ≡ true
      → drain host handle avail i (suc fuel) d
        ≡ drain host handle avail i fuel (serve host handle avail i q d).1
  unfolding drain
  drain_go fuel q d at more go = rw (drain, at, ne→== _ _ more, go)

  pub next-HasRings : {q : Queue} → HasRings avail q → HasRings avail (next q)
  next-HasRings r = record {
    used = record { present = r.used.present; fits = r.used.fits; entries = r.used.entries };
    apart = r.apart;
    last = omega arith;
  }

  Drained-next :
      (q : Queue) (k : ℕ) (d d' : Device W) (r : Bool × Device W)
      → Served q d r
      → Drained (next q) k r.1 d'
      → Drained q (suc k) d d'
  Drained-next q k d d' r s rest = record {
    queue = rest.queue ∙ ap (λ (t : ℕ). some (record q { last_avail = t })) s.avail_same;
    avail_same = rest.avail_same ∙ s.avail_same;
    used_idx_by = omega (arith, rest.used_idx_by, s.used_next);
  }

  drain_rounds :
      (k fuel : ℕ) (q : Queue) (d : Device W)
      → get_elem? d.slot.queues i ≡ some q
      → HasRings avail q
      → IsQuiet avail q.used handle
      → pending avail q d.guest.mem ≡ k
      → k < fuel
      → (d' : Device W) × (drain host handle avail i fuel d ≡ some d') × Drained q k d d'
  drain_rounds k zero q d at r quiet count h = absurd (omega arith)
  drain_rounds zero (suc fuel) q d at r quiet count h =
      let done : q.last_avail ≡ avail_idx avail d.guest.mem =
        omega (arith, r.last, load-lt 2 d.guest.mem (avail + 2)) in
      (
        d,
        drain_stop fuel q d at done,
        record {
          queue = at ∙ ap (λ (t : ℕ). some (record q { last_avail = t })) done;
          avail_same = refl;
          used_idx_by = omega (arith, load-lt 2 d.guest.mem (q.used + 2));
        },
      )
  drain_rounds (suc k) (suc fuel) q d at r quiet count h =
      let s : Served q d (serve host handle avail i q d) = serve-Served q d r quiet in
      let small : avail_idx avail d.guest.mem < 2 ^ 16 = load-lt 2 d.guest.mem (avail + 2) in
      let (d', e, rest) =
        drain_rounds k fuel (next q) (serve host handle avail i q d).1
          (rw s.queues (get_elem?-set_self d.slot.queues i (next q) at)) (next-HasRings r) quiet
          (omega (arith, s.avail_same, r.last)) (omega arith) in
      (
        d',
        drain_go fuel q d at (omega (arith, r.last)) s.go ∙ e,
        Drained-next q k d d' (serve host handle avail i q d) s rest,
      )

  -- With rings that do not overlap, and a handler that goes on and leaves the indices alone, the
  -- loop ends for every fuel above the number of available chains: `last_avail` has reached the
  -- index of the available ring, which is unchanged, and the index of the used ring has advanced
  -- by that number modulo 2 ^ 16.
  pub drain-Drained :
      (fuel : ℕ) (q : Queue) (d : Device W)
      → get_elem? d.slot.queues i ≡ some q
      → HasRings avail q
      → IsQuiet avail q.used handle
      → pending avail q d.guest.mem < fuel
      → (d' : Device W) × (drain host handle avail i fuel d ≡ some d')
        × Drained q (pending avail q d.guest.mem) d d'
  drain-Drained fuel q d at r quiet h =
      drain_rounds (pending avail q d.guest.mem) fuel q d at r quiet refl h
