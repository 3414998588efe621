-- ===== src/Virtio/Ring/Heads.antt =====
-- The loop over the available ring serves the heads in the ring, in order.
use orlix_system.Prelude.{
  ℕ, zero, suc, ◌+◌, ◌*◌, ◌%◌, ◌^◌, ◌≤◌, ◌<◌, ◌≡◌, refl, ◌∙◌, ap, sym, subst, ◌⊎◌, Bool, some, List,
  [], ◌∷◌, arith, get_elem?, get_elem?-set_self, some_eq,
}
use native.Mathlib.Nat.{mod-lt}
use orlix_system.Memory.{Memory, load}
use orlix_system.Memory.Frame.{SameAt, load-SameAt, load-lt}
use orlix_system.Virtio.Device.{Host, Guest, Device, Queue, put_queue}
use orlix_system.Virtio.Ring.{Handler, push_used, serve, drain}
use orlix_system.Virtio.Ring.Push.{push_used-Pushed}
use orlix_system.Virtio.Ring.Drain.{
  HasRings, IsQuiet, Drained, avail_idx, pending, drain_stop, drain_go, serve-Served, serve-eq,
  next-HasRings, drain-Drained,
}

-- The heads of the next `k` chains of a ring at `avail`, as they stand in memory.
abbrev pub heads : ℕ → Queue → Memory → ℕ → List ℕ
heads avail q m zero = []
heads avail q m (suc k) =
    load 2 m (avail + 4 + 2 * (q.last_avail % q.num))
    ∷ heads avail (record q { last_avail = (q.last_avail + 1) % 2 ^ 16 }) m k

-- The entries of the available ring are apart from the used ring, and the handler does not write them.
pub record HasEntries {W : Type 0} (avail : ℕ) (q : Queue) (handle : Handler W) : Type 0 where
  pub entries_apart : (avail + 4 + 2 * q.num ≤ q.used + 2) ⊎ (q.used + 4 + 8 * q.num ≤ avail + 4)
  pub keeps_entries :
      (head : ℕ) (g : Guest W) → SameAt (2 * q.num) (avail + 4) g.mem (handle head g).2.mem

module _ {W : Type 0} (host : Host W) (handle : Handler W) (avail i : ℕ) where
  -- One chain is taken and returned: the handler, `push_used` with the chain's head, and the count.
  abbrev pub give_back : ℕ → Queue → Device W → Device W
  give_back head q d =
      let handled = handle head d.guest in
      let pushed = push_used host q head handled.1 (record d { guest = handled.2 }) in
      record pushed {
        slot = put_queue pushed.slot i (record q { last_avail = (q.last_avail + 1) % 2 ^ 16 });
      }

  abbrev pub give_back_all : List ℕ → Queue → Device W → Device W
  give_back_all [] q d = d
  give_back_all (head ∷ rest) q d =
      give_back_all rest (record q { last_avail = (q.last_avail + 1) % 2 ^ 16 })
        (give_back head q d)

  heads-SameAt :
      (k : ℕ) (q : Queue) (m m' : Memory)
      → 0 < q.num
      → SameAt (2 * q.num) (avail + 4) m m'
      → heads avail q m' k ≡ heads avail q m k
  heads-SameAt zero q m m' entries same = refl
  heads-SameAt (suc k) q m m' entries same =
      let slot = avail + 4 + 2 * (q.last_avail % q.num) in
      let q' = record q { last_avail = (q.last_avail + 1) % 2 ^ 16 } in
      let low = mod-lt q.last_avail entries in
      ap (λ (head : ℕ). head ∷ heads avail q' m' k)
        (load-SameAt 2 m m' slot
          (λ a lo hi. same a (omega (arith, lo)) (omega (arith, lo, hi, low))))
      ∙ ap (λ (l : List ℕ). load 2 m slot ∷ l) (heads-SameAt k q' m m' entries same)

  give_back-entries :
      (head : ℕ) (q : Queue) (d : Device W)
      → head < 2 ^ 32
      → HasRings avail q
      → IsQuiet avail q.used handle
      → HasEntries avail q handle
      → SameAt (2 * q.num) (avail + 4) d.guest.mem (give_back head q d).guest.mem
  give_back-entries head q d small r quiet e a lo hi =
      let handled = handle head d.guest in
      let pushed =
        push_used-Pushed host q head handled.1 (record d { guest = handled.2 }) r.used small
          (quiet.counts head d.guest) in
      pushed.untouched a (ground (arith, e.entries_apart, lo, hi))
      ∙ e.keeps_entries head d.guest a lo hi

  drain-heads :
      (k fuel : ℕ) (q : Queue) (d : Device W)
      → get_elem? d.slot.queues i ≡ some q
      → HasRings avail q
      → IsQuiet avail q.used handle
      → HasEntries avail q handle
      → pending avail q d.guest.mem ≡ k
      → k < fuel
      → drain host handle avail i fuel d ≡ some (give_back_all (heads avail q d.guest.mem k) q d)
  drain-heads k zero q d at r quiet e count h = absurd (omega arith)
  drain-heads zero (suc fuel) q d at r quiet e count h =
      drain_stop host handle avail i fuel q d at
        (omega (arith, count, r.last, load-lt 2 d.guest.mem (avail + 2)))
  drain-heads (suc k) (suc fuel) q d at r quiet e count h =
      let s = serve-Served host handle avail i q d r quiet in
      let small : avail_idx avail d.guest.mem < 2 ^ 16 = load-lt 2 d.guest.mem (avail + 2) in
      let d1 = (serve host handle avail i q d).1 in
      let q' = record q { last_avail = (q.last_avail + 1) % 2 ^ 16 } in
      let head = load 2 d.guest.mem (avail + 4 + 2 * (q.last_avail % q.num)) in
      let served = serve-eq host handle avail i q d r quiet in
      let kept : SameAt (2 * q.num) (avail + 4) d.guest.mem d1.guest.mem =
        subst (λ (t : Bool × Device W). SameAt (2 * q.num) (avail + 4) d.guest.mem t.1.guest.mem)
          (sym served)
          (give_back-entries head q d
            (omega (arith, load-lt 2 d.guest.mem (avail + 4 + 2 * (q.last_avail % q.num)))) r quiet
            e) in
      drain_go host handle avail i fuel q d at (omega (arith, count, r.last)) s.go
      ∙ drain-heads k fuel q' d1 (rw s.queues (get_elem?-set_self d.slot.queues i q' at))
          (next-HasRings host handle avail i r) quiet
          (record { entries_apart = e.entries_apart; keeps_entries = e.keeps_entries })
          (omega (arith, s.avail_same, r.last, count)) (omega (arith, h))
      ∙ ap (λ (l : List ℕ). some (give_back_all l q' d1))
          (heads-SameAt k q' d.guest.mem d1.guest.mem r.used.entries kept)
      ∙ ap (λ (t : Bool × Device W). some (give_back_all (heads avail q' d.guest.mem k) q' t.1))
          served

  -- With rings that do not overlap, and a handler that goes on and leaves the available ring and the
  -- used index alone, the loop ends for every fuel above the number of available chains. What it
  -- leaves is what taking and returning one chain after the other leaves, by the handler and a push of
  -- the chain's head, for the heads that stood in the available ring from `last_avail` on, as many as
  -- are available; `last_avail` has reached the index of the available ring, which is unchanged, and
  -- the index of the used ring has advanced by their number modulo 2 ^ 16.
  pub drain-heads_served :
      (fuel : ℕ) (q : Queue) (d : Device W)
      → get_elem? d.slot.queues i ≡ some q
      → HasRings avail q
      → IsQuiet avail q.used handle
      → HasEntries avail q handle
      → pending avail q d.guest.mem < fuel
      → let k = pending avail q d.guest.mem in
        let d' = give_back_all (heads avail q d.guest.mem k) q d in
        (drain host handle avail i fuel d ≡ some d') × Drained host handle avail i q k d d'
  drain-heads_served fuel q d at r quiet e h =
      let k = pending avail q d.guest.mem in
      let same = drain-heads k fuel q d at r quiet e refl h in
      let (d', found, drained) = drain-Drained host handle avail i fuel q d at r quiet h in
      (same, subst (Drained host handle avail i q k d) (some_eq _ _ (sym found ∙ same)) drained)
