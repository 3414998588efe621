-- ===== src/HostMemory/Io/Window.antt =====
-- What `orlix_host_ioremap` makes of a range of physical addresses, and that `orlix_host_iounmap`
-- undoes it.
use native.Mathlib.Nat.{one-le-pow}
use orlix_system.Prelude.{
  ℕ, ◌+◌, ◌^◌, ◌≤◌, ◌<◌, ◌≡◌, ◌≢◌, ◌⊎◌, refl, ◌||◌, none, some, arith, Bool-cases, Option-cases,
  inl, inr, ◌==◌, u64,
}
use orlix_system.HostMemory.Space.{Mach, Space, round_page_length}
use orlix_system.HostMemory.Pages.{round_bounds}
use orlix_system.HostMemory.Io.{ioremap, iounmap, take_mapping, iomem_physical_address}

module _ {W : Type 0} (mach : Mach W) (page_shift physical_address length : ℕ) where
  -- A window at `a` from a space to another one.
  pub record IsWindow (a : ℕ) (s t : Space W) : Type 0 where
    pub size : ℕ
    pub whole : length ≤ size
    pub at : a ≢ 0
    pub translates :
        (j : ℕ) → j < size → iomem_physical_address t.io (a + j) ≡ some (u64 (physical_address + j))
    pub others :
        (b : ℕ)
        → (b < a) ⊎ (a + size ≤ b)
        → iomem_physical_address t.io b ≡ iomem_physical_address s.io b
    pub undone : (iounmap mach page_shift a t).io ≡ s.io

  round-le : round_page_length page_shift length ≢ 0 → length ≤ round_page_length page_shift length
  unfolding round_page_length
  round-le h = ground (arith, one-le-pow page_shift 2, round_bounds length (2 ^ page_shift))

  -- A call that succeeds makes a window of at least `length` bytes: its addresses translate to the
  -- physical ones from `physical_address` on, all other addresses translate as before, and
  -- unmapping it brings the list of mappings back. A call that fails leaves the list as it was.
  pub ioremap-IsWindow :
      (s : Space W)
      → ((a : ℕ) × ((ioremap mach page_shift physical_address length s).0 ≡ some a)
          × IsWindow a s (ioremap mach page_shift physical_address length s).1)
        ⊎ (((ioremap mach page_shift physical_address length s).0 ≡ none)
            × ((ioremap mach page_shift physical_address length s).1.io ≡ s.io))
  unfolding ioremap iounmap take_mapping iomem_physical_address
  ioremap-IsWindow s =
      elim (Bool-cases (physical_address == 0 || round_page_length page_shift length == 0)) [
        | inl bad ↦ inr (rw (ioremap, bad) (refl, refl))
        | inr good ↦
            elim (Option-cases
              (mach.vm_allocate_anywhere (round_page_length page_shift length) s.world).0) [
                | inl e ↦ inr (rw (ioremap, good, e) (refl, refl))
                | inr (a, e) ↦ elim (Bool-cases (a == 0)) [
                  | inl zero_address ↦ inr (rw (ioremap, good, e, zero_address) (refl, refl))
                  | inr at ↦
                      elim (Bool-cases
                        (mach.malloc
                          (mach.vm_allocate_anywhere (round_page_length page_shift length)
                            s.world).1).0) [
                              | inr bad ↦ inr (rw (ioremap, good, e, at, bad) (refl, refl))
                              | inl got ↦ inl (
                                a,
                                rw (ioremap, good, e, at, got),
                                rw (ioremap, good, e, at, got)
                                    (record {
                                      size = round_page_length page_shift length;
                                      whole = round-le (ground (arith, good));
                                      at = ground (arith, at);
                                      translates = λ j low. ground (arith, at);
                                      others = λ b out. ground (arith, at);
                                      undone = ground (arith, at);
                                    }),
                              )
                            ]
                ]
              ]
      ]
