-- ===== src/HostMemory/User/Unmap.antt =====
-- What unmapping a range leaves, and that creating a mapping keeps the list in order.
use orlix_system.Prelude.{
  ℕ, ◌-◌, ◌%◌, ◌^◌, ◌≤◌, ◌<◌, ◌≡◌, refl, ap, Bool, false, not, List, [], ◌∷◌, arith, Bool-cases,
  inl, inr, reject, All, All-reject, Pairwise-reject, All-reject_with, bit_and, ◌==◌, leb, ◌||◌,
  if_both, if◌then◌else◌,
}
use orlix_system.Memory.{Memory}
use orlix_system.HostMemory.Space.{
  UserMapping, Mach, Space, overlaps, address_max, page_start, page_end, unmap_pages, prot_write,
}
use orlix_system.HostMemory.Pages.{page_range_whole}
use orlix_system.HostMemory.Invariant.{Apart, ApartMappings, IsMapping, IsValid}
use orlix_system.HostMemory.User.{user_unmap_loop, user_unmap_mapped_range, new_mapping}

abbrev pub meets : ℕ → ℕ → UserMapping → Bool
meets start end m = overlaps start end m.target m.length

module _ {W : Type 0} (mach : Mach W) (page_shift : ℕ) where
  user_unmap_loop-kept :
      (start end : ℕ) (user : List UserMapping) (m : Memory) (w : W)
      → (user_unmap_loop mach page_shift start end user m w).0 ≡ reject (meets start end) user
  unfolding user_unmap_loop
  user_unmap_loop-kept start end [] m w = refl
  user_unmap_loop-kept start end (x ∷ rest) m w = elim (Bool-cases (meets start end x)) [
    | inl e ↦ rw (reject, e) (user_unmap_loop-kept start end rest _ _)
    | inr e ↦
        rw (reject, e)
          (ap (λ (t : List UserMapping). x ∷ t) (user_unmap_loop-kept start end rest m w))
  ]

  IsValid-reject :
      (p : UserMapping → Bool) (user : List UserMapping)
      → IsValid page_shift user
      → IsValid page_shift (reject p user)
  IsValid-reject p user v = record {
    mappings = All-reject (IsMapping page_shift) p user v.mappings;
    mappings_apart = Pairwise-reject ApartMappings p user v.mappings_apart;
  }

  -- The source's guard: no range of pages.
  abbrev pub no_pages : ℕ → ℕ → Bool
  no_pages target length =
      target == 0
      || page_end page_shift target length == 0
      || leb (page_end page_shift target length) (page_start page_shift target)

  pub unmap_range-user :
      (target length : ℕ) (s : Space W)
      → (user_unmap_mapped_range mach page_shift target length s).user ≡ (
          if no_pages target length
          then s.user
          else reject
              (meets (page_start page_shift target) (page_end page_shift target length))
              s.user)
  unfolding user_unmap_mapped_range
  unmap_range-user target length s = elim (Bool-cases (no_pages target length)) [
    | inl e ↦ rw (user_unmap_mapped_range, e)
    | inr e ↦
        rw (user_unmap_mapped_range, e)
          (user_unmap_loop-kept (page_start page_shift target) (page_end page_shift target length)
            s.user s.mem s.world)
  ]

  pub unmap_range-IsValid :
      (target length : ℕ) (s : Space W)
      → IsValid page_shift s.user
      → IsValid page_shift (user_unmap_mapped_range mach page_shift target length s).user
  unmap_range-IsValid target length s v = rw (unmap_range-user target length s) (
      if_both (IsValid page_shift) (no_pages target length) s.user
        (reject (meets (page_start page_shift target) (page_end page_shift target length)) s.user) v
        (IsValid-reject _ s.user v))

  pub unmap_pages-user :
      (target length : ℕ) (s : Space W)
      → (unmap_pages page_shift mach target length s).user ≡ s.user
  unfolding unmap_pages
  unmap_pages-user target length s = ground arith

  module _ (word : 2 ^ 64 % 2 ^ page_shift ≡ 0) (start end : ℕ) (s : Space W) (pos : 0 < start)
      (a : start % 2 ^ page_shift ≡ 0) (b : end % 2 ^ page_shift ≡ 0) (h : start < end)
      (in_word : end ≤ address_max) (v : IsValid page_shift s.user) where
    -- Whole pages that are unmapped are clear of every mapping that is left.
    unmap_range-clear :
        All
          (λ (m : UserMapping). Apart start (end - start) m.target m.length)
          (user_unmap_mapped_range mach page_shift start (end - start) s).user
    unmap_range-clear =
        let whole = page_range_whole page_shift start end word a b h in_word in
        let on : no_pages start (end - start) ≡ false = ground (arith, whole) in
        rw (unmap_range-user start (end - start) s, on, whole.0, whole.1)
          (All-reject_with (IsMapping page_shift)
            (λ (m : UserMapping). Apart start (end - start) m.target m.length) (meets start end)
            (λ m i e. ground (arith, i.in_word, e)) s.user v.mappings)

    -- So a new mapping keeps the list in order.
    pub IsValid-new :
        (protection : ℕ) (writable : Bool)
        → writable ≡ not (bit_and protection prot_write == 0)
        → IsValid page_shift (
            new_mapping start end protection writable
            ∷ (unmap_pages page_shift mach start
                (end - start)
                (user_unmap_mapped_range mach page_shift start (end - start) s)).user)
    IsValid-new protection writable flag =
        rw
          (unmap_pages-user start (end - start)
            (user_unmap_mapped_range mach page_shift start (end - start) s))
          (record {
            mappings = (
              record {
                start_whole = a;
                end_whole = ground (arith, b);
                some_pages = omega arith;
                in_word = omega arith;
                flag = flag;
                inside = tt;
                segments_apart = tt;
              },
              (unmap_range-IsValid start (end - start) s v).mappings,
            );
            mappings_apart =
                (unmap_range-clear, (unmap_range-IsValid start (end - start) s v).mappings_apart);
          })
