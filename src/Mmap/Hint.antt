-- ===== src/Mmap/Hint.antt =====
-- Where the addresses lie that mmap.c hands out.
use orlix_system.Prelude.{
  ℕ, ◌+◌, ◌-◌, ◌^◌, ◌≤◌, ◌<◌, ◌≡◌, ◌⊎◌, Bool, true, false, not, ◌&&◌, some, arith, Bool-cases, inl,
  inr, ◌==◌, if◌then◌else◌, if_both,
}
use orlix_system.Mmap.{
  AddressSpace, Request, AreaInfo, task_unmapped_base, hint_fits, too_long, mmap_floor, page_align,
  get_unmapped_area, get_unmapped_area_topdown, mmap_low_limit,
}

-- `IS_ERR_VALUE`
abbrev pub IsError : ℕ → Type 0
IsError r = 2 ^ 64 - 4095 ≤ r

module _ (space : AddressSpace) where
  -- `length` bytes from `r` on lie between the limits and clear of both neighbours.
  pub record IsFree (low high length r : ℕ) : Type 0 where
    pub above : low ≤ r
    pub below : r + length ≤ high
    pub next : (start : ℕ) → space.next_start_gap r ≡ some start → r + length ≤ start
    pub prev : (end_gap : ℕ) → space.prev_end_gap r ≡ some end_gap → end_gap ≤ r

  -- What `vm_unmapped_area` promises.
  abbrev pub Searches : Type 0
  Searches =
      (info : AreaInfo)
      → IsError (space.vm_unmapped_area info)
        ⊎ IsFree info.low_limit info.high_limit info.length (space.vm_unmapped_area info)

  abbrev pub IsPlaced : ℕ → ℕ → ℕ → Type 0
  IsPlaced mmap_end length r = IsError r ⊎ IsFree task_unmapped_base mmap_end length r

  IsFree-widen :
      (low high high' length r : ℕ)
      → task_unmapped_base ≤ low
      → high ≤ high'
      → IsFree low high length r
      → IsFree task_unmapped_base high' length r
  IsFree-widen low high high' length r a b f = record {
    above = omega (arith, f.above);
    below = omega (arith, f.below);
    next = f.next;
    prev = f.prev;
  }

  IsPlaced-search :
      (info : AreaInfo) (mmap_end : ℕ)
      → Searches
      → task_unmapped_base ≤ info.low_limit
      → info.high_limit ≤ mmap_end
      → IsPlaced mmap_end info.length (space.vm_unmapped_area info)
  IsPlaced-search info mmap_end searches a b = elim (searches info) [
    | inl e ↦ inl e
    | inr f ↦ inr (
        IsFree-widen info.low_limit info.high_limit mmap_end info.length
          (space.vm_unmapped_area info) a b f)
  ]

  module _ (page_size mmap_end : ℕ) (above : task_unmapped_base ≤ mmap_end)
      (in_word : mmap_end < 2 ^ 64) where
    length_fits :
        (length : ℕ)
        → too_long space page_size length mmap_end ≡ false
        → length + task_unmapped_base ≤ mmap_end
    unfolding too_long mmap_floor
    length_fits length h = ground (arith, h)

    hint_fits-IsFree :
        (addr length : ℕ)
        → length + task_unmapped_base ≤ mmap_end
        → hint_fits space page_size addr length mmap_end ≡ true
        → IsFree task_unmapped_base mmap_end length addr
    unfolding hint_fits mmap_floor
    hint_fits-IsFree addr length l h = record {
      above = ground (arith, h);
      below = ground (arith, h);
      next = λ start e. ground (arith, h, e);
      prev = λ end_gap e. ground (arith, h, e);
    }

    -- The hint if it is usable, or else what the search returns.
    IsPlaced-hint :
        (given : Bool) (addr length searched : ℕ)
        → length + task_unmapped_base ≤ mmap_end
        → IsPlaced mmap_end length searched
        → IsPlaced mmap_end length
            (if given && hint_fits space page_size addr length mmap_end then addr else searched)
    IsPlaced-hint false addr length searched l p = p
    IsPlaced-hint true addr length searched l p =
        elim (Bool-cases (hint_fits space page_size addr length mmap_end)) [
          | inl fits ↦ rw fits (inr (hint_fits-IsFree addr length l fits))
          | inr no_fit ↦ rw no_fit p
        ]

    -- Every address that comes back is an error, or room for `length` bytes between the base of
    -- user memory and the end of the map that is clear of both neighbours, if the search of Linux
    -- keeps its promise and the map ends in a 64-bit address above the base.
    pub get_unmapped_area-IsPlaced :
        (r : Request)
        → space.mmap_end r.addr r.length r.flags ≡ mmap_end
        → Searches
        → IsPlaced mmap_end r.length (get_unmapped_area space page_size r)
    unfolding get_unmapped_area mmap_low_limit
    get_unmapped_area-IsPlaced r e searches =
        rw (get_unmapped_area, e)
          (elim (Bool-cases (too_long space page_size r.length mmap_end)) [
            | inl long ↦ rw long (inl (omega arith))
            | inr short ↦ rw short (
                IsPlaced-hint (not (r.addr == 0)) (page_align space page_size r.addr) r.length _
                  (length_fits r.length short)
                  (IsPlaced-search _ mmap_end searches (omega arith) (omega arith)))
          ])

    -- The same of the search from the top, where its base is not above the end of the map.
    pub get_unmapped_area_topdown-IsPlaced :
        (r : Request)
        → space.mmap_end r.addr r.length r.flags ≡ mmap_end
        → ((addr : ℕ) → space.topdown_base addr space.mmap_base ≤ mmap_end)
        → Searches
        → IsPlaced mmap_end r.length (get_unmapped_area_topdown space page_size r)
    unfolding get_unmapped_area_topdown
    get_unmapped_area_topdown-IsPlaced r e top searches =
        rw (get_unmapped_area_topdown, e)
          (elim (Bool-cases (too_long space page_size r.length mmap_end)) [
            | inl long ↦ rw long (inl (omega arith))
            | inr short ↦ rw short (
                IsPlaced-hint (not (r.addr == 0)) _ r.length _ (length_fits r.length short) (
                  if_both (IsPlaced mmap_end r.length) _ _ _
                    (IsPlaced-search _ mmap_end searches (omega arith) (top _))
                    (IsPlaced-search _ mmap_end searches (omega arith) (omega arith))))
          ])
