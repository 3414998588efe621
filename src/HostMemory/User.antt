-- ===== src/HostMemory/User.antt =====
-- The mappings of user pages: finding, creating and removing a mapping, and copying a page into it.
-- A mapping that the source points to is given by its index in the list.
pub mod Window
pub mod Unmap
pub mod Valid
pub mod Page
pub mod Refresh
pub mod Calls
pub mod Sync
use orlix_system.Prelude.{
  ℕ, zero, suc, ◌+◌, ◌-◌, ◌^◌, Bool, true, false, not, ◌&&◌, ◌||◌, Option, none, some, List, [],
  ◌∷◌, ltb, leb, ◌==◌, if◌then◌else◌, bit_and, bit_or, u64, get_elem?, set,
}
use orlix_system.Memory.{Memory}
use orlix_system.HostMemory.Space.{
  Segment, UserMapping, Mach, Space, prot_read, prot_write, prot_execute, address_max, overlaps,
  page_start, page_end, unmap_pages,
}
use orlix_system.HostMemory.Copy.{
  memcpy, copy_back, remove_segments_in_range, translate_linux_syscalls,
}

abbrev pub same_flag : Bool → Bool → Bool
same_flag true b = b
same_flag false b = not b

-- The test of a mapping in `OrlixHostUserFindMapping` and `OrlixHostUserMappingMatches`.
abbrev pub serves : ℕ → ℕ → ℕ → Bool → UserMapping → Bool
serves target length protection writable m =
    leb m.target target
    && leb (u64 (target + length)) (u64 (m.target + m.length))
    && m.protection == protection
    && same_flag m.writable writable

abbrev pub same_segment : ℕ → ℕ → ℕ → Segment → Bool
same_segment target source length s = s.target == target && s.source == source && s.length == length

unfoldable pub has_segment : (Segment → Bool) → List Segment → Bool
has_segment p [] = false
has_segment p (s ∷ rest) = p s || has_segment p rest

unfoldable pub user_mapping_matches : List UserMapping → ℕ → ℕ → ℕ → ℕ → Bool → Bool
unfolding has_segment
user_mapping_matches [] target source length protection writable = false
user_mapping_matches (m ∷ rest) target source length protection writable =
    (serves target length protection writable m
      && has_segment (same_segment target source length) m.segments)
    || user_mapping_matches rest target source length protection writable

unfoldable pub user_find_mapping : List UserMapping → ℕ → ℕ → ℕ → Bool → Option ℕ
user_find_mapping [] target length protection writable = none
user_find_mapping (m ∷ rest) target length protection writable =
    if serves target length protection writable m
    then some 0
    else elim (user_find_mapping rest target length protection writable) [
      | none ↦ none
      | some i ↦ some (suc i)
    ]

-- `OrlixHostUserCopyBackMapping`
unfoldable pub user_copy_back : UserMapping → Memory → Memory
user_copy_back m mem = if m.writable then copy_back m.segments mem else mem

abbrev pub new_mapping : ℕ → ℕ → ℕ → Bool → UserMapping
new_mapping start end protection writable = record {
  target = start;
  length = end - start;
  protection = protection;
  writable = writable;
  segments = [];
}

-- `mapping->target_address + offset`
abbrev pub place : UserMapping → ℕ → ℕ
place m target = u64 (m.target + u64 (target + 2 ^ 64 - m.target))

abbrev pub protection_of : Bool → Bool → ℕ
protection_of writable executable =
    prot_read + (if writable then prot_write else 0) + (if executable then prot_execute else 0)

-- The loop of `orlix_host_user_sync_writable_mappings`.
unfoldable pub sync_loop : List UserMapping → Memory → Memory
sync_loop [] mem = mem
sync_loop (m ∷ rest) mem = sync_loop rest (user_copy_back m mem)

unfoldable pub user_sync_writable_mappings : {W : Type 0} → Space W → Space W
user_sync_writable_mappings s = record s { mem = sync_loop s.user s.mem }

module _ {W : Type 0} (mach : Mach W) (page_shift : ℕ) where
  -- The loop of `OrlixHostUserUnmapMappedRange`.
  unfoldable pub user_unmap_loop :
      ℕ → ℕ → List UserMapping → Memory → W → List UserMapping × Memory × W
  user_unmap_loop start end [] mem w = ([], mem, w)
  user_unmap_loop start end (m ∷ rest) mem w =
      let (mem', w') = mach.vm_deallocate m.target m.length (user_copy_back m mem) w in
      let removed = user_unmap_loop start end rest mem' w' in
      let others = user_unmap_loop start end rest mem w in
      if overlaps start end m.target m.length then removed else (m ∷ others.0, others.1, others.2)

  unfoldable pub user_unmap_mapped_range : ℕ → ℕ → Space W → Space W
  user_unmap_mapped_range target length s =
      let start = page_start page_shift target in
      let end = page_end page_shift target length in
      let (user, mem, w) = user_unmap_loop start end s.user s.mem s.world in
      if target == 0 || end == 0 || leb end start
      then s
      else record s { user = user; mem = mem; world = w }

  -- With the range free: the pages and the record of a mapping.
  unfoldable pub allocate_mapping : ℕ → ℕ → ℕ → Bool → Space W → Bool × Space W
  allocate_mapping start end protection writable s =
      let (good, mem, w) = mach.vm_allocate start (end - start) s.mem s.world in
      let (got, w') = mach.malloc w in
      let (mem', w'') = mach.vm_deallocate start (end - start) mem w' in
      if not good
      then (false, record s { mem = mem; world = w })
      else if not got
      then (false, record s { mem = mem'; world = w'' })
      else (
        true,
        record s {
          mem = mem;
          world = w';
          user = new_mapping start end protection writable ∷ s.user;
        },
      )

  -- The mapping that it makes is the first of the list.
  unfoldable pub user_create_mapping : ℕ → ℕ → ℕ → Bool → Space W → Bool × Space W
  user_create_mapping target length protection writable s =
      let start = page_start page_shift target in
      let end = page_end page_shift target length in
      let freed =
        unmap_pages page_shift mach start (end - start)
          (user_unmap_mapped_range start (end - start) s) in
      if target == 0 || end == 0 || leb end start
      then (false, s)
      else allocate_mapping start end protection writable freed

  unfoldable pub find_or_create : ℕ → ℕ → ℕ → Bool → Space W → Option ℕ × Space W
  find_or_create target length protection writable s =
      elim (user_find_mapping s.user target length protection writable) [
        | some i ↦ (some i, s)
        | none ↦
            let (good, s') = user_create_mapping target length protection writable s in
            ((if good then some 0 else none), s')
      ]

  -- The rest of `OrlixHostMapShadowUserPages`, from the first `vm_protect` on, with the mapping `m`
  -- of index `i`.
  unfoldable pub fill_mapping :
      ℕ → UserMapping → ℕ → ℕ → ℕ → ℕ → Bool → Bool → Bool → Space W → Bool × Space W
  fill_mapping i m target source length protection executable translates copies s =
      let (opened, w) = mach.vm_protect m.target m.length (prot_read + prot_write) s.world in
      let (kept, mem) =
        remove_segments_in_range (λ seg. copies && m.writable && not (seg.source == 0)) target
          length m.segments s.mem in
      let copied = memcpy (place m target) source length mem in
      let mem' =
        if executable && translates
        then translate_linux_syscalls (place m target) length copied
        else copied in
      let (got, w') = mach.malloc w in
      let (closed, w'') = mach.vm_protect m.target m.length protection w' in
      let segment : Segment = record { target = target; source = source; length = length } in
      if not opened
      then (false, record s { world = w })
      else if not got
      then (
        false,
        record s { mem = mem'; world = w'; user = set s.user i (record m { segments = kept }) },
      )
      else (
        closed,
        record s {
          mem = mem';
          world = w'';
          user = set s.user i (record m { segments = segment ∷ kept });
        },
      )

  -- True where the source returns 0.
  unfoldable pub map_shadow_user_pages :
      ℕ → ℕ → ℕ → ℕ → Bool → Bool → Bool → Space W → Bool × Space W
  map_shadow_user_pages target source length protection executable translates copies s =
      let (found, s') =
        find_or_create target length protection (not (bit_and protection prot_write == 0)) s in
      let filled : Bool × Space W = elim found [
        | none ↦ (false, s')
        | some i ↦ elim (get_elem? s'.user i) [
          | none ↦ (false, s')
          | some m ↦
              fill_mapping i m target source length protection executable translates copies s'
        ]
      ] in
      if target == 0 || source == 0 || length == 0 || ltb (address_max - length) target
      then (false, s)
      else filled

  unfoldable pub user_map_page : ℕ → ℕ → ℕ → Bool → Bool → Space W → Bool × Space W
  user_map_page target source length writable executable s =
      let protection = protection_of writable executable in
      let mapped = map_shadow_user_pages target source length protection executable true true s in
      if not executable && user_mapping_matches s.user target source length protection writable
      then (true, s)
      else mapped

  unfoldable pub user_map_trusted_executable_page : ℕ → ℕ → ℕ → Space W → Bool × Space W
  user_map_trusted_executable_page target source length s =
      map_shadow_user_pages target source length (prot_read + prot_execute) true false true s

  unfoldable pub user_refresh_page : ℕ → ℕ → ℕ → Bool → Bool → Space W → Bool × Space W
  user_refresh_page target source length writable executable s =
      map_shadow_user_pages target source length (protection_of writable executable) executable true
        false s

  unfoldable pub user_unmap_pages : ℕ → ℕ → Space W → Space W
  user_unmap_pages target length s =
      unmap_pages page_shift mach target length (user_unmap_mapped_range target length s)
