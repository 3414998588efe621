-- ===== src/HostMemory/Kernel.antt =====
-- The mappings of kernel pages: a page is shared with its source, or copied where it cannot be.
pub mod Shadow
pub mod Frame
use orlix_system.Prelude.{
  ℕ, zero, suc, ◌+◌, ◌-◌, ◌%◌, ◌^◌, Bool, true, false, not, ◌&&◌, ◌||◌, Option, none, some, List,
  [], ◌∷◌, ltb, leb, ◌==◌, if◌then◌else◌, u64, get_elem?, set,
}
use orlix_system.Memory.{Memory}
use orlix_system.HostMemory.Space.{
  Segment, KernelMapping, Mach, Space, address_max, overlaps, page_size, page_start, page_end,
  unmap_pages,
}
use orlix_system.HostMemory.Copy.{memcpy, copy_back, remove_segments_in_range}

-- The loop of `OrlixHostKernelFindShadowMapping`
unfoldable pub kernel_find_from : List KernelMapping → ℕ → ℕ → Option ℕ
kernel_find_from [] target length = none
kernel_find_from (m ∷ rest) target length =
    if leb m.target target && leb (u64 (target + length)) (u64 (m.target + m.length))
    then some 0
    else elim (kernel_find_from rest target length) [ none ↦ none | some i ↦ some (suc i) ]

module _ {W : Type 0} (mach : Mach W) (page_shift : ℕ) where
  -- `target_address == 0 || end == 0 || end <= start`
  abbrev pub no_range : ℕ → ℕ → Bool
  no_range target length =
      target == 0
      || page_end page_shift target length == 0
      || leb (page_end page_shift target length) (page_start page_shift target)

  unfoldable pub kernel_find_shadow_mapping : List KernelMapping → ℕ → ℕ → Option ℕ
  kernel_find_shadow_mapping kernel target length =
      if no_range target length then none else kernel_find_from kernel target length

  -- The loop of `OrlixHostKernelUnmapShadowRange`.
  unfoldable pub kernel_unmap_loop :
      ℕ → ℕ → List KernelMapping → Memory → W → List KernelMapping × Memory × W
  kernel_unmap_loop start end [] mem w = ([], mem, w)
  kernel_unmap_loop start end (m ∷ rest) mem w =
      let (mem', w') = mach.vm_deallocate m.target m.length (copy_back m.segments mem) w in
      let removed = kernel_unmap_loop start end rest mem' w' in
      let others = kernel_unmap_loop start end rest mem w in
      if overlaps start end m.target m.length then removed else (m ∷ others.0, others.1, others.2)

  unfoldable pub kernel_unmap_shadow_range : ℕ → ℕ → Space W → Space W
  kernel_unmap_shadow_range target length s =
      let (kernel, mem, w) =
        kernel_unmap_loop (page_start page_shift target) (page_end page_shift target length)
          s.kernel s.mem s.world in
      if no_range target length then s else record s { kernel = kernel; mem = mem; world = w }

  -- With the range free: the pages and the record of a mapping.
  unfoldable pub allocate_shadow : ℕ → ℕ → Space W → Bool × Space W
  allocate_shadow start end s =
      let (good, mem, w) = mach.vm_allocate start (end - start) s.mem s.world in
      let (got, w') = mach.malloc w in
      let (mem', w'') = mach.vm_deallocate start (end - start) mem w' in
      let mapping : KernelMapping = record {
        target = start;
        length = end - start;
        segments = [];
      } in
      if not good
      then (false, record s { mem = mem; world = w })
      else if not got
      then (false, record s { mem = mem'; world = w'' })
      else (true, record s { mem = mem; world = w'; kernel = mapping ∷ s.kernel })

  -- The mapping that it makes is the first of the list.
  unfoldable pub kernel_create_shadow_mapping : ℕ → ℕ → Space W → Bool × Space W
  kernel_create_shadow_mapping target length s =
      let start = page_start page_shift target in
      let end = page_end page_shift target length in
      let freed =
        unmap_pages page_shift mach start (end - start)
          (kernel_unmap_shadow_range start (end - start) s) in
      if no_range target length then (false, s) else allocate_shadow start end freed

  -- The rest of `OrlixHostMapShadowKernelPage`, with the mapping `m` of index `i`.
  unfoldable pub fill_shadow : ℕ → KernelMapping → ℕ → ℕ → ℕ → Space W → Bool × Space W
  fill_shadow i m target source length s =
      let (kept, mem) = remove_segments_in_range (λ seg. true) target length m.segments s.mem in
      let place = u64 (m.target + u64 (target + 2 ^ 64 - m.target)) in
      let mem' = memcpy place source length mem in
      let (got, w) = mach.malloc s.world in
      let segment : Segment = record { target = target; source = source; length = length } in
      let segments = if got then segment ∷ kept else kept in
      (
        got,
        record s {
          mem = mem';
          world = w;
          kernel = set s.kernel i (record m { segments = segments });
        },
      )

  unfoldable pub kernel_find_or_create : ℕ → ℕ → Space W → Option ℕ × Space W
  kernel_find_or_create target length s =
      let (good, s') = kernel_create_shadow_mapping target length s in
      elim (kernel_find_shadow_mapping s.kernel target length) [
        | some i ↦ (some i, s)
        | none ↦ ((if good then some 0 else none), s')
      ]

  unfoldable pub map_shadow_kernel_page : ℕ → ℕ → ℕ → Space W → Bool × Space W
  map_shadow_kernel_page target source length s =
      let (found, s') = kernel_find_or_create target length s in
      let filled : Bool × Space W = elim found [
        | none ↦ (false, s')
        | some i ↦ elim (get_elem? s'.kernel i) [
          | none ↦ (false, s')
          | some m ↦ fill_shadow i m target source length s'
        ]
      ] in
      if target == 0 || source == 0 || length == 0 || ltb (address_max - length) target
      then (false, s)
      else filled

  -- `OrlixHostMapPageWithProtection` with VM_PROT_NONE, as it is called.
  unfoldable pub map_page_with_protection : ℕ → ℕ → ℕ → Space W → Bool × Space W
  map_page_with_protection target source length s =
      let (good, mem, w) = mach.vm_remap target source length s.mem s.world in
      if target == 0 || source == 0 || length == 0
      then (false, s)
      else (good, record s { mem = mem; world = w })

  unfoldable pub kernel_requires_shadow_mapping : ℕ → ℕ → ℕ → Bool
  kernel_requires_shadow_mapping target source length =
      not (length == page_size page_shift)
      || not (target % page_size page_shift == 0)
      || not (source % page_size page_shift == 0)

  unfoldable pub kernel_map_page : ℕ → ℕ → ℕ → Space W → Bool × Space W
  kernel_map_page target source length s =
      let shadow = map_shadow_kernel_page target source length s in
      let direct = map_page_with_protection target source length s in
      let has_shadow : Bool = elim (kernel_find_shadow_mapping s.kernel target length) [
        | none ↦ false
        | some i ↦ true
      ] in
      let fallback = map_shadow_kernel_page target source length direct.1 in
      if kernel_requires_shadow_mapping target source length || has_shadow
      then shadow
      else if direct.0
      then direct
      else fallback

  unfoldable pub kernel_unmap_pages : ℕ → ℕ → Space W → Space W
  kernel_unmap_pages target length s =
      unmap_pages page_shift mach target length (kernel_unmap_shadow_range target length s)
