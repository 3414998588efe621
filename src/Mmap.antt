-- ===== src/Mmap.antt =====
-- OrlixKernel/Sources/ports/orlix/overlay/arch/orlix/mm/mmap.c in the hosted build
-- (ORLIX_APP_HOSTED_BOOT): where a mapping goes, and the alignment that the host's page size asks
-- for. Addresses are 64-bit; an error is the number that the source returns.
pub mod Hint
mod Tests
use orlix_system.Prelude.{
  ℕ, ◌+◌, ◌-◌, ◌*◌, ◌/◌, ◌%◌, ◌^◌, Bool, true, false, not, ◌&&◌, ◌||◌, Option, none, some, ltb, leb,
  ◌==◌, if◌then◌else◌, bit_and, u64, max,
}

-- MAP_FIXED, and VM_ACCESS_FLAGS, the read, write and execute bits.
abbrev pub map_fixed : ℕ
map_fixed = 0x10

abbrev pub vm_access_flags : ℕ
vm_access_flags = 7

-- `(unsigned long)-ENOMEM`
abbrev pub enomem : ℕ
enomem = 2 ^ 64 - 12

-- ORLIX_HOSTED_USER_BASE, which TASK_UNMAPPED_BASE is in the hosted build.
abbrev pub task_unmapped_base : ℕ
task_unmapped_base = 0x0000600000000000

-- A request: `file` says that there is one, `length` is `len`.
pub record Request : Type 0 where
  pub file : Bool
  pub addr : ℕ
  pub length : ℕ
  pub flags : ℕ
  pub vm_flags : ℕ

-- `struct vm_unmapped_area_info`
pub record AreaInfo : Type 0 where
  pub topdown : Bool
  pub length : ℕ
  pub low_limit : ℕ
  pub high_limit : ℕ
  pub align_mask : ℕ
  pub align_offset : ℕ

-- What mmap.c asks of Linux and of the boot code, for the current task: `arch_boot_host_page_size`,
-- `mm->mmap_base`, `arch_get_mmap_end`, `arch_get_mmap_base`, `find_vma_prev` as the start of the
-- next area with its gap and the end of the one before with its gap, and `vm_unmapped_area`.
pub record AddressSpace : Type 0 where
  pub host_page_size : ℕ
  pub mmap_base : ℕ
  pub mmap_end : ℕ → ℕ → ℕ → ℕ
  pub topdown_base : ℕ → ℕ → ℕ
  pub next_start_gap : ℕ → Option ℕ
  pub prev_end_gap : ℕ → Option ℕ
  pub vm_unmapped_area : AreaInfo → ℕ

unfoldable pub hosted_prot_none_reservation : Request → Bool
hosted_prot_none_reservation r =
    not r.file && bit_and r.flags map_fixed == 0 && bit_and r.vm_flags vm_access_flags == 0

module _ (space : AddressSpace) (page_size : ℕ) where
  unfoldable pub hosted_mmap_align_mask : Request → ℕ
  unfolding hosted_prot_none_reservation
  hosted_mmap_align_mask r =
      if leb space.host_page_size page_size || not (hosted_prot_none_reservation r)
      then 0
      else space.host_page_size - 1

  unfoldable pub hosted_mmap_align_offset : Request → ℕ
  hosted_mmap_align_offset r =
      let mask = hosted_mmap_align_mask r in
      if mask == 0 then 0 else bit_and (u64 (mask + 1 + 2 ^ 64 - page_size)) mask

  unfoldable pub mmap_low_limit : ℕ
  mmap_low_limit = max space.mmap_base task_unmapped_base

  unfoldable pub mmap_floor : ℕ
  mmap_floor = task_unmapped_base

  -- `PAGE_ALIGN`
  abbrev pub page_align : ℕ → ℕ
  page_align a = u64 (a + (page_size - 1)) / page_size * page_size

  abbrev no_next_overlap : ℕ → ℕ → Bool
  no_next_overlap addr length = elim (space.next_start_gap addr) [
    | none ↦ true
    | some start ↦ leb (u64 (addr + length)) start
  ]

  abbrev no_prev_overlap : ℕ → Bool
  no_prev_overlap addr = elim (space.prev_end_gap addr) [
    | none ↦ true
    | some end_gap ↦ leb end_gap addr
  ]

  -- The test of an address that the caller asks for, after `PAGE_ALIGN`.
  unfoldable pub hint_fits : ℕ → ℕ → ℕ → Bool
  hint_fits addr length mmap_end =
      leb addr (mmap_end - length)
      && leb mmap_floor addr
      && no_next_overlap addr length
      && no_prev_overlap addr

  -- The length test before it: `len > mmap_end - mmap_floor`, on 64-bit numbers.
  unfoldable pub too_long : ℕ → ℕ → Bool
  too_long length mmap_end = ltb (u64 (mmap_end + 2 ^ 64 - mmap_floor)) length

  unfoldable pub get_unmapped_area : Request → ℕ
  get_unmapped_area r =
      let mmap_end = space.mmap_end r.addr r.length r.flags in
      let searched = space.vm_unmapped_area (record {
        topdown = false;
        length = r.length;
        low_limit = mmap_low_limit;
        high_limit = mmap_end;
        align_mask = hosted_mmap_align_mask r;
        align_offset = hosted_mmap_align_offset r;
      }) in
      if too_long r.length mmap_end
      then enomem
      else if not (r.addr == 0) && hint_fits (page_align r.addr) r.length mmap_end
      then page_align r.addr
      else searched

  -- `addr` has been aligned when `arch_get_mmap_base` is called with it.
  unfoldable pub get_unmapped_area_topdown : Request → ℕ
  get_unmapped_area_topdown r =
      let mmap_end = space.mmap_end r.addr r.length r.flags in
      let addr = if r.addr == 0 then r.addr else page_align r.addr in
      let info : AreaInfo = record {
        topdown = true;
        length = r.length;
        low_limit = task_unmapped_base;
        high_limit = space.topdown_base addr space.mmap_base;
        align_mask = hosted_mmap_align_mask r;
        align_offset = hosted_mmap_align_offset r;
      } in
      let result = space.vm_unmapped_area info in
      let again =
        space.vm_unmapped_area (record info {
          topdown = false;
          low_limit = task_unmapped_base;
          high_limit = mmap_end;
        }) in
      if too_long r.length mmap_end
      then enomem
      else if not (r.addr == 0) && hint_fits addr r.length mmap_end
      then addr
      else if result % page_size == 0
      then result
      else again
