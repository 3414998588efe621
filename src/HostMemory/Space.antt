-- ===== src/HostMemory/Space.antt =====
-- The state of kernel_mapping.c, what it calls of the host, and its page arithmetic. Addresses and
-- lengths are 64-bit, and a list's head is the head of the source's linked list.
use orlix_system.Prelude.{
  ℕ, ◌+◌, ◌-◌, ◌*◌, ◌/◌, ◌^◌, Bool, not, ◌||◌, ◌&&◌, Option, List, ltb, ◌==◌, if◌then◌else◌, u64,
}
use orlix_system.Memory.{Memory}

-- `struct OrlixHostKernelShadowSegment`: `length` bytes at `target` that are a copy of those at
-- `source`, which is 0 for a null pointer.
pub record Segment : Type 0 where
  pub target : ℕ
  pub source : ℕ
  pub length : ℕ

-- `struct OrlixHostUserMapping`
pub record UserMapping : Type 0 where
  pub target : ℕ
  pub length : ℕ
  pub protection : ℕ
  pub writable : Bool
  pub segments : List Segment

-- `struct OrlixHostKernelShadowMapping`
pub record KernelMapping : Type 0 where
  pub target : ℕ
  pub length : ℕ
  pub segments : List Segment

-- `struct OrlixHostIOMapping`
pub record IoMapping : Type 0 where
  pub address : ℕ
  pub physical_address : ℕ
  pub length : ℕ

-- The calls of Mach and of the C library; `W` is their state, and true stands for success.
-- `vm_allocate` and `vm_remap` are the calls at a fixed address, with the test that the address is
-- the one asked for, `vm_allocate_anywhere` is the call that chooses one, and `malloc` says whether
-- there is memory for a record. The first three may change memory in the range that they are given.
-- What `vm_remap` shares is not seen in `Memory`: its pages are the kernel's, and nothing here reads
-- or writes them afterwards.
pub record Mach (W : Type 0) : Type 0 where
  pub vm_allocate : ℕ → ℕ → Memory → W → Bool × Memory × W
  pub vm_deallocate : ℕ → ℕ → Memory → W → Memory × W
  pub vm_remap : ℕ → ℕ → ℕ → Memory → W → Bool × Memory × W
  pub vm_allocate_anywhere : ℕ → W → Option ℕ × W
  pub vm_protect : ℕ → ℕ → ℕ → W → Bool × W
  pub malloc : W → Bool × W

pub record Space (W : Type 0) : Type 0 where
  pub mem : Memory
  pub world : W
  pub user : List UserMapping
  pub kernel : List KernelMapping
  pub io : List IoMapping

-- VM_PROT_READ, VM_PROT_WRITE and VM_PROT_EXECUTE
abbrev pub prot_read : ℕ
prot_read = 1

abbrev pub prot_write : ℕ
prot_write = 2

abbrev pub prot_execute : ℕ
prot_execute = 4

-- `(unsigned long)-1`
abbrev pub address_max : ℕ
address_max = 2 ^ 64 - 1

-- `target_address < segment_end && segment->target_address < end`, where the end is a sum that wraps.
abbrev pub overlaps : ℕ → ℕ → ℕ → ℕ → Bool
overlaps start end target length = ltb start (u64 (target + length)) && ltb target end

-- `page_shift` is the binary logarithm of `vm_page_size`.
module _ (page_shift : ℕ) where
  abbrev pub page_size : ℕ
  page_size = 2 ^ page_shift

  unfoldable pub round_page_length : ℕ → ℕ
  round_page_length requested =
      if requested == 0 || ltb (address_max - (page_size - 1)) requested
      then 0
      else (requested + page_size - 1) / page_size * page_size

  unfoldable pub page_start : ℕ → ℕ
  page_start address = address / page_size * page_size

  unfoldable pub page_end : ℕ → ℕ → ℕ
  page_end address length =
      if length == 0 || ltb (address_max - length) address
      then 0
      else let end = address + length in
        if ltb (address_max - (page_size - 1)) end
        then 0
        else (end + page_size - 1) / page_size * page_size

  -- `OrlixHostUnmapPages`
  unfoldable pub unmap_pages : {W : Type 0} → Mach W → ℕ → ℕ → Space W → Space W
  unfolding page_start page_end
  unmap_pages mach target length s =
      let start = page_start target in
      let end = page_end target length in
      let (m, w) = mach.vm_deallocate start (end - start) s.mem s.world in
      if target == 0 || length == 0 || end == 0 || not (ltb start end)
      then s
      else record s { mem = m; world = w }
