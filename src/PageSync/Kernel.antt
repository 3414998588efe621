-- ===== src/PageSync/Kernel.antt =====
-- The kernel's pages: `orlix_sync_kernel_page`, `orlix_sync_kernel_host_window` and their callers.
use orlix_system.Prelude.{ℕ, zero, suc, ◌+◌, ◌-◌, ◌*◌, ◌/◌, ◌^◌, ◌||◌, if◌then◌else◌, ltb, leb, u64}
use orlix_system.HostMemory.Space.{Mach}
use orlix_system.HostMemory.Kernel.{kernel_map_page, kernel_unmap_pages}
use orlix_system.PageTable.{vmalloc_start, vmalloc_end}
use orlix_system.PageSync.Linux.{
  Result, and_then, must, found, failed, is_enoent, efault, status_of, Linux, State, Window,
  source_of, kernel_pte_page,
}

-- `granule` is `arch_boot_host_page_size()`, a power of two.
abbrev pub host_window_start : ℕ → ℕ → ℕ
host_window_start granule address = address / granule * granule

abbrev pub host_window_end : ℕ → ℕ → ℕ
host_window_end granule start = u64 (start + granule)

-- The rounds of a loop `for (page = start; page < end; page += PAGE_SIZE)`, whose sum does not wrap:
-- the ends are below 2 ^ 64 - PAGE_SIZE.
abbrev pub rounds : ℕ → ℕ → ℕ → ℕ
rounds page_shift start end = (end - start + (2 ^ page_shift - 1)) / 2 ^ page_shift

-- `page_shift` is CONFIG_PAGE_SHIFT and `host_shift` the binary logarithm of the host's page size.
module _ (page_shift host_shift granule : ℕ) {W : Type 0} (mach : Mach W) (linux : Linux W) where
  abbrev pub map_kernel_window : Window → State W → Result × State W
  map_kernel_window window st =
      let (good, s) =
        kernel_map_page mach host_shift window.target (source_of page_shift window) window.length
          st.space in
      (status_of good, record st { space = s })

  unfoldable pub sync_kernel_page : ℕ → State W → Result × State W
  sync_kernel_page address st =
      let unmapped =
        kernel_unmap_pages mach host_shift (host_window_start granule address) granule st.space in
      elim (kernel_pte_page page_shift linux address st.space.world) [
        | failed e ↦ if is_enoent e then (Result.ok, record st { space = unmapped }) else (e, st)
        | found window ↦ map_kernel_window window st
      ]

  unfoldable pub sync_present_kernel_page : ℕ → State W → Result × State W
  sync_present_kernel_page address st =
      elim (kernel_pte_page page_shift linux address st.space.world) [
        | failed e ↦ if is_enoent e then (Result.ok, st) else (e, st)
        | found window ↦ map_kernel_window window st
      ]

  -- The loop of `orlix_sync_kernel_host_window`.
  unfoldable pub kernel_window_loop : ℕ → ℕ → State W → Result × State W
  kernel_window_loop zero page st = (Result.ok, st)
  kernel_window_loop (suc n) page st =
      and_then (sync_present_kernel_page page st)
        (λ st'. kernel_window_loop n (page + 2 ^ page_shift) st')

  unfoldable pub sync_kernel_host_window : ℕ → State W → Result × State W
  sync_kernel_host_window address st =
      let start = host_window_start granule address in
      let end = host_window_end granule start in
      let start' = if ltb start vmalloc_start then vmalloc_start else start in
      let end' = if ltb vmalloc_end end || ltb end start' then vmalloc_end else end in
      kernel_window_loop (rounds page_shift start' end') start' st

  unfoldable pub sync_hosted_kernel_pte : ℕ → State W → State W
  sync_hosted_kernel_pte address st =
      if ltb address vmalloc_start || leb vmalloc_end address
      then st
      else must (sync_kernel_host_window address st)

  unfoldable pub sync_hosted_kernel_fault : ℕ → State W → Result × State W
  sync_hosted_kernel_fault address st =
      if ltb address vmalloc_start || leb vmalloc_end address
      then (Result.err efault, st)
      else sync_kernel_host_window address st

  -- The loop of `arch_sync_kernel_mappings`, which `panic` ends.
  unfoldable pub kernel_mappings_loop : ℕ → ℕ → State W → Result × State W
  kernel_mappings_loop zero address st = (Result.ok, st)
  kernel_mappings_loop (suc n) address st =
      and_then (sync_kernel_page address st)
        (λ st'. kernel_mappings_loop n (address + 2 ^ page_shift) st')

  unfoldable pub sync_kernel_mappings : ℕ → ℕ → State W → State W
  sync_kernel_mappings start end st =
      must (kernel_mappings_loop (rounds page_shift start end) start st)
