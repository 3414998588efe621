-- ===== src/PageSync/Entry.antt =====
-- What the kernel's entry and fault code calls for the current task, with the page of the syscall gate
-- of kernel/hosted_exec.c.
use orlix_system.Prelude.{
  ℕ, zero, suc, ◌+◌, ◌-◌, ◌*◌, ◌/◌, ◌^◌, true, not, ◌||◌, none, some, if◌then◌else◌, ltb, leb, ◌==◌,
  u64, bit_and, max,
}
use orlix_system.Memory.{Memory, store}
use orlix_system.HostMemory.Space.{Mach}
use orlix_system.HostMemory.User.{user_map_trusted_executable_page}
use orlix_system.PageSync.Linux.{
  Result, and_then, must, einval, status_of, task_size, Linux, State, lock, unlock, panic, page_of,
}
use orlix_system.PageSync.Kernel.{host_window_start, rounds}
use orlix_system.PageSync.User.{
  sync_user_host_window, refresh_user_pte_page, refresh_user_pte_page_from_kernel,
}

-- Of `struct pt_regs`.
pub record Regs : Type 0 where
  pub pc : ℕ
  pub sp : ℕ

-- ORLIX_HOST_USER_FAULT_BUS
abbrev pub fault_bus : ℕ
fault_bus = 4

-- ORLIX_HOSTED_SYSCALL_GATE
abbrev pub gate_address : ℕ
gate_address = 0x00006ffff0000000

-- ORLIX_HOSTED_STACK_ENTRY_WINDOW_PAGES
abbrev pub stack_entry_window_pages : ℕ
stack_entry_window_pages = 16

-- ORLIX_HOST_USER_TRAP_TLS_RESUME_OFFSET
abbrev pub tls_resume_offset : ℕ
tls_resume_offset = 16

-- A step that is not made after a panic.
abbrev pub unless_panicked : {W : Type 0} → (State W → State W) → State W → State W
unless_panicked f st = if st.panicked then st else f st

-- `orlix_hosted_prepare_syscall_gate` on the page at `gate_page`; `handler` is
-- `orlix_hosted_syscall_gate`.
unfoldable pub prepare_syscall_gate : ℕ → ℕ → Memory → Memory
prepare_syscall_gate gate_page handler m =
    let jump =
      store 8 (store 4 (store 4 m gate_page 0x58000050) (gate_page + 4) 0xd61f0200) (gate_page + 8)
        handler in
    let resume = gate_page + tls_resume_offset in
    store 4 (store 4 (store 4 jump resume 0xd51bd050) (resume + 4) 0xd5033fdf) (resume + 8)
      0xd61f0220

module _ {W : Type 0} (linux : Linux W) (page_shift fuel : ℕ) (mach : Mach W)
    (host_shift granule gate_page handler : ℕ) where
  abbrev pub sync_window : ℕ → State W → Result × State W
  sync_window page st = sync_user_host_window linux page_shift fuel mach host_shift granule page st

  unfoldable pub sync_syscall_gate : State W → Result × State W
  sync_syscall_gate st =
      let mem =
        if st.gate_ready
        then st.space.mem
        else prepare_syscall_gate gate_page handler st.space.mem in
      let (good, s) =
        user_map_trusted_executable_page mach host_shift gate_address gate_page (2 ^ page_shift)
          (record (st.space) { mem = mem }) in
      (status_of good, record st { space = s; gate_ready = true })

  unfoldable pub sync_current_user_mapping_page : ℕ → State W → Result × State W
  sync_current_user_mapping_page address st =
      let page = page_of page_shift address in
      if not (linux.has_mm st.space.world)
      then (Result.err einval, st)
      else if page == 0 || leb task_size page
      then (Result.ok, st)
      else sync_window page st

  unfoldable pub refresh_current_user_mapping_page : ℕ → State W → Result × State W
  refresh_current_user_mapping_page address st =
      let page = page_of page_shift address in
      if not (linux.has_mm st.space.world)
      then (Result.err einval, st)
      else if page == 0 || leb task_size page
      then (Result.ok, st)
      else refresh_user_pte_page linux page_shift fuel mach host_shift granule page st

  unfoldable pub refresh_current_user_mapping_page_from_kernel : ℕ → ℕ → State W → Result × State W
  refresh_current_user_mapping_page_from_kernel address source st =
      let page = page_of page_shift address in
      if not (linux.has_mm st.space.world)
      then (Result.err einval, st)
      else if page == 0 || leb task_size page
      then (Result.ok, st)
      else refresh_user_pte_page_from_kernel linux page_shift fuel mach host_shift granule page
          source st

  -- The loop of `orlix_sync_current_user_stack_window`, which goes on after a failure.
  unfoldable pub stack_window_loop : ℕ → ℕ → State W → State W
  stack_window_loop zero page st = st
  stack_window_loop (suc n) page st =
      stack_window_loop n (page + 2 ^ page_shift) (sync_window page st).1

  unfoldable pub sync_current_user_stack_window : ℕ → ℕ → State W → State W
  sync_current_user_stack_window start end st =
      let end' = if ltb task_size end then task_size else end in
      if start == 0 || leb task_size start || leb end start
      then st
      else stack_window_loop (rounds page_shift start end') start st

  -- `stack_access_page`
  abbrev pub stack_access_page : ℕ → ℕ
  stack_access_page sp = if sp == 0 then 0 else page_of page_shift (sp - 1)

  -- The stack pages of `orlix_sync_current_user_mappings` before entry.
  unfoldable pub sync_stack_pages : ℕ → State W → State W
  sync_stack_pages sp st =
      let access = stack_access_page sp in
      let sp_page = page_of page_shift sp in
      let end = u64 (sp_page + (stack_entry_window_pages + 1) * 2 ^ page_shift) in
      let end' = if ltb task_size end || ltb end sp_page then task_size else end in
      let span = stack_entry_window_pages * 2 ^ page_shift in
      let start = if ltb span access then access - span else access in
      if access == 0 then st else sync_current_user_stack_window start end' st

  -- What `orlix_sync_current_user_mappings` and its minimal version share: the page of the program
  -- counter, with `stack` for the stack window, the pages of the stack pointer, and the gate.
  unfoldable pub sync_mappings : (State W → State W) → Regs → State W → State W
  sync_mappings stack regs st =
      let access = stack_access_page regs.sp in
      let sp_page = page_of page_shift regs.sp in
      let pc_synced =
        if regs.pc == 0 || leb task_size regs.pc
        then st
        else must (sync_current_user_mapping_page regs.pc st) in
      let rest = λ (s : State W).
        let accessed = if access == 0 then stack s else (sync_window access (stack s)).1 in
        let pointed = if sp_page == access then accessed else (sync_window sp_page accessed).1 in
        must (sync_syscall_gate pointed) in
      if not (linux.has_mm st.space.world) then panic st else unless_panicked rest pc_synced

  unfoldable pub sync_current_user_mappings : Regs → State W → State W
  sync_current_user_mappings regs st = sync_mappings (sync_stack_pages regs.sp) regs st

  unfoldable pub sync_current_user_minimal_mappings : Regs → State W → State W
  sync_current_user_minimal_mappings regs st = sync_mappings (λ s. s) regs st

  -- The loop of `orlix_sync_current_user_fault_window`, which leaves out the host's page of `page`.
  unfoldable pub fault_window_loop : ℕ → ℕ → ℕ → State W → State W
  fault_window_loop zero page current st = st
  fault_window_loop (suc n) page current st = fault_window_loop n page (current + 2 ^ page_shift) (
      if host_window_start granule current == host_window_start granule page
      then st
      else (sync_window current st).1)

  -- From the window's bounds on, in a mapping from `start` to `end`.
  unfoldable pub sync_fault_pages : ℕ → ℕ → ℕ → State W → Result × State W
  sync_fault_pages page start end st =
      let pages = max 1 (granule / 2 ^ page_shift) in
      let half = pages / 2 * 2 ^ page_shift in
      let first = if ltb (u64 (start + half)) page then page - half else start in
      let last = u64 (first + pages * 2 ^ page_shift) in
      let last' = if ltb end last || ltb last first then end else last in
      and_then (sync_window page st)
        (λ st'. (Result.ok, fault_window_loop (rounds page_shift first last') page first st'))

  unfoldable pub sync_current_user_fault_window : ℕ → ℕ → State W → Result × State W
  sync_current_user_fault_window address fault_flags st =
      let locked = lock st in
      let around : Result × State W = elim (linux.vma_lookup address locked.space.world) [
        | none ↦ sync_current_user_mapping_page address (unlock locked)
        | some vma ↦
            if vma.vm_start == 0 || leb vma.vm_end vma.vm_start
            then sync_current_user_mapping_page address (unlock locked)
            else sync_fault_pages (page_of page_shift address) vma.vm_start vma.vm_end
                (unlock locked)
      ] in
      if address == 0 || leb task_size address
      then (Result.ok, st)
      else if not (linux.has_mm st.space.world)
      then (Result.err einval, st)
      else if not (bit_and fault_flags fault_bus == 0)
      then sync_current_user_mapping_page address st
      else around
