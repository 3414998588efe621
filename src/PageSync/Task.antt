-- ===== src/PageSync/Task.antt =====
-- What init.c does for the current task keeps the mmap lock balanced and the user mappings in order.
use orlix_system.Prelude.{
  arith, ℕ, zero, suc, ◌+◌, ◌-◌, ◌*◌, ◌/◌, ◌%◌, ◌^◌, ◌≡◌, Bool, true, false, not, ◌||◌,
  if◌then◌else◌, Bool-cases, Option-cases, inl, inr, ◌==◌, ltb, leb, if_both, bit_and, u64, max,
}
use orlix_system.HostMemory.Space.{Mach}
use orlix_system.HostMemory.User.Valid.{KeepsNull}
use orlix_system.HostMemory.User.Calls.{Call}
use orlix_system.PageSync.Linux.{
  lock, unlock, Result, must, einval, task_size, Linux, State, panic, page_of,
}
use orlix_system.PageSync.Steps.{Documented, Holds}
use orlix_system.PageSync.Kernel.{rounds, host_window_start}
use orlix_system.PageSync.Entry.{
  Regs, fault_bus, gate_address, prepare_syscall_gate, sync_window, sync_syscall_gate,
  sync_current_user_mapping_page, refresh_current_user_mapping_page,
  refresh_current_user_mapping_page_from_kernel, stack_window_loop, sync_current_user_stack_window,
  stack_access_page, sync_stack_pages, sync_mappings, fault_window_loop, sync_fault_pages,
  sync_current_user_fault_window,
}
use orlix_system.PageSync.Valid.{must-Holds, and_then-Holds}
use orlix_system.PageSync.Valid.User.{
  sync_user_host_window-Holds, refresh_user_pte_page-Holds, refresh_from_kernel-Holds, call-Holds,
}

module _ {W : Type 0} (linux : Linux W) (page_shift fuel : ℕ) (mach : Mach W)
    (host_shift granule gate_page handler : ℕ) (word : 2 ^ 64 % 2 ^ host_shift ≡ 0)
    (null : KeepsNull mach) (documented : Documented linux mach host_shift) (n : ℕ) where
  abbrev pub Keeps : (State W → State W) → Type 0
  Keeps f = (st : State W) → Holds host_shift n st → Holds host_shift n (f st)

  abbrev HoldsResult : Result × State W → Type 0
  HoldsResult r = Holds host_shift n r.1

  window-Keeps :
      (page : ℕ)
      → Keeps (λ st.
        (sync_window linux page_shift fuel mach host_shift granule gate_page handler page st).1)
  window-Keeps page st h =
      sync_user_host_window-Holds linux page_shift fuel mach host_shift granule word null documented
        n page st h

  pub gate-Keeps : Keeps (λ st.
      (sync_syscall_gate linux page_shift fuel mach host_shift granule gate_page handler st).1)
  unfolding sync_syscall_gate
  gate-Keeps st h =
      let mem =
        if st.gate_ready
        then st.space.mem
        else prepare_syscall_gate gate_page handler st.space.mem in
      let made =
        call-Holds linux page_shift fuel mach host_shift granule word null documented n
          (Call.map_trusted_executable_page gate_address gate_page (2 ^ page_shift))
          (record st { space = record (st.space) { mem = mem } }) tt
          (record { locks = h.locks; valid = h.valid }) in
      record { locks = made.locks; valid = made.valid }

  -- The guards that the calls for the current task share.
  current-Keeps :
      (no_mm outside : Bool) (st : State W) (r : Result × State W)
      → Holds host_shift n st
      → HoldsResult r
      → HoldsResult
          (if no_mm then (Result.err einval, st) else if outside then (Result.ok, st) else r)
  current-Keeps true outside st r h k = h
  current-Keeps false true st r h k = h
  current-Keeps false false st r h k = k

  pub mapping_page-Keeps :
      (a : ℕ)
      → Keeps (λ st.
        (sync_current_user_mapping_page linux page_shift fuel mach host_shift granule gate_page
          handler a st).1)
  unfolding sync_current_user_mapping_page
  mapping_page-Keeps a st h =
      let page = page_of page_shift a in
      current-Keeps (not (linux.has_mm st.space.world)) (page == 0 || leb task_size page) st _ h
        (window-Keeps page st h)

  pub refresh_page-Keeps :
      (a : ℕ)
      → Keeps (λ st.
        (refresh_current_user_mapping_page linux page_shift fuel mach host_shift granule gate_page
          handler a st).1)
  unfolding refresh_current_user_mapping_page
  refresh_page-Keeps a st h =
      let page = page_of page_shift a in
      current-Keeps (not (linux.has_mm st.space.world)) (page == 0 || leb task_size page) st _ h (
        refresh_user_pte_page-Holds linux page_shift fuel mach host_shift granule word null
          documented n page st h)

  pub from_kernel-Keeps :
      (a source : ℕ)
      → Keeps (λ st.
        (refresh_current_user_mapping_page_from_kernel linux page_shift fuel mach host_shift granule
          gate_page handler a source st).1)
  unfolding refresh_current_user_mapping_page_from_kernel
  from_kernel-Keeps a source st h =
      let page = page_of page_shift a in
      current-Keeps (not (linux.has_mm st.space.world)) (page == 0 || leb task_size page) st _ h (
        refresh_from_kernel-Holds linux page_shift fuel mach host_shift granule word null documented
          n page source st h)

  stack_loop-Keeps :
      (k page : ℕ)
      → Keeps
          (stack_window_loop linux page_shift fuel mach host_shift granule gate_page handler k page)
  unfolding stack_window_loop
  stack_loop-Keeps zero page st h = h
  stack_loop-Keeps (suc k) page st h =
      stack_loop-Keeps k (page + 2 ^ page_shift) _ (window-Keeps page st h)

  stack_window-Keeps :
      (start end : ℕ)
      → Keeps (
          sync_current_user_stack_window linux page_shift fuel mach host_shift granule gate_page
            handler start end)
  unfolding sync_current_user_stack_window
  stack_window-Keeps start end st h =
      let end' = if ltb task_size end then task_size else end in
      if_both (Holds host_shift n) (start == 0 || leb task_size start || leb end start) st
        (stack_window_loop linux page_shift fuel mach host_shift granule gate_page handler
          (rounds page_shift start end') start st)
        h (stack_loop-Keeps (rounds page_shift start end') start st h)

  pub stack_pages-Keeps :
      (sp : ℕ)
      → Keeps (sync_stack_pages linux page_shift fuel mach host_shift granule gate_page handler sp)
  unfolding sync_stack_pages
  stack_pages-Keeps sp st h =
      elim (Bool-cases (
        stack_access_page linux page_shift fuel mach host_shift granule gate_page handler sp
        == 0)) [
          | inl none_accessed ↦ rw (sync_stack_pages, none_accessed) h
          | inr accessed ↦ rw (sync_stack_pages, accessed) (stack_window-Keeps _ _ st h)
        ]

  pub mappings-Keeps :
      (stack : State W → State W) (regs : Regs)
      → Keeps stack
      → Keeps
          (sync_mappings linux page_shift fuel mach host_shift granule gate_page handler stack regs)
  unfolding sync_mappings
  mappings-Keeps stack regs keeps st h =
      let access =
        stack_access_page linux page_shift fuel mach host_shift granule gate_page handler regs.sp in
      let sp_page = page_of page_shift regs.sp in
      let P = Holds host_shift n in
      let window = λ (page : ℕ) (s : State W).
        (sync_window linux page_shift fuel mach host_shift granule gate_page handler page s).1 in
      let mapped =
        sync_current_user_mapping_page linux page_shift fuel mach host_shift granule gate_page
          handler regs.pc st in
      let start = if regs.pc == 0 || leb task_size regs.pc then st else must mapped in
      let start-Holds =
        if_both P (regs.pc == 0 || leb task_size regs.pc) st (must mapped) h
          (must-Holds host_shift n mapped (mapping_page-Keeps regs.pc st h)) in
      let accessed = if access == 0 then stack start else window access (stack start) in
      let accessed-Holds =
        if_both P (access == 0) (stack start) (window access (stack start))
          (keeps start start-Holds) (window-Keeps access (stack start) (keeps start start-Holds)) in
      let pointed = if sp_page == access then accessed else window sp_page accessed in
      let pointed-Holds =
        if_both P (sp_page == access) accessed (window sp_page accessed) accessed-Holds
          (window-Keeps sp_page accessed accessed-Holds) in
      let gated =
        sync_syscall_gate linux page_shift fuel mach host_shift granule gate_page handler pointed in
      let gated-Holds = must-Holds host_shift n gated (gate-Keeps pointed pointed-Holds) in
      if_both P (not (linux.has_mm st.space.world)) (panic st)
        (if start.panicked then start else must gated) (record { locks = h.locks; valid = h.valid })
        (if_both P start.panicked start (must gated) start-Holds gated-Holds)

  fault_loop-Keeps :
      (k page current : ℕ)
      → Keeps (
          fault_window_loop linux page_shift fuel mach host_shift granule gate_page handler k page
            current)
  unfolding fault_window_loop
  fault_loop-Keeps zero page current st h = h
  fault_loop-Keeps (suc k) page current st h =
      fault_loop-Keeps k page (current + 2 ^ page_shift) _ (
        if_both (Holds host_shift n)
          (host_window_start granule current == host_window_start granule page) st
          (sync_window linux page_shift fuel mach host_shift granule gate_page handler current st).1
          h (window-Keeps current st h))

  fault_pages-Keeps :
      (page start end : ℕ)
      → Keeps (λ st.
        (sync_fault_pages linux page_shift fuel mach host_shift granule gate_page handler page start
          end st).1)
  unfolding sync_fault_pages
  fault_pages-Keeps page start end st h =
      let pages = max 1 (granule / 2 ^ page_shift) in
      let half = pages / 2 * 2 ^ page_shift in
      let first = if ltb (u64 (start + half)) page then page - half else start in
      let last = u64 (first + pages * 2 ^ page_shift) in
      let last' = if ltb end last || ltb last first then end else last in
      let k = rounds page_shift first last' in
      and_then-Holds host_shift n
        (sync_window linux page_shift fuel mach host_shift granule gate_page handler page st)
        (λ t. (
          Result.ok,
          fault_window_loop linux page_shift fuel mach host_shift granule gate_page handler k page
              first t,
        ))
        (window-Keeps page st h) (λ t held. fault_loop-Keeps k page first t held)

  pub fault_window-Keeps :
      (a flags : ℕ)
      → Keeps (λ st.
        (sync_current_user_fault_window linux page_shift fuel mach host_shift granule gate_page
          handler a flags st).1)
  unfolding sync_current_user_fault_window
  fault_window-Keeps a flags st h =
      let mapped-Holds = mapping_page-Keeps a st h in
      let h' : Holds host_shift n (unlock (lock st)) = record {
        locks = omega (arith, h.locks);
        valid = h.valid;
      } in
      let found-Holds = mapping_page-Keeps a (unlock (lock st)) h' in
      elim (Bool-cases (a == 0 || leb task_size a)) [
        | inl outside ↦ rw (sync_current_user_fault_window, outside) h
        | inr inside ↦ elim (Bool-cases (linux.has_mm st.space.world)) [
          | inr no_mm ↦ rw (sync_current_user_fault_window, inside, no_mm) h
          | inl has ↦ elim (Bool-cases (bit_and flags fault_bus == 0)) [
            | inr bus ↦ rw (sync_current_user_fault_window, inside, has, bus) mapped-Holds
            | inl plain ↦ elim (Option-cases (linux.vma_lookup a st.space.world)) [
              | inl e ↦ rw (sync_current_user_fault_window, inside, has, plain, e) found-Holds
              | inr (vma, e) ↦
                  elim (Bool-cases (vma.vm_start == 0 || leb vma.vm_end vma.vm_start)) [
                    | inl empty ↦
                        rw (sync_current_user_fault_window, inside, has, plain, e, empty)
                          found-Holds
                    | inr there ↦
                        rw (sync_current_user_fault_window, inside, has, plain, e, there)
                          (fault_pages-Keeps (page_of page_shift a) vma.vm_start vma.vm_end
                            (unlock (lock st)) h')
                  ]
            ]
          ]
        ]
      ]
