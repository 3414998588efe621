-- ===== src/PageSync/Calls.antt =====
-- Every call of init.c, in any order, keeps the mmap lock balanced and the user mappings in order.
use orlix_system.Prelude.{ℕ, ◌%◌, ◌^◌, ◌≡◌, ◌||◌, List, [], ◌∷◌, ltb, leb, if_both}
use orlix_system.HostMemory.Space.{Mach}
use orlix_system.HostMemory.User.Valid.{KeepsNull}
use orlix_system.PageSync.Linux.{Result, must, efault, Linux, State}
use orlix_system.PageTable.{vmalloc_start, vmalloc_end}
use orlix_system.PageSync.Steps.{Documented, Holds}
use orlix_system.PageSync.Kernel.{
  sync_kernel_host_window, sync_hosted_kernel_pte, sync_hosted_kernel_fault, sync_kernel_mappings,
}
use orlix_system.PageSync.Entry.{
  Regs, unless_panicked, sync_syscall_gate, sync_current_user_mapping_page,
  refresh_current_user_mapping_page, refresh_current_user_mapping_page_from_kernel,
  sync_current_user_mappings, sync_current_user_minimal_mappings, sync_current_user_fault_window,
}
use orlix_system.PageSync.Valid.{
  must-Holds, sync_kernel_host_window-Holds, kernel_mappings_loop-Holds,
}
use orlix_system.PageSync.Task.{
  Keeps, mapping_page-Keeps, refresh_page-Keeps, from_kernel-Keeps, stack_pages-Keeps,
  mappings-Keeps, fault_window-Keeps, gate-Keeps,
}

-- The functions of init.c that other files call.
pub data SyncCall : Type 0 where
  hosted_kernel_pte : ℕ → SyncCall
  hosted_kernel_fault : ℕ → SyncCall
  kernel_mappings : ℕ → ℕ → SyncCall
  user_mappings : Regs → SyncCall
  minimal_mappings : Regs → SyncCall
  mapping_page : ℕ → SyncCall
  refresh_page : ℕ → SyncCall
  refresh_from_kernel : ℕ → ℕ → SyncCall
  fault_window : ℕ → ℕ → SyncCall
  syscall_gate : SyncCall

module _ {W : Type 0} (linux : Linux W) (page_shift fuel : ℕ) (mach : Mach W)
    (host_shift granule gate_page handler : ℕ) where
  abbrev pub serve_call : SyncCall → State W → State W
  serve_call (SyncCall.hosted_kernel_pte a) st =
      sync_hosted_kernel_pte page_shift host_shift granule mach linux a st
  serve_call (SyncCall.hosted_kernel_fault a) st =
      (sync_hosted_kernel_fault page_shift host_shift granule mach linux a st).1
  serve_call (SyncCall.kernel_mappings a b) st =
      sync_kernel_mappings page_shift host_shift granule mach linux a b st
  serve_call (SyncCall.user_mappings r) st =
      sync_current_user_mappings linux page_shift fuel mach host_shift granule gate_page handler r
        st
  serve_call (SyncCall.minimal_mappings r) st =
      sync_current_user_minimal_mappings linux page_shift fuel mach host_shift granule gate_page
        handler r st
  serve_call (SyncCall.mapping_page a) st =
      (sync_current_user_mapping_page linux page_shift fuel mach host_shift granule gate_page
        handler a st).1
  serve_call (SyncCall.refresh_page a) st =
      (refresh_current_user_mapping_page linux page_shift fuel mach host_shift granule gate_page
        handler a st).1
  serve_call (SyncCall.refresh_from_kernel a source) st =
      (refresh_current_user_mapping_page_from_kernel linux page_shift fuel mach host_shift granule
        gate_page handler a source st).1
  serve_call (SyncCall.fault_window a flags) st =
      (sync_current_user_fault_window linux page_shift fuel mach host_shift granule gate_page
        handler a flags st).1
  serve_call SyncCall.syscall_gate st =
      (sync_syscall_gate linux page_shift fuel mach host_shift granule gate_page handler st).1

  -- A call is not made after a panic.
  abbrev pub serve_all : List SyncCall → State W → State W
  serve_all [] st = st
  serve_all (r ∷ rest) st = serve_all rest (unless_panicked (serve_call r) st)

  module _ (word : 2 ^ 64 % 2 ^ host_shift ≡ 0) (null : KeepsNull mach)
      (documented : Documented linux mach host_shift) (n : ℕ) where
    serve_call-Keeps :
        (r : SyncCall)
        → Keeps linux page_shift fuel mach host_shift granule gate_page handler word null documented
            n
            (serve_call r)
    unfolding sync_hosted_kernel_pte sync_hosted_kernel_fault sync_kernel_mappings
        sync_current_user_mappings sync_current_user_minimal_mappings
    serve_call-Keeps (SyncCall.hosted_kernel_pte a) st h =
        let synced = sync_kernel_host_window page_shift host_shift granule mach linux a st in
        if_both (Holds host_shift n) (ltb a vmalloc_start || leb vmalloc_end a) st (must synced) h (
          must-Holds host_shift n synced (
            sync_kernel_host_window-Holds linux page_shift fuel mach host_shift granule word null
              documented n a st h))
    serve_call-Keeps (SyncCall.hosted_kernel_fault a) st h =
        let synced = sync_kernel_host_window page_shift host_shift granule mach linux a st in
        if_both (λ (x : Result × State W). Holds host_shift n x.1)
          (ltb a vmalloc_start || leb vmalloc_end a) (Result.err efault, st) synced h
          (sync_kernel_host_window-Holds linux page_shift fuel mach host_shift granule word null
            documented n a st h)
    serve_call-Keeps (SyncCall.kernel_mappings a b) st h = must-Holds host_shift n _ (
        kernel_mappings_loop-Holds linux page_shift fuel mach host_shift granule word null
          documented n _ a st h)
    serve_call-Keeps (SyncCall.user_mappings r) st h =
        mappings-Keeps linux page_shift fuel mach host_shift granule gate_page handler word null
          documented n _ r
          (stack_pages-Keeps linux page_shift fuel mach host_shift granule gate_page handler word
            null documented n r.sp)
          st h
    serve_call-Keeps (SyncCall.minimal_mappings r) st h =
        mappings-Keeps linux page_shift fuel mach host_shift granule gate_page handler word null
          documented n (λ s. s) r (λ s k. k) st h
    serve_call-Keeps (SyncCall.mapping_page a) st h =
        mapping_page-Keeps linux page_shift fuel mach host_shift granule gate_page handler word null
          documented n a st h
    serve_call-Keeps (SyncCall.refresh_page a) st h =
        refresh_page-Keeps linux page_shift fuel mach host_shift granule gate_page handler word null
          documented n a st h
    serve_call-Keeps (SyncCall.refresh_from_kernel a source) st h =
        from_kernel-Keeps linux page_shift fuel mach host_shift granule gate_page handler word null
          documented n a source st h
    serve_call-Keeps (SyncCall.fault_window a flags) st h =
        fault_window-Keeps linux page_shift fuel mach host_shift granule gate_page handler word null
          documented n a flags st h
    serve_call-Keeps SyncCall.syscall_gate st h =
        gate-Keeps linux page_shift fuel mach host_shift granule gate_page handler word null
          documented n st h

    -- Any sequence of calls of init.c, failing ones included, ends with the mmap lock held as often as
    -- before, and from a list of user mappings that is in order it leaves one. The host's page size
    -- divides the address space, Mach never gives out the page at 0, a signal ends a fault only where
    -- the fault is to be retried, and Linux changes the user mappings of the host only by calls of the
    -- host.
    pub serve_all-Holds :
        (requests : List SyncCall) (st : State W)
        → Holds host_shift n st
        → Holds host_shift n (serve_all requests st)
    serve_all-Holds [] st h = h
    serve_all-Holds (r ∷ rest) st h =
        serve_all-Holds rest (unless_panicked (serve_call r) st) (
          if_both (Holds host_shift n) st.panicked st (serve_call r st) h (serve_call-Keeps r st h))
