-- ===== src/Hosted/Fault/Locks.antt =====
-- A fault that the host reports leaves the mmap lock balanced and the user mappings in order.
use orlix_system.Prelude.{
  ℕ, zero, suc, ◌+◌, ◌%◌, ◌^◌, ◌≡◌, refl, ap, Bool, true, false, not, ◌&&◌, ◌||◌, none,
  if◌then◌else◌, arith, Bool-cases, Option-cases, inl, inr, if_both,
}
use orlix_system.HostMemory.Space.{Mach, Space}
use orlix_system.HostMemory.User.Valid.{KeepsNull}
use orlix_system.PageSync.Linux.{Result, efault, Vma, FaultFlags, Fault, Linux, State, unlock}
use orlix_system.PageSync.Steps.{Documented, Holds, AfterCalls-IsValid, after_fault-Holds}
use orlix_system.PageSync.User.{after_fault}
use orlix_system.PageSync.Task.{fault_window-Keeps}
use orlix_system.Hosted.Fault.{
  FaultCalls, on_world, segv_accerr, bus_adrerr, sigbus, allows, is_set, fault_exec, fault_write,
  or_efault, force_user_fault_signal, bad_area, sync_fault, conclude_fault, attempt_fault,
  fault_loop, handle_host_user_fault,
}

or_true : (b : Bool) → (b || true) ≡ true
or_true true = refl
or_true false = refl

module _ {W : Type 0} (linux : Linux W) (calls : FaultCalls W) (page_shift fuel : ℕ) (mach : Mach W)
    (host_shift granule gate_page handler address fault_flags : ℕ)
    (word : 2 ^ 64 % 2 ^ host_shift ≡ 0) (null : KeepsNull mach)
    (documented : Documented linux mach host_shift) (n : ℕ)
    (error_settles : (vma : Vma) (a : ℕ) (flags : FaultFlags) (s : Space W)
      → (linux.handle_mm_fault vma a flags s).0.retry ≡ true
      → (linux.handle_mm_fault vma a flags s).0.error ≡ none) where
  abbrev HoldsResult : Result × State W → Type 0
  HoldsResult r = Holds host_shift n r.1

  or_efault-Holds :
      (r : Result × State W) → Holds host_shift n r.1 → Holds host_shift n (or_efault r).1
  or_efault-Holds (Result.ok, st) h = h
  or_efault-Holds (Result.err e, st) h = h
  or_efault-Holds (Result.stuck, st) h = h

  bad_area-Holds :
      (si_code : ℕ) (st : State W)
      → Holds host_shift n st
      → Holds host_shift n
          (bad_area linux calls page_shift fuel mach host_shift granule gate_page handler address
            fault_flags si_code st).1
  unfolding force_user_fault_signal
  bad_area-Holds si_code st h = record { locks = h.locks; valid = h.valid }

  sync-Holds :
      (st : State W)
      → Holds host_shift n st
      → Holds host_shift n
          (sync_fault linux calls page_shift fuel mach host_shift granule gate_page handler address
            fault_flags st).1
  sync-Holds st h = or_efault-Holds _ (
      fault_window-Keeps linux page_shift fuel mach host_shift granule gate_page handler word null
        documented n address fault_flags st h)

  unlock-Holds : (st : State W) → Holds host_shift (n + 1) st → Holds host_shift n (unlock st)
  unlock-Holds st h = record { locks = omega (arith, h.locks); valid = h.valid }

  failure-Holds :
      (fault : Fault) (st : State W)
      → Holds host_shift n st
      → HoldsResult (
          if fault.oom
          then (Result.ok, on_world calls.pagefault_out_of_memory st)
          else if fault.sigbus
          then (Result.ok, on_world (calls.force_sig_fault sigbus bus_adrerr address) st)
          else bad_area linux calls page_shift fuel mach host_shift granule gate_page handler
              address fault_flags segv_accerr st)
  failure-Holds fault st h =
      let oom : Result × State W = (Result.ok, on_world calls.pagefault_out_of_memory st) in
      let bus : Result × State W =
        (Result.ok, on_world (calls.force_sig_fault sigbus bus_adrerr address) st) in
      let bad =
        bad_area linux calls page_shift fuel mach host_shift granule gate_page handler address
          fault_flags segv_accerr st in
      if_both HoldsResult fault.oom oom (if fault.sigbus then bus else bad)
        (record { locks = h.locks; valid = h.valid })
        (if_both HoldsResult fault.sigbus bus bad (record { locks = h.locks; valid = h.valid })
          (bad_area-Holds segv_accerr st h))

  conclude-Holds :
      (again : State W → Result × State W)
      → ((t : State W) → Holds host_shift n t → Holds host_shift n (again t).1)
      → (fault : Fault) (st : State W) → (fault.retry ≡ true → fault.error ≡ none)
      → Holds host_shift (if fault.completed || fault.retry then n else n + 1) st
      → Holds host_shift n
          (conclude_fault linux calls page_shift fuel mach host_shift granule gate_page handler
            address fault_flags again fault st).1
  unfolding conclude_fault
  conclude-Holds again resumes fault st settles =
      elim (Bool-cases (linux.fault_signal_pending fault st.space.world)) [
        | inl pending ↦
            rw
              (
                conclude_fault,
                pending,
                documented.signal_retries fault st.space.world pending,
                or_true fault.completed,
              )
              (λ h. h)
        | inr quiet ↦ elim (Bool-cases fault.completed) [
          | inl completed ↦ rw (conclude_fault, quiet, completed) (λ h. sync-Holds st h)
          | inr unfinished ↦ elim (Bool-cases fault.retry) [
            | inl retry ↦
                rw (conclude_fault, quiet, unfinished, retry, settles retry, retry)
                  (λ h. resumes st h)
            | inr settled ↦ elim (Option-cases fault.error) [
              | inl fine ↦
                  rw (conclude_fault, quiet, unfinished, settled, fine, settled)
                    (λ h. sync-Holds (unlock st) (unlock-Holds st h))
              | inr (e, bad) ↦
                  rw (conclude_fault, quiet, unfinished, settled, bad)
                    (λ h. failure-Holds fault (unlock st) (unlock-Holds st h))
            ]
          ]
        ]
      ]

  attempt-Holds :
      (again : State W → Result × State W)
      → ((t : State W) → Holds host_shift n t → Holds host_shift n (again t).1)
      → (tried : Bool) (vma : Vma) (st : State W) → Holds host_shift (n + 1) st
      → Holds host_shift n
          (attempt_fault linux calls page_shift fuel mach host_shift granule gate_page handler
            address fault_flags again tried vma st).1
  unfolding attempt_fault
  attempt-Holds again resumes tried vma st h =
      let flags : FaultFlags = record {
        instruction = is_set fault_flags fault_exec;
        write = not (is_set fault_flags fault_exec) && is_set fault_flags fault_write;
        tried = tried;
      } in
      let handled = linux.handle_mm_fault vma address flags st.space in
      let handled_valid =
        AfterCalls-IsValid mach host_shift word null st.space handled.1
          (documented.fault_calls vma address flags st.space) h.valid in
      let st' = record st { space = handled.1 } in
      let concluded =
        conclude_fault linux calls page_shift fuel mach host_shift granule gate_page handler address
          fault_flags again handled.0 (after_fault handled.0 st') in
      let bad =
        bad_area linux calls page_shift fuel mach host_shift granule gate_page handler address
          fault_flags segv_accerr (unlock st) in
      if_both HoldsResult (not (allows fault_flags vma)) bad concluded
        (bad_area-Holds segv_accerr (unlock st) (unlock-Holds st h))
        (conclude-Holds again resumes handled.0 (after_fault handled.0 st')
          (error_settles vma address flags st.space)
          (after_fault-Holds host_shift n handled.0 st'
            (record { locks = h.locks; valid = handled_valid })))

  loop-Holds :
      (k : ℕ) (tried : Bool) (st : State W)
      → Holds host_shift n st
      → Holds host_shift n
          (fault_loop linux calls page_shift fuel mach host_shift granule gate_page handler address
            fault_flags k tried st).1
  unfolding fault_loop
  loop-Holds zero tried st h = h
  loop-Holds (suc k) tried st h =
      let found_valid =
        AfterCalls-IsValid mach host_shift word null st.space
          (linux.lock_mm_and_find_vma address st.space).1 (documented.find_calls address st.space)
          h.valid in
      elim (Option-cases (linux.lock_mm_and_find_vma address st.space).0) [
        | inl e ↦
            rw (fault_loop, e)
              (bad_area-Holds _ _ (record { locks = h.locks; valid = found_valid }))
        | inr (vma, e) ↦
            rw (fault_loop, e)
              (attempt-Holds
                (fault_loop linux calls page_shift fuel mach host_shift granule gate_page handler
                  address fault_flags k true)
                (λ t held. loop-Holds k true t held) tried vma _
                (record { locks = ap (λ (j : ℕ). j + 1) h.locks; valid = found_valid }))
      ]

  -- Handling a fault of user code, whatever comes of it, leaves the mmap lock held as often as before,
  -- and a list of user mappings that is in order it leaves so. The host's page size divides the
  -- address space, Mach never gives out the page at 0, a signal ends a fault only where the fault is
  -- to be retried, a fault to be retried has no error, and Linux changes the user mappings of the host
  -- only by calls of the host.
  pub handle_host_user_fault-Holds :
      (user : Bool) (st : State W)
      → Holds host_shift n st
      → Holds host_shift n
          (handle_host_user_fault linux calls page_shift fuel mach host_shift granule gate_page
            handler address fault_flags user st).1
  unfolding handle_host_user_fault
  handle_host_user_fault-Holds user st h =
      let refused =
        not user
        || calls.faulthandler_disabled st.space.world
        || not (linux.has_mm st.space.world) in
      if_both HoldsResult refused (Result.err efault, st)
        (fault_loop linux calls page_shift fuel mach host_shift granule gate_page handler address
          fault_flags fuel false st)
        h (loop-Holds fuel false st h)
