-- ===== src/PageSync/Valid/User.antt =====
-- The same of the current task's pages.
use orlix_system.Prelude.{
  ℕ, zero, suc, ◌+◌, ◌/◌, ◌%◌, ◌^◌, ◌≡◌, false, not, [], ◌∷◌, if◌then◌else◌, arith, inl, inr, ◌==◌,
  leb, if_both,
}
use orlix_system.HostMemory.Space.{Mach}
use orlix_system.HostMemory.User.Valid.{KeepsNull}
use orlix_system.HostMemory.User.Calls.{Call, IsProper, run, run-IsValid}
use orlix_system.PageSync.Linux.{
  Result, efault, enomem, task_size, Linux, State, unlock, Walk, source_of,
}
use orlix_system.PageSync.Steps.{Walk-cases, Documented, Holds, Faulted}
use orlix_system.PageSync.Locks.{fault_in_loop-Faulted}
use orlix_system.PageSync.Segments.{collect-ApartPages}
use orlix_system.PageSync.Kernel.{host_window_start, rounds}
use orlix_system.PageSync.User.{
  fault_in_user_page, faulted_window, user_pte_window, user_present_pte_window, walked_page,
  faulted_page, sync_one, collect, refresh_walked, refresh_user_pte_page,
  refresh_user_pte_page_from_kernel, user_window_end, span, sync_window_pages,
  sync_user_host_window,
}
use orlix_system.PageSync.Valid.{and_then-Holds, space-Holds}

module _ {W : Type 0} (linux : Linux W) (page_shift fuel : ℕ) (mach : Mach W)
    (host_shift granule : ℕ) (word : 2 ^ 64 % 2 ^ host_shift ≡ 0) (null : KeepsNull mach)
    (documented : Documented linux mach host_shift) where
  -- A page of the task.
  fault-Faulted :
      (n page : ℕ) (st : State W)
      → Holds host_shift n st
      → Faulted host_shift n (fault_in_user_page linux page_shift fuel page st)
  unfolding fault_in_user_page
  fault-Faulted n page st h =
      fault_in_loop-Faulted linux page_shift fuel mach host_shift word null documented fuel false
        page n st h

  unlock-Holds :
      (n : ℕ) (st : State W) → Holds host_shift (n + 1) st → Holds host_shift n (unlock st)
  unlock-Holds n st h = record { locks = omega (arith, h.locks); valid = h.valid }

  faulted_window-Holds :
      (n page : ℕ) (r : Result × State W)
      → Faulted host_shift n r
      → Holds host_shift n (faulted_window linux page_shift fuel page r).1
  faulted_window-Holds n page (Result.ok, st) h = unlock-Holds n st h
  faulted_window-Holds n page (Result.err e, st) h = h
  faulted_window-Holds n page (Result.stuck, st) h = h

  user_pte_window-Holds :
      (n page : ℕ) (st : State W)
      → Holds host_shift n st
      → Holds host_shift n (user_pte_window linux page_shift fuel page st).1
  unfolding user_pte_window
  user_pte_window-Holds n page st h =
      if_both (λ (r : Walk × State W). Holds host_shift n r.1) (leb task_size page)
        (Walk.failed (Result.err efault), st)
        (faulted_window linux page_shift fuel page
          (fault_in_user_page linux page_shift fuel page st))
        h
        (faulted_window-Holds n page (fault_in_user_page linux page_shift fuel page st)
          (fault-Faulted n page st h))

  walked_page-Holds :
      (n cursor : ℕ) (st : State W) (walk : Walk)
      → Holds host_shift (n + 1) st
      → Holds host_shift n (walked_page linux page_shift fuel cursor st walk).2
  walked_page-Holds n cursor st (Walk.failed e) h = unlock-Holds n st h
  walked_page-Holds n cursor st (Walk.found w) h = unlock-Holds n st h

  faulted_page-Holds :
      (n cursor : ℕ) (r : Result × State W)
      → Faulted host_shift n r
      → Holds host_shift n (faulted_page linux page_shift fuel cursor r).2
  faulted_page-Holds n cursor (Result.ok, st) h =
      walked_page-Holds n cursor st (user_present_pte_window linux page_shift fuel cursor st) h
  faulted_page-Holds n cursor (Result.err e, st) h = h
  faulted_page-Holds n cursor (Result.stuck, st) h = h

  collect-Holds :
      (n k cursor page : ℕ) (page_ret : Result) (st : State W)
      → Holds host_shift n st
      → Holds host_shift n (collect linux page_shift fuel k cursor page page_ret st).state
  unfolding collect sync_one
  collect-Holds n zero cursor page page_ret st h = h
  collect-Holds n (suc k) cursor page page_ret st h =
      let one =
        faulted_page linux page_shift fuel cursor
          (fault_in_user_page linux page_shift fuel cursor st) in
      collect-Holds n k (cursor + 2 ^ page_shift) page (if cursor == page then one.0 else page_ret)
        one.2
        (faulted_page-Holds n cursor (fault_in_user_page linux page_shift fuel cursor st)
          (fault-Faulted n cursor st h))

  -- One call of the host.
  pub call-Holds :
      (n : ℕ) (c : Call) (st : State W)
      → IsProper c
      → Holds host_shift n st
      → Holds host_shift n (record st { space = run mach host_shift (c ∷ []) st.space })
  call-Holds n c st proper h =
      space-Holds host_shift n st _ h
        (run-IsValid mach host_shift word null (c ∷ []) st.space (proper, tt) h.valid)

  sync_window_pages-Holds :
      (n start end page : ℕ) (st : State W)
      → Holds host_shift n st
      → Holds host_shift n
          (sync_window_pages linux page_shift fuel mach host_shift granule start end page st).1
  unfolding sync_window_pages
  sync_window_pages-Holds n start end page st h =
      let k = rounds page_shift start end in
      let c = collect linux page_shift fuel k start page (Result.err efault) st in
      and_then-Holds host_shift n (c.page_ret, c.state) _
        (collect-Holds n k start page (Result.err efault) st h)
        (λ t held.
          call-Holds n
            (Call.refresh_window start
              (span linux page_shift fuel mach host_shift granule start end) c.segments)
            t (collect-ApartPages page_shift linux fuel k start page (Result.err efault) st).1 held)

  pub sync_user_host_window-Holds :
      (n page : ℕ) (st : State W)
      → Holds host_shift n st
      → Holds host_shift n
          (sync_user_host_window linux page_shift fuel mach host_shift granule page st).1
  unfolding sync_user_host_window
  sync_user_host_window-Holds n page st h =
      let start = host_window_start granule page in
      let end = user_window_end linux page_shift fuel mach host_shift granule start in
      let pages = span linux page_shift fuel mach host_shift granule start end / 2 ^ page_shift in
      let allocated = linux.kcalloc pages st.space.world in
      let st' = record st { space = record (st.space) { world = allocated.1 } } in
      let h' = space-Holds host_shift n st (st'.space) h h.valid in
      let P = λ (r : Result × State W). Holds host_shift n r.1 in
      let synced =
        sync_window_pages linux page_shift fuel mach host_shift granule start end page st' in
      if_both P (pages == 0) (Result.err efault, st)
        (if not allocated.0 then (Result.err enomem, st') else synced) h
        (if_both P (not allocated.0) (Result.err enomem, st') synced h'
          (sync_window_pages-Holds n start end page st' h'))

  refresh_walked-Holds :
      (n : ℕ) (r : Walk × State W)
      → Holds host_shift n r.1
      → Holds host_shift n (refresh_walked linux page_shift fuel mach host_shift granule r).1
  refresh_walked-Holds n (Walk.failed e, st) h = h
  refresh_walked-Holds n (Walk.found w, st) h =
      call-Holds n
        (Call.refresh_page w.target (source_of page_shift w) w.length w.writable w.executable) st tt
        h

  pub refresh_user_pte_page-Holds :
      (n page : ℕ) (st : State W)
      → Holds host_shift n st
      → Holds host_shift n
          (refresh_user_pte_page linux page_shift fuel mach host_shift granule page st).1
  unfolding refresh_user_pte_page
  refresh_user_pte_page-Holds n page st h =
      refresh_walked-Holds n _ (user_pte_window-Holds n page st h)

  pub refresh_from_kernel-Holds :
      (n page source : ℕ) (st : State W)
      → Holds host_shift n st
      → Holds host_shift n
          (refresh_user_pte_page_from_kernel linux page_shift fuel mach host_shift granule page
            source st).1
  unfolding refresh_user_pte_page_from_kernel
  refresh_from_kernel-Holds n page source st h =
      elim (Walk-cases (user_present_pte_window linux page_shift fuel page st)) [
        | inl (e, missing) ↦ rw (refresh_user_pte_page_from_kernel, missing) h
        | inr (w, there) ↦
            rw (refresh_user_pte_page_from_kernel, there)
              (call-Holds n (Call.refresh_page w.target source w.length w.writable w.executable) st
                tt h)
      ]
