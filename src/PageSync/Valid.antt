-- ===== src/PageSync/Valid.antt =====
-- What init.c does to the kernel's pages keeps the mmap lock balanced and the user mappings in order.
use orlix_system.Prelude.{
  ℕ, zero, suc, ◌+◌, ◌/◌, ◌%◌, ◌^◌, ◌≡◌, sym, subst, false, not, List, [], ◌∷◌, if◌then◌else◌,
  arith, Bool-cases, inl, inr, ◌==◌, leb, if_both,
}
use orlix_system.HostMemory.Space.{UserMapping, Mach, Space}
use orlix_system.HostMemory.Invariant.{IsValid}
use orlix_system.HostMemory.User.Valid.{KeepsNull}
use orlix_system.HostMemory.User.Calls.{Call, IsProper, run, run-IsValid}
use orlix_system.HostMemory.Kernel.Frame.{kernel_map_page-user, kernel_unmap_pages-user}
use orlix_system.PageSync.Linux.{
  Result, and_then, must, is_enoent, efault, enomem, task_size, Linux, State, unlock, Window, Walk,
  source_of, kernel_pte_page,
}
use orlix_system.PageSync.Steps.{Walk-cases, Documented, Holds, Faulted}
use orlix_system.PageSync.Locks.{fault_in_loop-Faulted}
use orlix_system.PageSync.Segments.{collect-ApartPages}
use orlix_system.PageSync.Kernel.{
  host_window_start, rounds, map_kernel_window, sync_kernel_page, sync_present_kernel_page,
  kernel_window_loop, sync_kernel_host_window, kernel_mappings_loop,
}
use orlix_system.PageSync.User.{
  fault_in_user_page, faulted_window, user_pte_window, user_present_pte_window, walked_page,
  faulted_page, sync_one, collect, refresh_walked, refresh_user_pte_page,
  refresh_user_pte_page_from_kernel, user_window_end, span, sync_window_pages,
  sync_user_host_window,
}
pub mod User

pub must-Holds :
    {W : Type 0} (host_shift n : ℕ) (r : Result × State W)
    → Holds host_shift n r.1
    → Holds host_shift n (must r)
must-Holds host_shift n (Result.ok, st) h = h
must-Holds host_shift n (Result.err e, st) h = record { locks = h.locks; valid = h.valid }
must-Holds host_shift n (Result.stuck, st) h = record { locks = h.locks; valid = h.valid }

pub and_then-Holds :
    {W : Type 0} (host_shift n : ℕ) (r : Result × State W) (f : State W → Result × State W)
    → Holds host_shift n r.1
    → ((st : State W) → Holds host_shift n st → Holds host_shift n (f st).1)
    → Holds host_shift n (and_then r f).1
and_then-Holds host_shift n (Result.ok, st) f h k = k st h
and_then-Holds host_shift n (Result.err e, st) f h k = h
and_then-Holds host_shift n (Result.stuck, st) f h k = h

-- A change of the space that keeps the user mappings in order.
pub space-Holds :
    {W : Type 0} (host_shift n : ℕ) (st : State W) (s : Space W)
    → Holds host_shift n st
    → IsValid host_shift s.user
    → Holds host_shift n (record st { space = s })
space-Holds host_shift n st s h v = record { locks = h.locks; valid = v }

module _ {W : Type 0} (linux : Linux W) (page_shift fuel : ℕ) (mach : Mach W)
    (host_shift granule : ℕ) (word : 2 ^ 64 % 2 ^ host_shift ≡ 0) (null : KeepsNull mach)
    (documented : Documented linux mach host_shift) where
  -- The kernel's pages do not touch the user mappings.
  map_kernel_window-Holds :
      (n : ℕ) (window : Window) (st : State W)
      → Holds host_shift n st
      → Holds host_shift n (map_kernel_window page_shift host_shift granule mach linux window st).1
  map_kernel_window-Holds n window st h = space-Holds host_shift n st _ h (
      subst (λ (user : List UserMapping). IsValid host_shift user)
        (sym (
          kernel_map_page-user mach host_shift window.target (source_of page_shift window)
            window.length st.space))
        h.valid)

  sync_kernel_page-Holds :
      (n address : ℕ) (st : State W)
      → Holds host_shift n st
      → Holds host_shift n (sync_kernel_page page_shift host_shift granule mach linux address st).1
  unfolding sync_kernel_page
  sync_kernel_page-Holds n address st h =
      elim (Walk-cases (kernel_pte_page page_shift linux address st.space.world)) [
        | inr (w, there) ↦ rw (sync_kernel_page, there) (map_kernel_window-Holds n w st h)
        | inl (e, missing) ↦ elim (Bool-cases (is_enoent e)) [
          | inl absent ↦
              rw (sync_kernel_page, missing, absent)
                (space-Holds host_shift n st _ h (
                  subst (λ (user : List UserMapping). IsValid host_shift user)
                    (sym (
                      kernel_unmap_pages-user mach host_shift (host_window_start granule address)
                        granule st.space))
                    h.valid))
          | inr broken ↦ rw (sync_kernel_page, missing, broken) h
        ]
      ]

  sync_present_kernel_page-Holds :
      (n address : ℕ) (st : State W)
      → Holds host_shift n st
      → Holds host_shift n
          (sync_present_kernel_page page_shift host_shift granule mach linux address st).1
  unfolding sync_present_kernel_page
  sync_present_kernel_page-Holds n address st h =
      elim (Walk-cases (kernel_pte_page page_shift linux address st.space.world)) [
        | inr (w, there) ↦ rw (sync_present_kernel_page, there) (map_kernel_window-Holds n w st h)
        | inl (e, missing) ↦ elim (Bool-cases (is_enoent e)) [
          | inl absent ↦ rw (sync_present_kernel_page, missing, absent) h
          | inr broken ↦ rw (sync_present_kernel_page, missing, broken) h
        ]
      ]

  kernel_window_loop-Holds :
      (n k page : ℕ) (st : State W)
      → Holds host_shift n st
      → Holds host_shift n (kernel_window_loop page_shift host_shift granule mach linux k page st).1
  unfolding kernel_window_loop
  kernel_window_loop-Holds n zero page st h = h
  kernel_window_loop-Holds n (suc k) page st h =
      and_then-Holds host_shift n _ _ (sync_present_kernel_page-Holds n page st h)
        (λ t held. kernel_window_loop-Holds n k (page + 2 ^ page_shift) t held)

  pub sync_kernel_host_window-Holds :
      (n address : ℕ) (st : State W)
      → Holds host_shift n st
      → Holds host_shift n
          (sync_kernel_host_window page_shift host_shift granule mach linux address st).1
  unfolding sync_kernel_host_window
  sync_kernel_host_window-Holds n address st h = kernel_window_loop-Holds n _ _ st h

  pub kernel_mappings_loop-Holds :
      (n k address : ℕ) (st : State W)
      → Holds host_shift n st
      → Holds host_shift n
          (kernel_mappings_loop page_shift host_shift granule mach linux k address st).1
  unfolding kernel_mappings_loop
  kernel_mappings_loop-Holds n zero address st h = h
  kernel_mappings_loop-Holds n (suc k) address st h =
      and_then-Holds host_shift n _ _ (sync_kernel_page-Holds n address st h)
        (λ t held. kernel_mappings_loop-Holds n k (address + 2 ^ page_shift) t held)
