-- ===== src/PageSync/User.antt =====
-- The pages of the current task: faulting a page in, and mapping the pages of one page of the host.
use orlix_system.Prelude.{
  ℕ, zero, suc, ◌+◌, ◌-◌, ◌/◌, ◌^◌, Bool, true, false, not, ◌&&◌, ◌||◌, Option, none, some, List,
  [], ◌∷◌, if◌then◌else◌, ltb, leb, ◌==◌, u64,
}
use orlix_system.HostMemory.Space.{Mach}
use orlix_system.HostMemory.User.{user_map_page, user_refresh_page}
use orlix_system.HostMemory.User.Window.{PageSegment, user_refresh_window}
use orlix_system.PageSync.Linux.{
  Result, and_then, found, failed, eintr, enomem, efault, status_of, task_size, Vma, FaultFlags,
  Fault, Linux, State, lock, unlock, Window, Walk, source_of, user_walk,
}
use orlix_system.PageSync.Kernel.{host_window_start, host_window_end, rounds}

-- `vma->vm_flags & required`
abbrev pub has_required : Vma → Bool
has_required vma =
    if vma.executable then vma.executable else if vma.writable then vma.writable else vma.readable

-- The state after `handle_mm_fault`, which has released the lock if it says VM_FAULT_RETRY or
-- VM_FAULT_COMPLETED.
abbrev pub after_fault : {W : Type 0} → Fault → State W → State W
after_fault fault st = if fault.completed || fault.retry then unlock st else st

-- A segment of the window that is passed on to the host.
abbrev pub page_segment : ℕ → Window → PageSegment
page_segment page_shift window = record {
  target = window.target;
  source = source_of page_shift window;
  length = window.length;
  writable = window.writable;
  executable = window.executable;
}

abbrev pub add_segment : Option PageSegment → List PageSegment → List PageSegment
add_segment none segments = segments
add_segment (some segment) segments = segment ∷ segments

-- What the loop over a window leaves: `page_ret`, the segments, and the state.
pub record Collected (W : Type 0) : Type 0 where
  pub page_ret : Result
  pub segments : List PageSegment
  pub state : State W

-- `fuel` bounds how often a fault is retried.
module _ {W : Type 0} (linux : Linux W) (page_shift fuel : ℕ) where
  -- What `orlix_fault_in_user_page_locked` does after `handle_mm_fault`; `again` is `goto retry`.
  unfoldable pub conclude : (State W → Result × State W) → Fault → State W → Result × State W
  conclude again fault st =
      let failure : Result × State W = elim fault.error [
        | none ↦ (Result.ok, st)
        | some e ↦ (Result.err (if e == 0 then efault else e), unlock st)
      ] in
      if linux.fault_signal_pending fault st.space.world
      then (Result.err eintr, st)
      else if fault.completed
      then (Result.ok, lock st)
      else if fault.retry
      then again st
      else failure

  -- A round with the lock taken.
  unfoldable pub attempt :
      (State W → Result × State W) → Bool → ℕ → Vma → State W → Result × State W
  attempt again tried address vma st =
      let flags : FaultFlags = record {
        instruction = vma.executable;
        write = not vma.executable && vma.writable;
        tried = tried;
      } in
      let (fault, s) = linux.handle_mm_fault vma address flags st.space in
      let concluded = conclude again fault (after_fault fault (record st { space = s })) in
      if not (has_required vma) then (Result.err efault, unlock st) else concluded

  -- `orlix_fault_in_user_page_locked`: the lock is held afterwards if the result is 0.
  unfoldable pub fault_in_loop : ℕ → Bool → ℕ → State W → Result × State W
  fault_in_loop zero tried address st = (Result.stuck, st)
  fault_in_loop (suc n) tried address st =
      let (vma, s) = linux.lock_mm_and_find_vma address st.space in
      let st' = record st { space = s } in
      elim vma [
        | none ↦ (Result.err efault, st')
        | some v ↦ attempt (fault_in_loop n true address) tried address v (lock st')
      ]

  unfoldable pub fault_in_user_page : ℕ → State W → Result × State W
  fault_in_user_page address st = fault_in_loop fuel false address st

  -- `vma && (vma->vm_flags & VM_WRITE)`
  abbrev pub in_writable_vma : ℕ → State W → Bool
  in_writable_vma page st = elim (linux.vma_lookup page st.space.world) [
    | none ↦ false
    | some vma ↦ vma.writable
  ]

  abbrev pub also_writable : Bool → Window → Window
  also_writable b window = record window { writable = window.writable || b }

  -- What `orlix_user_pte_window` does after the fault.
  abbrev pub faulted_window : ℕ → Result × State W → Walk × State W
  faulted_window page (Result.ok, st) = (
    elim (user_walk page_shift linux page st.space.world) [
      | failed e ↦ Walk.failed e
      | found window ↦ Walk.found (also_writable (in_writable_vma page st) window)
    ],
    unlock st,
  )
  faulted_window page (Result.err e, st) = (Walk.failed (Result.err e), st)
  faulted_window page (Result.stuck, st) = (Walk.failed Result.stuck, st)

  -- `orlix_user_pte_window`
  unfoldable pub user_pte_window : ℕ → State W → Walk × State W
  user_pte_window page st =
      if leb task_size page
      then (Walk.failed (Result.err efault), st)
      else faulted_window page (fault_in_user_page page st)

  -- `orlix_user_present_pte_window`
  unfoldable pub user_present_pte_window : ℕ → State W → Walk
  user_present_pte_window page st =
      if leb task_size page
      then Walk.failed (Result.err efault)
      else user_walk page_shift linux page st.space.world

  -- A round of the loop of `orlix_sync_user_host_window`: the result for the page, its segment, and
  -- the state.
  abbrev pub walked_page : ℕ → State W → Walk → Result × Option PageSegment × State W
  walked_page cursor st (Walk.failed e) = (e, none, unlock st)
  walked_page cursor st (Walk.found window) = (
    Result.ok,
    some (page_segment page_shift (also_writable (in_writable_vma cursor st) window)),
    unlock st,
  )

  abbrev pub faulted_page : ℕ → Result × State W → Result × Option PageSegment × State W
  faulted_page cursor (Result.ok, st) = walked_page cursor st (user_present_pte_window cursor st)
  faulted_page cursor (Result.err e, st) = (Result.err e, none, st)
  faulted_page cursor (Result.stuck, st) = (Result.stuck, none, st)

  unfoldable pub sync_one : ℕ → State W → Result × Option PageSegment × State W
  sync_one cursor st = faulted_page cursor (fault_in_user_page cursor st)

  -- The loop, from `cursor` on.
  unfoldable pub collect : ℕ → ℕ → ℕ → Result → State W → Collected W
  collect zero cursor page page_ret st = record { page_ret = page_ret; segments = []; state = st }
  collect (suc n) cursor page page_ret st =
      let (ret, segment, st') = sync_one cursor st in
      let rest =
        collect n (cursor + 2 ^ page_shift) page (if cursor == page then ret else page_ret) st' in
      record rest { segments = add_segment segment rest.segments }

  module _ (mach : Mach W) (host_shift granule : ℕ) where
    abbrev pub map_window_page : Walk × State W → Result × State W
    map_window_page (Walk.failed e, st) = (e, st)
    map_window_page (Walk.found w, st) =
        let (good, s) =
          user_map_page mach host_shift w.target (source_of page_shift w) w.length w.writable
            w.executable st.space in
        (status_of good, record st { space = s })

    -- `orlix_sync_user_pte_page`
    unfoldable pub sync_user_pte_page : ℕ → State W → Result × State W
    sync_user_pte_page page st = map_window_page (user_pte_window page st)

    abbrev pub refresh_window_page : Window → ℕ → State W → Result × State W
    refresh_window_page w source st =
        let (good, s) =
          user_refresh_page mach host_shift w.target source w.length w.writable w.executable
            st.space in
        (status_of good, record st { space = s })

    abbrev pub refresh_walked : Walk × State W → Result × State W
    refresh_walked (Walk.failed e, st) = (e, st)
    refresh_walked (Walk.found w, st) = refresh_window_page w (source_of page_shift w) st

    -- `orlix_refresh_user_pte_page`
    unfoldable pub refresh_user_pte_page : ℕ → State W → Result × State W
    refresh_user_pte_page page st = refresh_walked (user_pte_window page st)

    -- `orlix_refresh_user_pte_page_from_kernel`
    unfoldable pub refresh_user_pte_page_from_kernel : ℕ → ℕ → State W → Result × State W
    refresh_user_pte_page_from_kernel page source st = elim (user_present_pte_window page st) [
      | failed e ↦ (e, st)
      | found w ↦ refresh_window_page w source st
    ]

    -- `window_end` after its bound.
    abbrev pub user_window_end : ℕ → ℕ
    user_window_end start =
        let end = host_window_end granule start in
        if ltb task_size end || ltb end start then task_size else end

    -- `window_end - window_start`, which wraps.
    abbrev pub span : ℕ → ℕ → ℕ
    span start end = u64 (end + 2 ^ 64 - start)

    -- From the loop on.
    unfoldable pub sync_window_pages : ℕ → ℕ → ℕ → State W → Result × State W
    sync_window_pages start end page st =
        let c = collect (rounds page_shift start end) start page (Result.err efault) st in
        and_then (c.page_ret, c.state)
          (λ st'.
            let (good, s) =
              user_refresh_window mach host_shift start (span start end) c.segments st'.space in
            (status_of good, record st' { space = s }))

    -- `orlix_sync_user_host_window`
    unfoldable pub sync_user_host_window : ℕ → State W → Result × State W
    sync_user_host_window page st =
        let start = host_window_start granule page in
        let end = user_window_end start in
        let (got, w) = linux.kcalloc (span start end / 2 ^ page_shift) st.space.world in
        let st' = record st { space = record (st.space) { world = w } } in
        if span start end / 2 ^ page_shift == 0
        then (Result.err efault, st)
        else if not got
        then (Result.err enomem, st')
        else sync_window_pages start end page st'
