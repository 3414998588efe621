-- ===== src/Hosted/Fault.antt =====
-- OrlixKernel/Sources/ports/orlix/overlay/arch/orlix/mm/fault.c: a fault of user code that the host
-- reports. What it prints is left out.
use orlix_system.Prelude.{
  ℕ, zero, suc, ◌+◌, ◌-◌, ◌*◌, ◌^◌, Bool, true, false, not, ◌&&◌, ◌||◌, Option, none, some,
  if◌then◌else◌, ◌==◌, bit_and,
}
use orlix_system.HostMemory.Space.{Mach, Space}
use orlix_system.PageSync.Linux.{Result, efault, Vma, FaultFlags, Fault, Linux, State, lock, unlock}
use orlix_system.PageSync.User.{after_fault}
use orlix_system.PageSync.Entry.{fault_bus, sync_current_user_fault_window}
pub mod Locks

-- ORLIX_HOST_USER_FAULT_WRITE
abbrev pub fault_write : ℕ
fault_write = 1

-- ORLIX_HOST_USER_FAULT_EXEC
abbrev pub fault_exec : ℕ
fault_exec = 2

abbrev pub sigbus : ℕ
sigbus = 7

abbrev pub sigkill : ℕ
sigkill = 9

abbrev pub sigsegv : ℕ
sigsegv = 11

-- SEGV_MAPERR
abbrev pub segv_maperr : ℕ
segv_maperr = 1

-- SEGV_ACCERR
abbrev pub segv_accerr : ℕ
segv_accerr = 2

-- BUS_ADRERR
abbrev pub bus_adrerr : ℕ
bus_adrerr = 2

-- What fault.c calls of Linux beside what init.c does. `force_sig_fault` takes a signal, its code and
-- an address.
pub record FaultCalls (W : Type 0) : Type 0 where
  pub faulthandler_disabled : W → Bool
  pub force_sig_fault : ℕ → ℕ → ℕ → W → W
  pub pagefault_out_of_memory : W → W

abbrev pub is_set : ℕ → ℕ → Bool
is_set flags bit = not (bit_and flags bit == 0)

abbrev pub on_world : {W : Type 0} → (W → W) → State W → State W
on_world f st = record st { space = record (st.space) { world = f st.space.world } }

-- `vma->vm_flags & required`
abbrev pub allows : ℕ → Vma → Bool
allows fault_flags vma =
    if is_set fault_flags fault_exec
    then vma.executable
    else if is_set fault_flags fault_write
    then vma.writable
    else vma.readable

-- `... ? -EFAULT : 0`
abbrev pub or_efault : {W : Type 0} → Result × State W → Result × State W
or_efault (Result.ok, st) = (Result.ok, st)
or_efault (Result.err e, st) = (Result.err efault, st)
or_efault (Result.stuck, st) = (Result.stuck, st)

-- `fuel` bounds how often a fault is retried, here and in init.c.
module _ {W : Type 0} (linux : Linux W) (calls : FaultCalls W) (page_shift fuel : ℕ) (mach : Mach W)
    (host_shift granule gate_page handler address fault_flags : ℕ) where
  -- `orlix_force_user_fault_signal`
  unfoldable pub force_user_fault_signal : ℕ → State W → State W
  force_user_fault_signal si_code st =
      on_world
        (if is_set fault_flags fault_bus
          then calls.force_sig_fault sigbus bus_adrerr address
          else calls.force_sig_fault sigsegv si_code address)
        st

  -- From `bad_area_nosemaphore` on.
  abbrev pub bad_area : ℕ → State W → Result × State W
  bad_area si_code st = (Result.ok, force_user_fault_signal si_code st)

  abbrev pub sync_fault : State W → Result × State W
  sync_fault st = or_efault (
      sync_current_user_fault_window linux page_shift fuel mach host_shift granule gate_page handler
        address fault_flags st)

  -- After `handle_mm_fault`; `again` is `goto retry`.
  unfoldable pub conclude_fault : (State W → Result × State W) → Fault → State W → Result × State W
  conclude_fault again fault st =
      let failure : Result × State W =
        if fault.oom
        then (Result.ok, on_world calls.pagefault_out_of_memory (unlock st))
        else if fault.sigbus
        then (Result.ok, on_world (calls.force_sig_fault sigbus bus_adrerr address) (unlock st))
        else bad_area segv_accerr (unlock st) in
      let settled : Result × State W = if fault.retry then again st else sync_fault (unlock st) in
      if linux.fault_signal_pending fault st.space.world
      then (Result.ok, st)
      else if fault.completed
      then sync_fault st
      else elim fault.error [ none ↦ settled | some e ↦ failure ]

  -- A round with the lock taken.
  unfoldable pub attempt_fault :
      (State W → Result × State W) → Bool → Vma → State W → Result × State W
  attempt_fault again tried vma st =
      let flags : FaultFlags = record {
        instruction = is_set fault_flags fault_exec;
        write = not (is_set fault_flags fault_exec) && is_set fault_flags fault_write;
        tried = tried;
      } in
      let (fault, s) = linux.handle_mm_fault vma address flags st.space in
      let concluded = conclude_fault again fault (after_fault fault (record st { space = s })) in
      if not (allows fault_flags vma) then bad_area segv_accerr (unlock st) else concluded

  -- From `retry` on; `si_code` stays SEGV_ACCERR after a first round.
  unfoldable pub fault_loop : ℕ → Bool → State W → Result × State W
  fault_loop zero tried st = (Result.stuck, st)
  fault_loop (suc n) tried st =
      let (vma, s) = linux.lock_mm_and_find_vma address st.space in
      let st' = record st { space = s } in
      elim vma [
        | none ↦ bad_area (if tried then segv_accerr else segv_maperr) st'
        | some v ↦ attempt_fault (fault_loop n true) tried v (lock st')
      ]

  -- `orlix_handle_host_user_fault`; `user` is `user_mode(regs)`.
  unfoldable pub handle_host_user_fault : Bool → State W → Result × State W
  handle_host_user_fault user st =
      if not user || calls.faulthandler_disabled st.space.world || not (linux.has_mm st.space.world)
      then (Result.err efault, st)
      else fault_loop fuel false st
