-- ===== src/Hosted/Trap.antt =====
-- From a trap of user code to its resumption: `orlix_hosted_user_trap_entry`,
-- `orlix_hosted_resume_current_user` and the calls of the syscall gate.
use orlix_system.Prelude.{
  ℕ, zero, suc, ◌+◌, ◌-◌, ◌*◌, ◌/◌, ◌^◌, Bool, true, false, not, ◌&&◌, ◌||◌, if◌then◌else◌, ◌==◌,
  ltb, leb, u32, u64, bit_and,
}
use orlix_system.HostMemory.Space.{Mach, Space}
use orlix_system.HostMemory.User.{user_sync_writable_mappings}
use orlix_system.PageSync.Linux.{Result, task_size, Linux, State, page_of}
use orlix_system.PageSync.Kernel.{rounds, sync_hosted_kernel_fault}
use orlix_system.PageSync.Entry.{
  Regs, fault_bus, sync_current_user_mapping_page, sync_current_user_mappings,
  sync_current_user_minimal_mappings,
}
use orlix_system.Hosted.Events.{EventKind}
use orlix_system.Hosted.Frame.{
  copy_words, has_tls, syscall_return, in_syscall, forget_syscall, PtRegs, TrapFrame,
  user_pc_in_aperture, restore_trap_frame, apply_frame_user_state, save_trap_frame,
}
use orlix_system.Hosted.Fault.{
  FaultCalls, is_set, fault_exec, sigbus, sigkill, sigsegv, handle_host_user_fault,
}
use orlix_system.Hosted.Exec.{
  Exec, TaskCalls, WorkCalls, Ending, on_machine, preserve_captured_user_tls, record_user_event,
  save_current_kernel_stack, start_user_timer_once,
}
pub mod Aperture
use orlix_system.Hosted.Syscall.{sign_extend, set_reg, sync_syscall_user_ranges, syscall_dispatch}

-- ORLIX_HOST_USER_TRAP_TIMER
abbrev pub trap_timer : ℕ
trap_timer = 0x10000

-- ORLIX_HOST_USER_TRAP_SYSCALL
abbrev pub trap_syscall : ℕ
trap_syscall = 0x10001

-- ORLIX_HOST_USER_TRAP_TLS_WRITE
abbrev pub trap_tls_write : ℕ
trap_tls_write = 0x10002

-- ORLIX_HOST_USER_TRAP_MEMORY_FAULT
abbrev pub trap_memory_fault : ℕ
trap_memory_fault = 0x10003

unfoldable pub user_trap_is_memory_fault : ℕ → Bool
user_trap_is_memory_fault signal =
    signal == trap_memory_fault || signal == sigbus || signal == sigsegv

unfoldable pub user_fault_exit_signal : ℕ → ℕ
user_fault_exit_signal fault_flags = if is_set fault_flags fault_bus then sigbus else sigsegv

-- The next instruction.
abbrev pub skip_instruction : PtRegs → PtRegs
skip_instruction r = record r { pc = u64 (r.pc + 4) }

-- `orlix_hosted_die_from_user_trap`
unfoldable pub die_from_user_trap : {W : Type 0} → Linux W → TaskCalls W → ℕ → Exec W → Ending W
die_from_user_trap linux tasks signr e =
    let e' = record e { user_active = 0 } in
    if tasks.is_exiting e'.machine.space.world
    then Ending.task_dead e'
    else if not (linux.has_mm e'.machine.space.world)
    then Ending.task_killed signr e'
    else Ending.group_exit signr e'

-- What comes after a call that may have panicked.
abbrev pub unless_panic : {W : Type 0} → (Exec W → Ending W) → Exec W → Ending W
unless_panic go e = if e.machine.panicked then Ending.panicked e else go e

-- How the kernel gets to a task: `orlix_hosted_enter_user` for a new program, a trap with its signal
-- and frame, and the syscall gate with a number, arguments, stack pointer and TLS pointer.
pub data Entry : Type 0 where
  enter : Entry
  trap : ℕ → TrapFrame → Entry
  gate : ℕ → (ℕ → ℕ) → ℕ → ℕ → Entry

-- `uninit` is the frame on the stack before it is filled.
module _ {W : Type 0} (linux : Linux W) (calls : FaultCalls W) (tasks : TaskCalls W)
    (work : WorkCalls W) (page_shift fuel : ℕ) (mach : Mach W)
    (host_shift granule gate_page handler : ℕ) (uninit : TrapFrame) where
  abbrev pub sync_writable : Exec W → Exec W
  sync_writable = on_machine (λ st. record st { space = user_sync_writable_mappings st.space })

  -- The mappings that a task needs before it goes on.
  abbrev pub sync_entry : Bool → Exec W → Exec W
  sync_entry full_stack_window e =
      let r : Regs = record { pc = e.regs.pc; sp = e.regs.sp } in
      on_machine
        (λ st.
          if full_stack_window
          then sync_current_user_mappings linux page_shift fuel mach host_shift granule gate_page
              handler r st
          else sync_current_user_minimal_mappings linux page_shift fuel mach host_shift granule
              gate_page handler r st)
        e

  -- `user_mode(regs)`
  abbrev pub user_mode : PtRegs → Bool
  user_mode r = bit_and r.pstate tasks.psr_mode_mask == tasks.psr_mode_el0t

  abbrev pub handle_fault : ℕ → ℕ → Exec W → Result × Exec W
  handle_fault address fault_flags e =
      let (ret, st) =
        handle_host_user_fault linux calls page_shift fuel mach host_shift granule gate_page handler
          address fault_flags (user_mode e.regs) e.machine in
      (ret, record e { machine = st })

  -- After the fault of `orlix_hosted_handle_invalid_resume_pc`.
  unfoldable pub invalid_pc_handled : (Exec W → Ending W) → Result × Exec W → Ending W
  invalid_pc_handled go (Result.ok, e) =
      let worked = work.exit_to_user_mode_work e in
      if user_pc_in_aperture worked.regs.pc
      then go worked
      else die_from_user_trap linux tasks sigsegv worked
  invalid_pc_handled go (Result.err n, e) = die_from_user_trap linux tasks sigsegv e
  invalid_pc_handled go (Result.stuck, e) = Ending.stuck e

  -- `orlix_hosted_handle_invalid_resume_pc`, and what follows it.
  unfoldable pub handle_invalid_resume_pc : (Exec W → Ending W) → Exec W → Ending W
  handle_invalid_resume_pc go e =
      if user_pc_in_aperture e.regs.pc
      then go e
      else invalid_pc_handled go (handle_fault e.regs.pc fault_exec e)

  -- `orlix_hosted_resume_current_user` from the mappings on.
  unfoldable pub leave_to_user : ℕ → Exec W → Ending W
  leave_to_user frame_flags e =
      let saved = save_current_kernel_stack linux tasks e in
      let frame = save_trap_frame uninit saved.regs saved.thread frame_flags in
      let timed =
        start_user_timer_once linux tasks (record saved { active_user_tls = frame.user_tls }) in
      unless_panic (Ending.resumed frame) timed

  unfoldable pub resume_current_user : Bool → ℕ → Exec W → Ending W
  resume_current_user full_stack_window frame_flags e =
      if not (linux.has_mm e.machine.space.world) || tasks.is_exiting e.machine.space.world
      then die_from_user_trap linux tasks sigkill e
      else handle_invalid_resume_pc
          (λ e'. unless_panic (leave_to_user frame_flags) (
            sync_entry full_stack_window
              (record_user_event linux tasks EventKind.resume frame_flags full_stack_window e')))
          e

  -- `orlix_hosted_handle_user_syscall` up to the mappings after the system call.
  unfoldable pub user_syscall_done : Exec W → Exec W
  user_syscall_done e =
      let synced = sync_writable e in
      let r = synced.regs in
      let entered =
        skip_instruction (record r { orig_x0 = r.regs 0; syscallno = u32 (r.regs 8) }) in
      let noted =
        record_user_event linux tasks EventKind.syscall_enter (sign_extend entered.syscallno) false
          (record synced { regs = entered }) in
      sync_entry false (
        syscall_dispatch linux work page_shift fuel mach host_shift granule gate_page handler (
          sync_syscall_user_ranges linux work page_shift fuel mach host_shift granule gate_page
            handler noted))

  abbrev pub return_from_syscall : Exec W → Ending W
  return_from_syscall e = resume_current_user true syscall_return (
      record_user_event linux tasks EventKind.syscall_return (sign_extend e.regs.syscallno) false e)

  unfoldable pub handle_user_syscall : Exec W → Ending W
  handle_user_syscall e = unless_panic return_from_syscall (user_syscall_done e)

  unfoldable pub enter_user : Exec W → Ending W
  enter_user e = resume_current_user true 0 e

  -- A trap of a memory fault, after the fault has been handled.
  unfoldable pub fault_handled : ℕ → Result × Exec W → Ending W
  fault_handled fault_flags (Result.ok, e) =
      resume_current_user false 0 (work.exit_to_user_mode_work e)
  fault_handled fault_flags (Result.err n, e) =
      die_from_user_trap linux tasks (user_fault_exit_signal fault_flags) e
  fault_handled fault_flags (Result.stuck, e) = Ending.stuck e

  -- `orlix_hosted_user_trap_entry`. The registers of the task are at the same place before and after
  -- other tasks have run.
  unfoldable pub user_trap_entry : ℕ → TrapFrame → Exec W → Ending W
  user_trap_entry signal frame e =
      let regs = restore_trap_frame tasks.psr_flags e.regs frame in
      let thread = apply_frame_user_state frame e.thread in
      let restored = record e { regs = regs; thread = thread } in
      let enabled =
        on_machine
          (λ st. record st {
            space = record (st.space) { world = tasks.local_irq_enable st.space.world };
          })
          restored in
      let polled = work.exit_to_user_mode_work (work.timer_poll enabled) in
      let moved = not (polled.regs.pc == regs.pc) || not (polled.regs.sp == regs.sp) in
      let kept =
        if is_set frame.frame_flags has_tls
        then preserve_captured_user_tls linux tasks frame.user_tls enabled
        else enabled in
      let written =
        work.exit_to_user_mode_work (record kept { regs = skip_instruction kept.regs }) in
      let exit_code = bit_and signal 0x7f in
      if signal == trap_timer
      then resume_current_user moved 0 polled
      else if signal == trap_syscall
      then handle_user_syscall enabled
      else if signal == trap_tls_write
      then resume_current_user false 0 written
      else if user_trap_is_memory_fault signal
      then fault_handled frame.fault_flags
          (handle_fault frame.fault_address frame.fault_flags enabled)
      else die_from_user_trap linux tasks (if exit_code == 0 then sigkill else exit_code) enabled

  -- `orlix_hosted_save_callee_registers`
  abbrev pub save_callee_registers : Exec W → Exec W
  save_callee_registers e =
      let callee : ℕ → ℕ =
        λ i. if leb 19 i && ltb i 31 then e.entry_user_callee (i - 19) else e.regs.regs i in
      record e { regs = record (e.regs) { regs = callee } }

  -- `orlix_hosted_syscall_dispatch`, with its arguments `arg0` to `arg5`.
  unfoldable pub hosted_syscall_dispatch : ℕ → (ℕ → ℕ) → ℕ → ℕ → Exec W → Exec W
  hosted_syscall_dispatch scno args user_sp user_tls e =
      let timed =
        start_user_timer_once linux tasks (preserve_captured_user_tls linux tasks user_tls e) in
      let saved = save_callee_registers (sync_writable timed) in
      let numbered =
        set_reg 8 scno (record (saved.regs) { regs = copy_words 6 saved.regs.regs args }) in
      let entered = record numbered {
        orig_x0 = args 0;
        sp = user_sp;
        pc = saved.entry_user_pc;
        pstate = tasks.psr_mode_el0t;
        syscallno = u32 scno;
      } in
      if timed.machine.panicked
      then timed
      else sync_entry false (
          syscall_dispatch linux work page_shift fuel mach host_shift granule gate_page handler
            (record saved { regs = entered }))

  -- `orlix_hosted_syscall_gate`: the dispatch and `orlix_hosted_syscall_enter_user`.
  unfoldable pub syscall_gate : ℕ → (ℕ → ℕ) → ℕ → ℕ → Exec W → Ending W
  syscall_gate scno args user_sp user_tls e =
      unless_panic (resume_current_user true syscall_return)
        (hosted_syscall_dispatch scno args user_sp user_tls e)

  abbrev pub serve_entry : Entry → Exec W → Ending W
  serve_entry Entry.enter e = enter_user e
  serve_entry (Entry.trap signal frame) e = user_trap_entry signal frame e
  serve_entry (Entry.gate scno args user_sp user_tls) e = syscall_gate scno args user_sp user_tls e

  -- A fault of the kernel: `orlix_hosted_handle_kernel_fault`.
  unfoldable pub handle_kernel_fault : ℕ → State W → Result × State W
  handle_kernel_fault fault_address st =
      sync_hosted_kernel_fault page_shift host_shift granule mach linux fault_address st
