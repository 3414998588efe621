-- ===== src/Hosted/Exec.antt =====
-- The state of hosted execution, its events and its TLS register: kernel/hosted_exec.c.
use orlix_system.Prelude.{
  ℕ, ◌+◌, ◌-◌, Bool, true, not, ◌&&◌, ◌||◌, List, set, if◌then◌else◌, ◌==◌, ltb,
}
use orlix_system.HostMemory.Space.{Space}
use orlix_system.PageSync.Linux.{task_size, Linux, State, panic}
use orlix_system.Hosted.Events.{EventKind, Event, Ring, append_event}
use orlix_system.Hosted.Frame.{PtRegs, Thread, TrapFrame, hosted_valid_user_tls}

-- The current task's registers and thread, and the variables of hosted_exec.c. `active_user_tls` to
-- `entry_user_callee` have the prefix orlix_hosted_ there, `timer_ready` is
-- orlix_hosted_user_timer_ready, and `hw_tls` is the register TPIDR_EL0.
pub record Exec (W : Type 0) : Type 0 where
  pub machine : State W
  pub regs : PtRegs
  pub thread : Thread
  pub ring : Ring
  pub hw_tls : ℕ
  pub active_user_tls : ℕ
  pub user_active : ℕ
  pub kernel_sp : ℕ
  pub entry_user_pc : ℕ
  pub entry_user_callee : ℕ → ℕ
  pub timer_ready : Bool

-- What is asked of Linux and of the host about the current task: its name and number, whether it is
-- exiting, where its registers are, a word of its memory (`copy_from_user` into a word of 0), the
-- interrupt flag, and the host's timer. `psr_flags` is PSR_N_BIT | PSR_Z_BIT | PSR_C_BIT | PSR_V_BIT,
-- and `async_timer` is CONFIG_ORLIX_HOSTED_ASYNC_USER_TIMER.
pub record TaskCalls (W : Type 0) : Type 0 where
  pub comm : W → List ℕ
  pub pid : W → ℕ
  pub is_exiting : W → Bool
  pub task_pt_regs : W → ℕ
  pub copy_word_from_user : ℕ → Space W → ℕ × Space W
  pub local_irq_enable : W → W
  pub start_timer : W → Bool × W
  pub psr_flags : ℕ
  pub psr_mode_mask : ℕ
  pub psr_mode_el0t : ℕ
  pub async_timer : Bool

-- The functions of kernel/time.c, kernel/signal.c and of Linux's system calls that can change any of
-- the state, since they can let other tasks run: `orlix_timer_poll`, `orlix_exit_to_user_mode_work`,
-- and `syscall` of a number, whose arguments are in the registers, with its result.
pub record WorkCalls (W : Type 0) : Type 0 where
  pub timer_poll : Exec W → Exec W
  pub exit_to_user_mode_work : Exec W → Exec W
  pub nr_syscalls : ℕ
  pub nr_write : ℕ
  pub syscall : ℕ → Exec W → ℕ × Exec W

-- How a function that does not return ends: user code goes on with a frame, `do_task_dead` ends the
-- task, `make_task_dead` or `do_group_exit` end it with a signal, or the kernel panics. `stuck` is a
-- fault that is retried more often than the fuel says.
pub data Ending (W : Type 0) : Type 0 where
  resumed : TrapFrame → Exec W → Ending W
  task_dead : Exec W → Ending W
  task_killed : ℕ → Exec W → Ending W
  group_exit : ℕ → Exec W → Ending W
  panicked : Exec W → Ending W
  stuck : Exec W → Ending W

abbrev pub on_machine : {W : Type 0} → (State W → State W) → Exec W → Exec W
on_machine f e = record e { machine = f e.machine }

module _ {W : Type 0} (linux : Linux W) (tasks : TaskCalls W) where
  -- `orlix_hosted_valid_user_tls` guards a captured TLS pointer.
  unfoldable pub preserve_captured_user_tls : ℕ → Exec W → Exec W
  preserve_captured_user_tls tls e =
      if not (linux.has_mm e.machine.space.world) || not (hosted_valid_user_tls tls)
      then e
      else record e { thread = record (e.thread) { user_tls = tls }; active_user_tls = tls }

  -- `orlix_hosted_restore_task_user_tls` of the current task; that the register is read back and
  -- written again makes no difference.
  unfoldable pub restore_user_tls : Exec W → Exec W
  restore_user_tls e =
      if linux.has_mm e.machine.space.world
      then record e { hw_tls = e.thread.user_tls; active_user_tls = e.thread.user_tls }
      else e

  unfoldable pub preserve_user_tls : Exec W → Exec W
  preserve_user_tls e =
      if linux.has_mm e.machine.space.world then preserve_captured_user_tls e.hw_tls e else e

  -- The result is the TLS pointer of the task.
  unfoldable pub prepare_user_entry : ℕ → Exec W → ℕ × Exec W
  prepare_user_entry tls e =
      let e' =
        if linux.has_mm e.machine.space.world && hosted_valid_user_tls tls
        then record e { thread = record (e.thread) { user_tls = tls }; active_user_tls = tls }
        else restore_user_tls e in
      (e'.thread.user_tls, e')

  unfoldable pub note_user_entry_tls : ℕ → Exec W → Exec W
  note_user_entry_tls tls e = record e { active_user_tls = tls; user_active = 1 }

  -- The two words of the stack that an event has.
  unfoldable pub stack_words : Exec W → ℕ × ℕ × Exec W
  stack_words e =
      let sp = e.regs.sp in
      let first = tasks.copy_word_from_user sp e.machine.space in
      let second = tasks.copy_word_from_user (sp + 8) first.1 in
      if linux.has_mm e.machine.space.world && not (sp == 0) && ltb sp (task_size - 8)
      then (first.0, second.0, record e { machine = record (e.machine) { space = second.1 } })
      else (0, 0, e)

  -- `orlix_hosted_record_user_event`
  unfoldable pub record_user_event : EventKind → ℕ → Bool → Exec W → Exec W
  record_user_event kind flags full_stack_window e =
      let (stack0, stack8, e') = stack_words e in
      let event : Event = record {
        seq = 0;
        kind = kind;
        comm = set (tasks.comm e.machine.space.world) 15 0;
        pid = tasks.pid e.machine.space.world;
        pc = e.regs.pc;
        lr = e.regs.regs 30;
        sp = e.regs.sp;
        x0 = e.regs.regs 0;
        x8 = e.regs.regs 8;
        flags = flags;
        stack0 = stack0;
        stack8 = stack8;
        full_stack_window = full_stack_window;
      } in
      record e' { ring = append_event event e.ring }

  -- `orlix_hosted_save_current_kernel_stack`
  unfoldable pub save_current_kernel_stack : Exec W → Exec W
  save_current_kernel_stack e = record e { kernel_sp = tasks.task_pt_regs e.machine.space.world }

  -- A failure is a panic.
  unfoldable pub start_user_timer_once : Exec W → Exec W
  start_user_timer_once e =
      let (failed, w) = tasks.start_timer e.machine.space.world in
      let st = record (e.machine) { space = record (e.machine.space) { world = w } } in
      if not tasks.async_timer || e.timer_ready
      then e
      else if failed
      then record e { machine = panic st }
      else record e { machine = st; timer_ready = true }
