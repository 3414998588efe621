-- ===== src/Hosted/Trap/Aperture.antt =====
-- How every trap of user code ends: user code goes on only inside its part of the address space.
use orlix_system.Prelude.{
  ℕ, ◌<◌, ◌≡◌, refl, ap, sym, ◌∙◌, subst, Bool, true, false, not, ◌||◌, if◌then◌else◌, ◌==◌, arith,
  Bool-cases, inl, inr, if_both, bit_and,
}
use orlix_system.Prelude.Bits.{bit_and-low}
use orlix_system.HostMemory.Space.{Mach}
use orlix_system.PageSync.Linux.{Result, Linux}
use orlix_system.Hosted.Events.{EventKind}
use orlix_system.Hosted.Frame.{
  syscall_return, PtRegs, Thread, TrapFrame, user_pc_in_aperture, save_trap_frame,
}
use orlix_system.Hosted.Fault.{FaultCalls, is_set, fault_exec, sigbus, sigkill, sigsegv}
use orlix_system.PageSync.Entry.{fault_bus}
use orlix_system.Hosted.Exec.{
  Exec, TaskCalls, WorkCalls, Ending, stack_words, record_user_event, save_current_kernel_stack,
  start_user_timer_once,
}
use orlix_system.Hosted.Trap.{
  trap_timer, trap_syscall, trap_tls_write, user_trap_is_memory_fault, user_fault_exit_signal,
  unless_panic, die_from_user_trap, handle_fault, invalid_pc_handled, handle_invalid_resume_pc,
  leave_to_user, resume_current_user, user_syscall_done, return_from_syscall, handle_user_syscall,
  fault_handled, user_trap_entry, sync_entry, syscall_gate, enter_user, Entry, serve_entry,
  hosted_syscall_dispatch,
}
use orlix_system.Hosted.Syscall.{sign_extend}

module _ {W : Type 0} (linux : Linux W) (tasks : TaskCalls W) where
  -- The task is no longer active. It ends with no signal if it is exiting, and else with one: by
  -- itself if it has no memory, and with its group if it has.
  abbrev pub Dies : Bool → Bool → ℕ → Exec W → Type 0
  Dies exiting has_mm signr e =
      (0 < signr)
      × (signr < 128)
      × (tasks.is_exiting e.machine.space.world ≡ exiting)
      × (linux.has_mm e.machine.space.world ≡ has_mm)
      × (e.user_active ≡ 0)

  -- User code goes on at the place in its registers, inside the aperture, with the TLS pointer that
  -- hosted_exec.c keeps; or the task dies; or there is a panic.
  abbrev pub Ends : Ending W → Type 0
  Ends (Ending.resumed frame e) =
      (user_pc_in_aperture frame.pc ≡ true)
      × (frame.pc ≡ e.regs.pc)
      × (frame.sp ≡ e.regs.sp)
      × (e.active_user_tls ≡ frame.user_tls)
      × (e.machine.panicked ≡ false)
  Ends (Ending.task_dead e) = (tasks.is_exiting e.machine.space.world ≡ true) × (e.user_active ≡ 0)
  Ends (Ending.task_killed signr e) = Dies false false signr e
  Ends (Ending.group_exit signr e) = Dies false true signr e
  Ends (Ending.panicked e) = e.machine.panicked ≡ true
  Ends (Ending.stuck e) = Unit {0}

  die-Ends :
      (signr : ℕ) (e : Exec W)
      → (0 < signr) × (signr < 128)
      → Ends (die_from_user_trap linux tasks signr e)
  unfolding die_from_user_trap
  die-Ends signr e h = elim (Bool-cases (tasks.is_exiting e.machine.space.world)) [
    | inl exiting ↦ rw (die_from_user_trap, exiting) (exiting, refl)
    | inr alive ↦ elim (Bool-cases (linux.has_mm e.machine.space.world)) [
      | inl has ↦ rw (die_from_user_trap, alive, has) (h.0, h.1, alive, has, refl)
      | inr kernel ↦ rw (die_from_user_trap, alive, kernel) (h.0, h.1, alive, kernel, refl)
    ]
  ]

  -- A branch is taken only where the test says so.
  if_known :
      (b : Bool) (x y : Ending W)
      → (b ≡ true → Ends x)
      → (b ≡ false → Ends y)
      → Ends (if b then x else y)
  if_known true x y f g = f refl
  if_known false x y f g = g refl

  unless_panic-Ends :
      (go : Exec W → Ending W) (e : Exec W)
      → (e.machine.panicked ≡ false → Ends (go e))
      → Ends (unless_panic go e)
  unless_panic-Ends go e f = if_known e.machine.panicked (Ending.panicked e) (go e) (λ p. p) f

save_pc :
    (frame : TrapFrame) (r : PtRegs) (t : Thread) (flags : ℕ)
    → ((save_trap_frame frame r t flags).pc ≡ r.pc)
      × ((save_trap_frame frame r t flags).sp ≡ r.sp)
      × ((save_trap_frame frame r t flags).user_tls ≡ t.user_tls)
unfolding save_trap_frame
save_pc frame r t flags = elim (Bool-cases t.user_simd_valid) [
  | inl live ↦ rw (save_trap_frame, live) (refl, refl, refl)
  | inr unused ↦ rw (save_trap_frame, unused) (refl, refl, refl)
]

module _ {W : Type 0} (linux : Linux W) (tasks : TaskCalls W) where
  timer_keeps :
      (e : Exec W)
      → ((start_user_timer_once linux tasks e).regs ≡ e.regs)
        × ((start_user_timer_once linux tasks e).active_user_tls ≡ e.active_user_tls)
  unfolding start_user_timer_once
  timer_keeps e = ground arith

  event_keeps :
      (kind : EventKind) (flags : ℕ) (full : Bool) (e : Exec W)
      → (record_user_event linux tasks kind flags full e).regs ≡ e.regs
  unfolding record_user_event stack_words
  event_keeps kind flags full e = ground arith

fault_signal-bounds :
    (flags : ℕ) → (0 < user_fault_exit_signal flags) × (user_fault_exit_signal flags < 128)
unfolding user_fault_exit_signal
fault_signal-bounds flags =
    if_both (λ (s : ℕ). (0 < s) × (s < 128)) (is_set flags fault_bus) sigbus sigsegv
      (omega arith, omega arith) (omega arith, omega arith)

exit_code-bounds :
    (signal : ℕ)
    → let code = bit_and signal 0x7f in
      (0 < (if code == 0 then sigkill else code)) × ((if code == 0 then sigkill else code) < 128)
exit_code-bounds signal = elim (Bool-cases (bit_and signal 0x7f == 0)) [
  | inl silent ↦ rw (silent) (omega arith, omega arith)
  | inr known ↦ rw (known) (ground (arith, known), omega (arith, bit_and-low 7 signal))
]

module _ {W : Type 0} (linux : Linux W) (calls : FaultCalls W) (tasks : TaskCalls W)
    (work : WorkCalls W) (page_shift fuel : ℕ) (mach : Mach W)
    (host_shift granule gate_page handler : ℕ) (uninit : TrapFrame) where
  leave-Ends :
      (flags : ℕ) (e : Exec W)
      → user_pc_in_aperture e.regs.pc ≡ true
      → Ends linux tasks (
          leave_to_user linux calls tasks work page_shift fuel mach host_shift granule gate_page
            handler uninit flags e)
  unfolding leave_to_user save_current_kernel_stack
  leave-Ends flags e inside =
      let saved = save_current_kernel_stack linux tasks e in
      let frame = save_trap_frame uninit saved.regs saved.thread flags in
      let left = record saved { active_user_tls = frame.user_tls } in
      let same = save_pc uninit saved.regs saved.thread flags in
      let kept = timer_keeps linux tasks left in
      unless_panic-Ends linux tasks (Ending.resumed frame) (start_user_timer_once linux tasks left)
        (λ fine. (
          subst (λ (pc : ℕ). user_pc_in_aperture pc ≡ true) (sym same.0) inside,
          same.0 ∙ ap (λ (r : PtRegs). r.pc) (sym kept.0),
          same.1 ∙ ap (λ (r : PtRegs). r.sp) (sym kept.0),
          kept.1,
          fine,
        ))

  invalid_pc-Ends :
      (go : Exec W → Ending W)
      → ((e : Exec W) → user_pc_in_aperture e.regs.pc ≡ true → Ends linux tasks (go e))
      → (r : Result × Exec W)
      → Ends linux tasks (
          invalid_pc_handled linux calls tasks work page_shift fuel mach host_shift granule
            gate_page handler uninit go r)
  unfolding invalid_pc_handled
  invalid_pc-Ends go f (Result.ok, e) =
      let worked = work.exit_to_user_mode_work e in
      if_known linux tasks (user_pc_in_aperture worked.regs.pc) (go worked)
        (die_from_user_trap linux tasks sigsegv worked) (f worked)
        (λ out. die-Ends linux tasks sigsegv worked (omega arith, omega arith))
  invalid_pc-Ends go f (Result.err n, e) = die-Ends linux tasks sigsegv e (omega arith, omega arith)
  invalid_pc-Ends go f (Result.stuck, e) = tt

  resume-Ends :
      (full : Bool) (flags : ℕ) (e : Exec W)
      → Ends linux tasks (
          resume_current_user linux calls tasks work page_shift fuel mach host_shift granule
            gate_page handler uninit full flags e)
  unfolding resume_current_user handle_invalid_resume_pc
  resume-Ends full flags e =
      let event = λ (x : Exec W). record_user_event linux tasks EventKind.resume flags full x in
      let go = λ (x : Exec W).
        unless_panic
          (leave_to_user linux calls tasks work page_shift fuel mach host_shift granule gate_page
            handler uninit flags)
          (sync_entry linux calls tasks work page_shift fuel mach host_shift granule gate_page
            handler uninit full (event x)) in
      let go-Ends : (x : Exec W) → user_pc_in_aperture x.regs.pc ≡ true → Ends linux tasks (go x) =
        λ x inside.
          unless_panic-Ends linux tasks
            (leave_to_user linux calls tasks work page_shift fuel mach host_shift granule gate_page
              handler uninit flags)
            (sync_entry linux calls tasks work page_shift fuel mach host_shift granule gate_page
              handler uninit full (event x))
            (λ fine.
              leave-Ends flags
                (sync_entry linux calls tasks work page_shift fuel mach host_shift granule gate_page
                  handler uninit full (event x))
                (subst (λ (r : PtRegs). user_pc_in_aperture r.pc ≡ true)
                  (sym (event_keeps linux tasks EventKind.resume flags full x)) inside)) in
      let dead = die_from_user_trap linux tasks sigkill e in
      let faulted =
        invalid_pc_handled linux calls tasks work page_shift fuel mach host_shift granule gate_page
          handler uninit go
          (handle_fault linux calls tasks work page_shift fuel mach host_shift granule gate_page
            handler uninit e.regs.pc fault_exec e) in
      if_known linux tasks
        (not (linux.has_mm e.machine.space.world) || tasks.is_exiting e.machine.space.world) dead
        (handle_invalid_resume_pc linux calls tasks work page_shift fuel mach host_shift granule
          gate_page handler uninit go e)
        (λ gone. die-Ends linux tasks sigkill e (omega arith, omega arith))
        (λ alive.
          if_known linux tasks (user_pc_in_aperture e.regs.pc) (go e) faulted (go-Ends e) (λ out.
            invalid_pc-Ends go go-Ends (
              handle_fault linux calls tasks work page_shift fuel mach host_shift granule gate_page
                handler uninit e.regs.pc fault_exec e)))

  syscall-Ends :
      (e : Exec W)
      → Ends linux tasks (
          handle_user_syscall linux calls tasks work page_shift fuel mach host_shift granule
            gate_page handler uninit e)
  unfolding handle_user_syscall
  syscall-Ends e =
      let called =
        user_syscall_done linux calls tasks work page_shift fuel mach host_shift granule gate_page
          handler uninit e in
      unless_panic-Ends linux tasks
        (return_from_syscall linux calls tasks work page_shift fuel mach host_shift granule
          gate_page handler uninit)
        called
        (λ fine. resume-Ends true syscall_return (
          record_user_event linux tasks EventKind.syscall_return (sign_extend called.regs.syscallno)
            false called))

  fault-Ends :
      (flags : ℕ) (r : Result × Exec W)
      → Ends linux tasks (
          fault_handled linux calls tasks work page_shift fuel mach host_shift granule gate_page
            handler uninit flags r)
  unfolding fault_handled
  fault-Ends flags (Result.ok, e) = resume-Ends false 0 (work.exit_to_user_mode_work e)
  fault-Ends flags (Result.err n, e) =
      die-Ends linux tasks (user_fault_exit_signal flags) e (fault_signal-bounds flags)
  fault-Ends flags (Result.stuck, e) = tt

  user_trap_entry-Ends :
      (signal : ℕ) (frame : TrapFrame) (e : Exec W)
      → Ends linux tasks (
          user_trap_entry linux calls tasks work page_shift fuel mach host_shift granule gate_page
            handler uninit signal frame e)
  unfolding user_trap_entry
  user_trap_entry-Ends signal frame e = elim (Bool-cases (signal == trap_timer)) [
    | inl timer ↦ rw (user_trap_entry, timer) (resume-Ends _ _ _)
    | inr other ↦ elim (Bool-cases (signal == trap_syscall)) [
      | inl syscall ↦ rw (user_trap_entry, other, syscall) (syscall-Ends _)
      | inr third ↦ elim (Bool-cases (signal == trap_tls_write)) [
        | inl tls ↦ rw (user_trap_entry, other, third, tls) (resume-Ends _ _ _)
        | inr fourth ↦ elim (Bool-cases (user_trap_is_memory_fault signal)) [
          | inl fault ↦ rw (user_trap_entry, other, third, fourth, fault) (fault-Ends _ _)
          | inr last ↦
              rw (user_trap_entry, other, third, fourth, last)
                (die-Ends linux tasks _ _ (exit_code-bounds signal))
        ]
      ]
    ]
  ]

  syscall_gate-Ends :
      (scno : ℕ) (args : ℕ → ℕ) (user_sp user_tls : ℕ) (e : Exec W)
      → Ends linux tasks (
          syscall_gate linux calls tasks work page_shift fuel mach host_shift granule gate_page
            handler uninit scno args user_sp user_tls e)
  unfolding syscall_gate
  syscall_gate-Ends scno args user_sp user_tls e =
      let called =
        hosted_syscall_dispatch linux calls tasks work page_shift fuel mach host_shift granule
          gate_page handler uninit scno args user_sp user_tls e in
      unless_panic-Ends linux tasks
        (resume_current_user linux calls tasks work page_shift fuel mach host_shift granule
          gate_page handler uninit true syscall_return)
        called (λ fine. resume-Ends true syscall_return called)

  -- However the kernel gets to a task, and whatever Linux does meanwhile: user code goes on only inside
  -- its part of the address space, at the place and with the stack pointer of the task's registers,
  -- with the TLS pointer that is kept as the active one, and not after a panic; a task that dies is no
  -- longer active, and dies with no signal if it is exiting, and else of a signal from 1 to 127, alone
  -- if it has no memory and with its group if it has.
  pub serve_entry-Ends :
      (entry : Entry) (e : Exec W)
      → Ends linux tasks (
          serve_entry linux calls tasks work page_shift fuel mach host_shift granule gate_page
            handler uninit entry e)
  unfolding enter_user
  serve_entry-Ends Entry.enter e = resume-Ends true 0 e
  serve_entry-Ends (Entry.trap signal frame) e = user_trap_entry-Ends signal frame e
  serve_entry-Ends (Entry.gate scno args user_sp user_tls) e =
      syscall_gate-Ends scno args user_sp user_tls e
