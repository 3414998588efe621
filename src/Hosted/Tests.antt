-- ===== src/Hosted/Tests.antt =====
-- The sample task of PageSync/Sample.antt, with a frame whose registers hold their numbers.
use orlix_system.Prelude.{ℕ, ◌*◌, ◌≡◌, refl, true, false, List, [], ◌∷◌, arith, inr, replicate}
use orlix_system.PageSync.Steps.{Holds}
use orlix_system.PageSync.Sample.{
  test_mach, test-KeepsNull, test_linux, test_shift, test-Documented, test_state, test-Holds,
  shift_divides,
}
use orlix_system.Hosted.Events.{EventKind, Event, dump_recent_user_events}
use orlix_system.Hosted.Events.Recent.{note_all, append_all, dump-Log}
use orlix_system.Hosted.Frame.{
  hosted_valid_user_tls, syscall_return, PtRegs, Thread, TrapFrame, restore_trap_frame,
  apply_frame_user_state, save_trap_frame,
}
use orlix_system.Hosted.Frame.Trip.{SameRegs, SameThread, frame_round_trip}
use orlix_system.Hosted.Fault.{FaultCalls, handle_host_user_fault}
use orlix_system.Hosted.Fault.Locks.{handle_host_user_fault-Holds}
use orlix_system.Hosted.Exec.{Exec, TaskCalls, WorkCalls}
use orlix_system.Hosted.Trap.{Entry, trap_syscall, serve_entry}
use orlix_system.Hosted.Trap.Aperture.{Ends, serve_entry-Ends}

abbrev test_event : Event
test_event = record {
  seq = 0;
  kind = EventKind.resume;
  comm = [];
  pid = 1;
  pc = 0;
  lr = 0;
  sp = 0;
  x0 = 0;
  x8 = 0;
  flags = 0;
  stack0 = 0;
  stack8 = 0;
  full_stack_window = false;
}

abbrev two_events : List Event
two_events = test_event ∷ record test_event { pid = 2 } ∷ []

dump-Log_example :
    dump_recent_user_events
      (append_all two_events (record { events = λ i. test_event; event_seq = 0; event_next = 0 }))
    ≡ (note_all two_events (record { written = 0; recent = [] })).recent
dump-Log_example = dump-Log two_events (λ i. test_event) (omega arith)

abbrev test_psr_flags : ℕ
test_psr_flags = 0xf0000000

abbrev test_frame : TrapFrame
test_frame = record {
  regs = λ i. i;
  sp = 0x600000010000;
  pc = 0x600000020000;
  pstate = 0;
  simd = λ i. 0;
  fpsr = 0;
  fpcr = 0;
  fault_address = 0;
  fault_flags = 0;
  user_tls = 0x600000030000;
  frame_flags = 1;
}

abbrev test_regs : PtRegs
test_regs = record {
  regs = λ i. i;
  sp = 0x600000010000;
  pc = 0x600000020000;
  pstate = 0x60000000;
  orig_x0 = 0;
  syscallno = 64;
}

abbrev test_thread : Thread
test_thread = record {
  user_tls = 0x600000030000;
  user_simd = λ i. 2 * i;
  user_fpsr = 1;
  user_fpcr = 2;
  user_simd_valid = true;
}

test_tls : hosted_valid_user_tls test_thread.user_tls ≡ true
unfolding hosted_valid_user_tls
test_tls = refl

frame_round_trip_example :
    SameRegs test_psr_flags test_regs (
      restore_trap_frame test_psr_flags test_regs
        (save_trap_frame test_frame test_regs test_thread syscall_return))
    × SameThread test_thread (
        apply_frame_user_state
          (save_trap_frame test_frame test_regs test_thread syscall_return)
          test_thread)
frame_round_trip_example =
    frame_round_trip test_psr_flags test_frame test_regs test_thread syscall_return test_regs
      test_thread test_tls (inr refl)

abbrev test_calls : FaultCalls ℕ
test_calls = record {
  faulthandler_disabled = λ w. false;
  force_sig_fault = λ signal code address w. signal;
  pagefault_out_of_memory = λ w. 9;
}

handle_host_user_fault-Holds_example :
    Holds test_shift 0
      (handle_host_user_fault test_linux test_calls 14 3 test_mach test_shift 16384 4194304 4198400
        65536 1 true test_state).1
handle_host_user_fault-Holds_example =
    handle_host_user_fault-Holds test_linux test_calls 14 3 test_mach test_shift 16384 4194304
      4198400 65536 1 shift_divides test-KeepsNull test-Documented 0 (λ v a f s retry. refl) true
      test_state test-Holds

abbrev test_tasks : TaskCalls ℕ
test_tasks = record {
  comm = λ w. replicate 16 65;
  pid = λ w. 1;
  is_exiting = λ w. false;
  task_pt_regs = λ w. 8192;
  copy_word_from_user = λ a s. (a, s);
  local_irq_enable = λ w. w;
  start_timer = λ w. (false, w);
  psr_flags = test_psr_flags;
  psr_mode_mask = 15;
  psr_mode_el0t = 0;
  async_timer = true;
}

abbrev test_work : WorkCalls ℕ
test_work = record {
  timer_poll = λ e. e;
  exit_to_user_mode_work = λ e. e;
  nr_syscalls = 450;
  nr_write = 64;
  syscall = λ nr e. (nr, e);
}

abbrev test_exec : Exec ℕ
test_exec = record {
  machine = test_state;
  regs = test_regs;
  thread = test_thread;
  ring = record { events = λ i. test_event; event_seq = 0; event_next = 0 };
  hw_tls = 0;
  active_user_tls = 0;
  user_active = 1;
  kernel_sp = 0;
  entry_user_pc = 0;
  entry_user_callee = λ i. 0;
  timer_ready = false;
}

serve_entry-Ends_example : Ends test_linux test_tasks (
    serve_entry test_linux test_calls test_tasks test_work 14 3 test_mach test_shift 16384 4194304
      4198400 test_frame
      (Entry.trap trap_syscall test_frame)
      test_exec)
serve_entry-Ends_example =
    serve_entry-Ends test_linux test_calls test_tasks test_work 14 3 test_mach test_shift 16384
      4194304 4198400 test_frame (Entry.trap trap_syscall test_frame) test_exec
