-- ===== src/Hosted/Syscall.antt =====
-- A system call: the pages it reads of kernel/hosted_exec.c, and `orlix_syscall_dispatch` of
-- kernel/syscall.c.
use orlix_system.Prelude.{ℕ, zero, suc, ◌+◌, ◌-◌, ◌^◌, ◌||◌, if◌then◌else◌, ◌==◌, ltb, leb, u64}
use orlix_system.HostMemory.Space.{Mach}
use orlix_system.PageSync.Linux.{task_size, Linux, State, page_of}
use orlix_system.PageSync.Kernel.{rounds}
use orlix_system.PageSync.Entry.{sync_current_user_mapping_page}
use orlix_system.Hosted.Frame.{in_syscall, forget_syscall, PtRegs}
use orlix_system.Hosted.Exec.{Exec, WorkCalls, on_machine}

-- The conversion of an `s32` to `unsigned long`.
abbrev pub sign_extend : ℕ → ℕ
sign_extend n = if ltb n (2 ^ 31) then n else n + (2 ^ 64 - 2 ^ 32)

abbrev pub set_reg : ℕ → ℕ → PtRegs → PtRegs
set_reg i v r = record r { regs = λ j. if j == i then v else r.regs j }

module _ {W : Type 0} (linux : Linux W) (work : WorkCalls W) (page_shift fuel : ℕ) (mach : Mach W)
    (host_shift granule gate_page handler : ℕ) where
  -- The loop of `orlix_hosted_sync_user_read_range`.
  unfoldable pub read_range_loop : ℕ → ℕ → State W → State W
  read_range_loop zero page st = st
  read_range_loop (suc n) page st =
      read_range_loop n (page + 2 ^ page_shift)
        (sync_current_user_mapping_page linux page_shift fuel mach host_shift granule gate_page
          handler page st).1

  unfoldable pub sync_user_read_range : ℕ → ℕ → State W → State W
  sync_user_read_range start length st =
      let length' = if ltb (task_size - start) length then task_size - start else length in
      let end = page_of page_shift (u64 (start + length' + (2 ^ page_shift - 1))) in
      let end' = if end == 0 || ltb task_size end then task_size else end in
      let first = page_of page_shift start in
      if start == 0 || leb task_size start || length == 0
      then st
      else read_range_loop (rounds page_shift first end') first st

  unfoldable pub sync_syscall_user_ranges : Exec W → Exec W
  sync_syscall_user_ranges e =
      if e.regs.syscallno == work.nr_write
      then on_machine (sync_user_read_range (e.regs.regs 1) (e.regs.regs 2)) e
      else e

  -- The result of `orlix_syscall_dispatch` is in the registers; 38 is ENOSYS.
  unfoldable pub syscall_dispatch : Exec W → Exec W
  syscall_dispatch e =
      let entered = record e { regs = record (e.regs) { orig_x0 = e.regs.regs 0 } } in
      let nr = sign_extend e.regs.syscallno in
      let (ret, called) =
        if ltb nr work.nr_syscalls then work.syscall nr entered else (2 ^ 64 - 38, entered) in
      let returned = record called { regs = set_reg 0 ret called.regs } in
      let worked = work.exit_to_user_mode_work (work.timer_poll returned) in
      if in_syscall worked.regs then record worked { regs = forget_syscall worked.regs } else worked
