-- ===== src/Hosted/Frame.antt =====
-- The registers of a task and the frames in which the host's trap handler passes them:
-- `orlix_hosted_restore_trap_frame`, `orlix_hosted_apply_frame_user_state`,
-- `orlix_hosted_save_trap_frame` and the TLS register's functions.
use orlix_system.Prelude.{
  ℕ, ◌+◌, ◌-◌, ◌^◌, Bool, true, false, not, ◌&&◌, ◌||◌, if◌then◌else◌, ◌==◌, ltb, leb, bit_and,
  bit_or,
}
use orlix_system.PageSync.Linux.{task_size}
pub mod Trip

-- NO_SYSCALL, as 32 bits.
abbrev pub no_syscall : ℕ
no_syscall = 2 ^ 32 - 1

-- ORLIX_HOSTED_USER_BASE
abbrev pub user_base : ℕ
user_base = 0x0000600000000000

-- ORLIX_HOST_USER_FRAME_HAS_TLS
abbrev pub has_tls : ℕ
has_tls = 1

-- ORLIX_HOST_USER_FRAME_HAS_SIMD
abbrev pub has_simd : ℕ
has_simd = 2

-- ORLIX_HOST_USER_FRAME_SYSCALL_RETURN
abbrev pub syscall_return : ℕ
syscall_return = 4

-- `struct pt_regs`. An array is a function of its index: 31 of `regs` are used, and 64 of `simd` below.
pub record PtRegs : Type 0 where
  pub regs : ℕ → ℕ
  pub sp : ℕ
  pub pc : ℕ
  pub pstate : ℕ
  pub orig_x0 : ℕ
  pub syscallno : ℕ

-- The hosted build's part of `struct thread_struct`.
pub record Thread : Type 0 where
  pub user_tls : ℕ
  pub user_simd : ℕ → ℕ
  pub user_fpsr : ℕ
  pub user_fpcr : ℕ
  pub user_simd_valid : Bool

-- `struct orlix_host_user_trap_frame`
pub record TrapFrame : Type 0 where
  pub regs : ℕ → ℕ
  pub sp : ℕ
  pub pc : ℕ
  pub pstate : ℕ
  pub simd : ℕ → ℕ
  pub fpsr : ℕ
  pub fpcr : ℕ
  pub fault_address : ℕ
  pub fault_flags : ℕ
  pub user_tls : ℕ
  pub frame_flags : ℕ

-- The first `n` words of an array, copied over another one.
abbrev pub copy_words : ℕ → (ℕ → ℕ) → (ℕ → ℕ) → ℕ → ℕ
copy_words n to from i = if ltb i n then from i else to i

-- `in_syscall`
abbrev pub in_syscall : PtRegs → Bool
in_syscall r = not (r.syscallno == no_syscall)

-- `forget_syscall`
abbrev pub forget_syscall : PtRegs → PtRegs
forget_syscall r = record r { syscallno = no_syscall }

unfoldable pub hosted_valid_user_tls : ℕ → Bool
hosted_valid_user_tls tls = leb user_base tls && ltb tls task_size && (bit_and tls 7 == 0)

unfoldable pub user_pc_in_aperture : ℕ → Bool
user_pc_in_aperture pc = leb user_base pc && ltb pc task_size

-- `psr_flags` is PSR_N_BIT | PSR_Z_BIT | PSR_C_BIT | PSR_V_BIT.
unfoldable pub restore_trap_frame : ℕ → PtRegs → TrapFrame → PtRegs
restore_trap_frame psr_flags r frame = record r {
  regs = copy_words 31 r.regs frame.regs;
  pc = frame.pc;
  sp = frame.sp;
  pstate = bit_and frame.pstate psr_flags;
  syscallno = no_syscall;
}

unfoldable pub apply_frame_user_state : TrapFrame → Thread → Thread
apply_frame_user_state frame t =
    let t' =
      if not (bit_and frame.frame_flags has_tls == 0) && hosted_valid_user_tls frame.user_tls
      then record t { user_tls = frame.user_tls }
      else t in
    if not (bit_and frame.frame_flags has_simd == 0)
    then record t' {
      user_simd = copy_words 64 t'.user_simd frame.simd;
      user_fpsr = frame.fpsr;
      user_fpcr = frame.fpcr;
      user_simd_valid = true;
    }
    else t'

unfoldable pub save_trap_frame : TrapFrame → PtRegs → Thread → ℕ → TrapFrame
save_trap_frame frame r t frame_flags =
    let frame' = record frame {
      regs = copy_words 31 frame.regs r.regs;
      pc = r.pc;
      sp = r.sp;
      pstate = r.pstate;
      fault_address = 0;
      fault_flags = 0;
      user_tls = t.user_tls;
      frame_flags = bit_or has_tls frame_flags;
    } in
    if t.user_simd_valid
    then record frame' {
      simd = copy_words 64 frame'.simd t.user_simd;
      fpsr = t.user_fpsr;
      fpcr = t.user_fpcr;
      frame_flags = bit_or frame'.frame_flags has_simd;
    }
    else frame'
