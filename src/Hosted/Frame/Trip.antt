-- ===== src/Hosted/Frame/Trip.antt =====
-- A frame that is saved for a task and comes back with a trap.
use orlix_system.Prelude.{
  ℕ, ◌<◌, ◌≡◌, refl, ◌⊎◌, true, false, bit_and, inl, inr, Bool-cases, lt→ltb,
}
use orlix_system.Hosted.Frame.{
  syscall_return, no_syscall, PtRegs, Thread, TrapFrame, copy_words, hosted_valid_user_tls,
  restore_trap_frame, apply_frame_user_state, save_trap_frame,
}

-- What a task has in its registers.
pub record SameRegs (psr_flags : ℕ) (r s : PtRegs) : Type 0 where
  pub regs : (i : ℕ) → i < 31 → s.regs i ≡ r.regs i
  pub sp : s.sp ≡ r.sp
  pub pc : s.pc ≡ r.pc
  pub pstate : s.pstate ≡ bit_and r.pstate psr_flags

pub record SameThread (t u : Thread) : Type 0 where
  pub user_tls : u.user_tls ≡ t.user_tls
  pub simd_valid : t.user_simd_valid ≡ true → u.user_simd_valid ≡ true
  pub user_simd : t.user_simd_valid ≡ true → (i : ℕ) → i < 64 → u.user_simd i ≡ t.user_simd i
  pub user_fpsr : t.user_simd_valid ≡ true → u.user_fpsr ≡ t.user_fpsr
  pub user_fpcr : t.user_simd_valid ≡ true → u.user_fpcr ≡ t.user_fpcr

all_same :
    (frame : ℕ → ℕ) (t u : Thread)
    → SameThread
        (record t { user_simd_valid = true })
        (record u {
          user_tls = t.user_tls;
          user_simd = copy_words 64 u.user_simd (copy_words 64 frame t.user_simd);
          user_fpsr = t.user_fpsr;
          user_fpcr = t.user_fpcr;
          user_simd_valid = true;
        })
all_same frame t u = record {
  user_tls = refl;
  simd_valid = λ q. refl;
  user_simd = λ q i few. rw (lt→ltb i 64 few) refl;
  user_fpsr = λ q. refl;
  user_fpcr = λ q. refl;
}

tls_same :
    (t u : Thread)
    → SameThread (record t { user_simd_valid = false }) (record u { user_tls = t.user_tls })
tls_same t u = record {
  user_tls = refl;
  simd_valid = λ q. cc;
  user_simd = λ q. cc;
  user_fpsr = λ q. cc;
  user_fpcr = λ q. cc;
}

module _ (psr_flags : ℕ) (frame : TrapFrame) (r : PtRegs) (t : Thread) (flags : ℕ) where
  same :
      (s : PtRegs)
      → SameRegs psr_flags r (record s {
        regs = copy_words 31 s.regs (copy_words 31 frame.regs r.regs);
        sp = r.sp;
        pc = r.pc;
        pstate = bit_and r.pstate psr_flags;
        syscallno = no_syscall;
      })
  same s = record { regs = λ i few. rw (lt→ltb i 31 few) refl; sp = refl; pc = refl; pstate = refl }

  restore-save :
      (s : PtRegs)
      → SameRegs psr_flags r (restore_trap_frame psr_flags s (save_trap_frame frame r t flags))
  unfolding restore_trap_frame save_trap_frame
  restore-save s = elim (Bool-cases t.user_simd_valid) [
    | inl live ↦ rw (restore_trap_frame, save_trap_frame, live) (same s)
    | inr unused ↦ rw (restore_trap_frame, save_trap_frame, unused) (same s)
  ]

  apply-save :
      (u : Thread)
      → hosted_valid_user_tls t.user_tls ≡ true
      → (flags ≡ 0) ⊎ (flags ≡ syscall_return)
      → SameThread t (apply_frame_user_state (save_trap_frame frame r t flags) u)
  unfolding apply_frame_user_state save_trap_frame
  apply-save u valid small = elim (Bool-cases t.user_simd_valid) [
    | inl live ↦ elim small [
      | inl e ↦
          rw (apply_frame_user_state, save_trap_frame, live, e, valid) (all_same frame.simd t u)
      | inr e ↦
          rw (apply_frame_user_state, save_trap_frame, live, e, valid) (all_same frame.simd t u)
    ]
    | inr unused ↦ elim small [
      | inl e ↦ rw (apply_frame_user_state, save_trap_frame, unused, e, valid) (tls_same t u)
      | inr e ↦ rw (apply_frame_user_state, save_trap_frame, unused, e, valid) (tls_same t u)
    ]
  ]

  -- A frame that is saved for a task gives it back its registers, with the condition flags of its
  -- state, and its TLS register, and its vector registers if they are in use. The TLS register is a
  -- user pointer, and the frame is saved with no flag or with that of a system call's return.
  pub frame_round_trip :
      (s : PtRegs) (u : Thread)
      → hosted_valid_user_tls t.user_tls ≡ true
      → (flags ≡ 0) ⊎ (flags ≡ syscall_return)
      → SameRegs psr_flags r (restore_trap_frame psr_flags s (save_trap_frame frame r t flags))
        × SameThread t (apply_frame_user_state (save_trap_frame frame r t flags) u)
  frame_round_trip s u valid small = (restore-save s, apply-save u valid small)
