-- ===== src/PageSync/Steps.antt =====
-- What the proofs about init.c assume of Linux, and the relation between a state and a later one.
use orlix_system.Prelude.{
  ◌||◌, Bool-cases, arith, ◌⊎◌, inl, inr, ℕ, ◌+◌, ◌%◌, ◌^◌, ◌≡◌, refl, sym, subst, Bool, true,
  false, if◌then◌else◌, List, All,
}
use orlix_system.HostMemory.Space.{UserMapping, Mach, Space}
use orlix_system.HostMemory.Invariant.{IsValid}
use orlix_system.HostMemory.User.Valid.{KeepsNull}
use orlix_system.HostMemory.User.Calls.{Call, IsProper, run, run-IsValid}
use orlix_system.PageSync.Linux.{Window, Walk, Result, Fault, FaultFlags, Vma, Linux, State}
use orlix_system.PageSync.User.{after_fault}

abbrev pub is_ok : Result → Bool
is_ok Result.ok = true
is_ok (Result.err e) = false
is_ok Result.stuck = false

pub Walk-cases :
    (walk : Walk) → ((e : Result) × (walk ≡ Walk.failed e)) ⊎ ((w : Window) × (walk ≡ Walk.found w))
Walk-cases (Walk.failed e) = inl (e, refl)
Walk-cases (Walk.found w) = inr (w, refl)

-- The list of user mappings after calls of the host.
abbrev pub AfterCalls : {W : Type 0} → Mach W → ℕ → Space W → Space W → Type 0
AfterCalls mach host_shift s t =
    (calls : List Call) × All IsProper calls × (t.user ≡ (run mach host_shift calls s).user)

-- A signal ends a fault only where the fault is to be retried, and Linux changes the user mappings of
-- the host only by calls of the host.
pub record Documented {W : Type 0} (linux : Linux W) (mach : Mach W) (host_shift : ℕ) : Type 0 where
  pub signal_retries : (f : Fault) (w : W) → linux.fault_signal_pending f w ≡ true → f.retry ≡ true
  pub find_calls :
      (address : ℕ) (s : Space W)
      → AfterCalls mach host_shift s (linux.lock_mm_and_find_vma address s).1
  pub fault_calls :
      (vma : Vma) (address : ℕ) (flags : FaultFlags) (s : Space W)
      → AfterCalls mach host_shift s (linux.handle_mm_fault vma address flags s).1

-- `n` locks are held, and the user mappings are in order.
pub record Holds {W : Type 0} (host_shift n : ℕ) (st : State W) : Type 0 where
  pub locks : st.read_locks ≡ n
  pub valid : IsValid host_shift st.space.user

-- One lock more is held if a fault has been handled.
abbrev pub Faulted : {W : Type 0} → ℕ → ℕ → Result × State W → Type 0
Faulted host_shift n r = Holds host_shift (if is_ok r.0 then n + 1 else n) r.1

module _ {W : Type 0} (mach : Mach W) (host_shift : ℕ) (word : 2 ^ 64 % 2 ^ host_shift ≡ 0)
    (null : KeepsNull mach) where
  pub AfterCalls-IsValid :
      (s t : Space W)
      → AfterCalls mach host_shift s t
      → IsValid host_shift s.user
      → IsValid host_shift t.user
  AfterCalls-IsValid s t (calls, proper, same) v =
      subst (λ (user : List UserMapping). IsValid host_shift user) (sym same)
        (run-IsValid mach host_shift word null calls s proper v)

-- The lock has been released if the fault says so.
pub after_fault-Holds :
    {W : Type 0} (host_shift n : ℕ) (fault : Fault) (st : State W)
    → Holds host_shift (n + 1) st
    → Holds host_shift (if fault.completed || fault.retry then n else n + 1) (after_fault fault st)
after_fault-Holds host_shift n fault st h = elim (Bool-cases (fault.completed || fault.retry)) [
  | inl released ↦ rw (released) (record { locks = omega (arith, h.locks); valid = h.valid })
  | inr kept ↦ rw (kept) h
]
