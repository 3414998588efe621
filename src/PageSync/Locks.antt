-- ===== src/PageSync/Locks.antt =====
-- Faulting a page in: the mmap lock is held afterwards exactly if the result is 0.
use orlix_system.Prelude.{
  sym, some, subst, ◌↔◌, ℕ, zero, suc, ◌+◌, ◌%◌, ◌^◌, ◌≡◌, refl, ap, Bool, true, false, not, ◌&&◌,
  ◌||◌, if◌then◌else◌, arith, Bool-cases, Option-cases, inl, inr,
}
use orlix_system.HostMemory.Space.{Mach, Space}
use orlix_system.HostMemory.User.Valid.{KeepsNull}
use orlix_system.PageSync.Linux.{Result, Fault, FaultFlags, Vma, Linux, State}
use orlix_system.PageSync.Steps.{Documented, Holds, Faulted, AfterCalls-IsValid, after_fault-Holds}
use orlix_system.PageSync.User.{
  conclude, attempt, fault_in_loop, fault_in_user_page, has_required, after_fault,
}

or_true : (b : Bool) → (b || true) ≡ true
or_true true = refl
or_true false = refl

after_fault-space :
    {W : Type 0} (fault : Fault) (st : State W) → (after_fault fault st).space ≡ st.space
after_fault-space fault st = ground arith

module _ {W : Type 0} (linux : Linux W) (page_shift fuel : ℕ) (mach : Mach W) (host_shift : ℕ)
    (word : 2 ^ 64 % 2 ^ host_shift ≡ 0) (null : KeepsNull mach)
    (documented : Documented linux mach host_shift) where
  module _ (again : State W → Result × State W) (n : ℕ)
      (resumes : (t : State W) → Holds host_shift n t → Faulted host_shift n (again t)) where
    conclude-Faulted :
        (fault : Fault) (st : State W)
        → Holds host_shift (if fault.completed || fault.retry then n else n + 1) st
        → Faulted host_shift n (conclude linux page_shift fuel again fault st)
    unfolding conclude
    conclude-Faulted fault st =
        elim (Bool-cases (linux.fault_signal_pending fault st.space.world)) [
          | inl pending ↦
              rw
                (
                  conclude,
                  pending,
                  documented.signal_retries fault st.space.world pending,
                  or_true fault.completed,
                )
                (λ h. h)
          | inr quiet ↦ elim (Bool-cases fault.completed) [
            | inl completed ↦
                rw (conclude, quiet, completed)
                  (λ h. record { locks = ap (λ (k : ℕ). k + 1) h.locks; valid = h.valid })
            | inr unfinished ↦ elim (Bool-cases fault.retry) [
              | inl retry ↦ rw (conclude, quiet, unfinished, retry) (λ h. resumes st h)
              | inr settled ↦ elim (Option-cases fault.error) [
                | inl fine ↦ rw (conclude, quiet, unfinished, settled, fine) (λ h. h)
                | inr (e, bad) ↦
                    rw (conclude, quiet, unfinished, settled, bad)
                      (λ h. record { locks = omega (arith, h.locks); valid = h.valid })
              ]
            ]
          ]
        ]

    attempt-Faulted :
        (tried : Bool) (address : ℕ) (vma : Vma) (st : State W)
        → Holds host_shift (n + 1) st
        → Faulted host_shift n (attempt linux page_shift fuel again tried address vma st)
    unfolding attempt
    attempt-Faulted tried address vma st h = elim (Bool-cases (has_required vma)) [
      | inr missing ↦
          rw (attempt, missing) (record { locks = omega (arith, h.locks); valid = h.valid })
      | inl required ↦
          let flags : FaultFlags = record {
            instruction = vma.executable;
            write = not vma.executable && vma.writable;
            tried = tried;
          } in
          let handled = linux.handle_mm_fault vma address flags st.space in
          rw (attempt, required)
            (conclude-Faulted handled.0 (after_fault handled.0 (record st { space = handled.1 })) (
              after_fault-Holds host_shift n handled.0 (record st { space = handled.1 })
                (record {
                  locks = h.locks;
                  valid =
                      AfterCalls-IsValid mach host_shift word null st.space handled.1
                        (documented.fault_calls vma address flags st.space) h.valid;
                })))
    ]

  pub fault_in_loop-Faulted :
      (k : ℕ) (tried : Bool) (address n : ℕ) (st : State W)
      → Holds host_shift n st
      → Faulted host_shift n (fault_in_loop linux page_shift fuel k tried address st)
  unfolding fault_in_loop
  fault_in_loop-Faulted zero tried address n st h = h
  fault_in_loop-Faulted (suc k) tried address n st h =
      let found_valid =
        AfterCalls-IsValid mach host_shift word null st.space
          (linux.lock_mm_and_find_vma address st.space).1 (documented.find_calls address st.space)
          h.valid in
      elim (Option-cases (linux.lock_mm_and_find_vma address st.space).0) [
        | inl e ↦ rw (fault_in_loop, e) (record { locks = h.locks; valid = found_valid })
        | inr (vma, e) ↦
            rw (fault_in_loop, e)
              (attempt-Faulted (fault_in_loop linux page_shift fuel k true address) n
                (λ t held. fault_in_loop-Faulted k true address n t held) tried address vma _
                (record { locks = ap (λ (j : ℕ). j + 1) h.locks; valid = found_valid }))
      ]

  abbrev fault_flags_of : Bool → Vma → FaultFlags
  fault_flags_of tried vma = record {
    instruction = vma.executable;
    write = not vma.executable && vma.writable;
    tried = tried;
  }

  -- In each of the next `k` rounds Linux finds a mapping that allows the access and then asks for a
  -- retry, with no signal pending. A round after the first has FAULT_FLAG_TRIED.
  abbrev pub AsksAgain : ℕ → Bool → ℕ → Space W → Type 0
  AsksAgain zero tried address s = Unit {0}
  AsksAgain (suc k) tried address s =
      let s' = (linux.lock_mm_and_find_vma address s).1 in
      (vma : Vma) × ((linux.lock_mm_and_find_vma address s).0 ≡ some vma)
      × (has_required vma ≡ true)
      × (let answer = linux.handle_mm_fault vma address (fault_flags_of tried vma) s' in
          (linux.fault_signal_pending answer.0 answer.1.world ≡ false)
          × (answer.0.completed ≡ false)
          × (answer.0.retry ≡ true)
          × AsksAgain k true address answer.1)

  conclude_stuck :
      (again : State W → Result × State W) (fault : Fault) (st : State W)
      → ((conclude linux page_shift fuel again fault st).0 ≡ Result.stuck) ↔ (
          (linux.fault_signal_pending fault st.space.world ≡ false)
          × (fault.completed ≡ false)
          × (fault.retry ≡ true)
          × ((again st).0 ≡ Result.stuck))
  unfolding conclude
  conclude_stuck again fault st = ground arith

  loop-asks :
      (k : ℕ) (tried : Bool) (address : ℕ) (st : State W)
      → (fault_in_loop linux page_shift fuel k tried address st).0 ≡ Result.stuck
      → AsksAgain k tried address st.space
  unfolding fault_in_loop attempt
  loop-asks zero tried address st h = tt
  loop-asks (suc k) tried address st h =
      elim (Option-cases (linux.lock_mm_and_find_vma address st.space).0) [
        | inl e ↦ absurd (cc (rw (fault_in_loop, e) at h))
        | inr (vma, e) ↦ elim (Bool-cases (has_required vma)) [
          | inr missing ↦ absurd (cc (rw (fault_in_loop, e, attempt, missing) at h))
          | inl required ↦
              let s = (linux.lock_mm_and_find_vma address st.space).1 in
              let answer = linux.handle_mm_fault vma address (fault_flags_of tried vma) s in
              let st' = record st { space = answer.1; read_locks = st.read_locks + 1 } in
              let after = after_fault answer.0 st' in
              let same = after_fault-space answer.0 st' in
              let (quiet, unfinished, retry, stuck) =
                (conclude_stuck (fault_in_loop linux page_shift fuel k true address) answer.0
                    after).0
                  (rw (fault_in_loop, e, attempt, required) at h) in
              (
                vma,
                e,
                required,
                (
                  subst (λ (t : Space W). linux.fault_signal_pending answer.0 t.world ≡ false) same
                      quiet,
                  unfinished,
                  retry,
                  subst (AsksAgain k true address) same (loop-asks k true address after stuck),
                ),
              )
        ]
      ]

  asks-loop :
      (k : ℕ) (tried : Bool) (address : ℕ) (st : State W)
      → AsksAgain k tried address st.space
      → (fault_in_loop linux page_shift fuel k tried address st).0 ≡ Result.stuck
  unfolding fault_in_loop attempt
  asks-loop zero tried address st h = refl
  asks-loop (suc k) tried address st (vma, e, required, (quiet, unfinished, retry, rest)) =
      let s = (linux.lock_mm_and_find_vma address st.space).1 in
      let answer = linux.handle_mm_fault vma address (fault_flags_of tried vma) s in
      let st' = record st { space = answer.1; read_locks = st.read_locks + 1 } in
      let after = after_fault answer.0 st' in
      let same = after_fault-space answer.0 st' in
      rw (fault_in_loop, e, attempt, required)
        ((conclude_stuck (fault_in_loop linux page_shift fuel k true address) answer.0 after).1 (
          subst (λ (t : Space W). linux.fault_signal_pending answer.0 t.world ≡ false) (sym same)
              quiet,
          unfinished,
          retry,
          asks-loop k true address after (subst (AsksAgain k true address) (sym same) rest),
        ))

  -- Faulting a page in goes on for as many rounds as the fuel says exactly if Linux asks for a retry in
  -- each of them, the first one without FAULT_FLAG_TRIED and the others with it; it has a result in
  -- the round in which Linux does not. From a list of user mappings that is in order it leaves one; it
  -- takes the mmap lock once if the result is 0, and else holds it no more often than before. The
  -- host's page size divides the address space, Mach never gives out the page at 0, a signal ends a
  -- fault only where the fault is to be retried, and Linux changes the user mappings of the host only
  -- by calls of the host.
  pub fault_in_user_page-Faulted :
      (address n : ℕ) (st : State W)
      → Holds host_shift n st
      → (((fault_in_user_page linux page_shift fuel address st).0 ≡ Result.stuck)
          ↔ AsksAgain fuel false address st.space)
        × Faulted host_shift n (fault_in_user_page linux page_shift fuel address st)
  unfolding fault_in_user_page
  fault_in_user_page-Faulted address n st h = (
    (loop-asks fuel false address st, asks-loop fuel false address st),
    fault_in_loop-Faulted fuel false address n st h,
  )
