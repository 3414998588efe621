-- ===== src/Timer/Poll.antt =====
-- When the poll calls the event handler, and what it leaves armed.
use orlix_system.Prelude.{
  ℕ, ◌+◌, ◌-◌, ◌%◌, ◌^◌, ◌≤◌, ◌<◌, ◌≡◌, ◌⊎◌, ◌/◌, refl, sym, subst, ◌∙◌, Bool-cases, true, false,
  ap, List, [], ◌∷◌, All, arith, inl, inr,
}
use orlix_system.Timer.{
  Timer, Callback, call_back, event_handler, timer_poll, rearm, is_before, timer_set_next_event,
  timer_set_periodic, timer_set_oneshot, timer_shutdown, nsec_per_sec,
}

-- The clock has reached the deadline: it is ahead of it by less than half the range.
abbrev pub Reached : ℕ → ℕ → Type 0
Reached now deadline = (now + 2 ^ 64 - deadline) % 2 ^ 64 < 2 ^ 63

abbrev pub IsDue : ℕ → Timer → Type 0
IsDue now t = (t.armed ≡ true) × (t.has_handler ≡ true) × Reached now t.deadline_ns

event_handler-events :
    (calls : List Callback) (t : Timer) → (event_handler calls t).events ≡ t.events
unfolding event_handler call_back timer_set_next_event timer_set_periodic timer_set_oneshot
    timer_shutdown
event_handler-events [] t = refl
event_handler-events (Callback.set_next_event now delta ∷ calls) t = event_handler-events calls _
event_handler-events (Callback.set_periodic hz now ∷ calls) t = event_handler-events calls _
event_handler-events (Callback.set_oneshot ∷ calls) t = event_handler-events calls _
event_handler-events (Callback.shutdown ∷ calls) t = event_handler-events calls _

-- What the handler of a poll finds.
abbrev pub found_at : ℕ → Timer → Timer
found_at now t = record (rearm now t) { events = (rearm now t).events + 1 }

rearm-events : (now : ℕ) (t : Timer) → (rearm now t).events ≡ t.events
unfolding rearm
rearm-events now t = ground arith

poll_fires :
    (handler : Timer → List Callback) (now : ℕ) (t : Timer)
    → IsDue now t
    → timer_poll handler now t ≡ event_handler (handler (found_at now t)) (found_at now t)
unfolding timer_poll
poll_fires handler now t (armed, handled, reached) =
    let late : is_before now t.deadline_ns ≡ false = ground (arith, reached) in
    rw (timer_poll, late, armed, handled) refl

-- A poll calls the handler exactly when the timer is armed, has a handler and has reached its
-- deadline, and then once, whatever the handler does to the timer; else it changes nothing.
pub poll-events :
    (handler : Timer → List Callback) (now : ℕ) (t : Timer)
    → (IsDue now t × ((timer_poll handler now t).events ≡ t.events + 1))
      ⊎ ((¬ IsDue now t) × (timer_poll handler now t ≡ t))
unfolding timer_poll
poll-events handler now t = elim (Bool-cases t.armed) [
  | inr idle ↦ inr (ground arith, ground arith)
  | inl armed ↦ elim (Bool-cases t.has_handler) [
    | inr bare ↦ inr (ground arith, ground arith)
    | inl handled ↦ elim (Bool-cases (is_before now t.deadline_ns)) [
      | inl early ↦ inr (ground arith, ground arith)
      | inr due ↦
          let is_due : IsDue now t = (armed, handled, ground (arith, due)) in
          inl (
            is_due,
            ap (λ (s : Timer). s.events) (poll_fires handler now t is_due)
                ∙ event_handler-events (handler (found_at now t)) (found_at now t)
                ∙ ap (λ (n : ℕ). n + 1) (rearm-events now t),
          )
    ]
  ]
]

-- The 64-bit times of a timer.
pub record IsValid (t : Timer) : Type 0 where
  pub deadline_word : t.deadline_ns < 2 ^ 64
  pub period_small : t.period_ns < 2 ^ 63
  pub period_set : t.periodic ≡ true → 0 < t.period_ns

-- The deadline is ahead of the clock, by at most `n`.
abbrev pub Ahead : ℕ → ℕ → ℕ → Type 0
Ahead n now deadline =
    (0 < (deadline + 2 ^ 64 - now) % 2 ^ 64) × ((deadline + 2 ^ 64 - now) % 2 ^ 64 ≤ n)

-- A callback that arms the timer gives it a deadline ahead of the clock, by less than half the range.
abbrev pub IsProper : ℕ → Callback → Type 0
IsProper now (Callback.set_next_event clock delta) = Ahead (2 ^ 63) now (clock + delta)
IsProper now (Callback.set_periodic hz clock) = Ahead (2 ^ 63) now (clock + nsec_per_sec / hz)
IsProper now Callback.set_oneshot = Unit {0}
IsProper now Callback.shutdown = Unit {0}

-- The timer is not to fire.
abbrev IsWaiting : ℕ → Timer → Type 0
IsWaiting now t = t.armed ≡ true → ¬ Reached now t.deadline_ns

event_handler-IsWaiting :
    (now : ℕ) (calls : List Callback) (t : Timer)
    → now < 2 ^ 64
    → All (IsProper now) calls
    → IsWaiting now t
    → IsWaiting now (event_handler calls t)
unfolding event_handler call_back timer_set_next_event timer_set_periodic timer_set_oneshot
    timer_shutdown
event_handler-IsWaiting now [] t h proper w = w
event_handler-IsWaiting now (Callback.set_next_event clock delta ∷ calls) t h proper w =
    event_handler-IsWaiting now calls _ h proper.1
      (λ armed reached. omega (arith, h, proper.0.0, proper.0.1, reached))
event_handler-IsWaiting now (Callback.set_periodic hz clock ∷ calls) t h proper w =
    event_handler-IsWaiting now calls _ h proper.1
      (λ armed reached. omega (arith, h, proper.0.0, proper.0.1, reached))
event_handler-IsWaiting now (Callback.set_oneshot ∷ calls) t h proper w =
    event_handler-IsWaiting now calls _ h proper.1 (λ armed reached. absurd (cc armed))
event_handler-IsWaiting now (Callback.shutdown ∷ calls) t h proper w =
    event_handler-IsWaiting now calls _ h proper.1 (λ armed reached. absurd (cc armed))

-- A timer that is not to fire is not changed by a poll.
poll_waiting :
    (handler : Timer → List Callback) (now : ℕ) (t : Timer)
    → IsWaiting now t
    → timer_poll handler now t ≡ t
poll_waiting handler now t w = elim (poll-events handler now t) [
  | inl (due, e) ↦ absurd (w due.0 due.2)
  | inr (idle, e) ↦ e
]

rearm-IsWaiting :
    (now : ℕ) (t : Timer) → now < 2 ^ 64 → IsValid t → IsDue now t → IsWaiting now (rearm now t)
unfolding rearm
rearm-IsWaiting now t h v due = ground arith

-- A due timer that is polled calls the handler, which finds it disarmed if it is one-shot, and if it
-- is periodic armed with a deadline that is ahead of the clock by at most a period. Unless the handler
-- arms it with a deadline that is not ahead of the clock, a second poll at the same time, by whatever
-- handler, changes nothing.
pub poll_once :
    (handler : Timer → List Callback) (now : ℕ) (t : Timer)
    → now < 2 ^ 64
    → IsValid t
    → IsDue now t
    → (found : Timer) × (timer_poll handler now t ≡ event_handler (handler found) found)
      × (found.armed ≡ t.periodic)
      × (t.periodic ≡ true → Ahead t.period_ns now found.deadline_ns)
      × IsValid found
      × (All (IsProper now) (handler found)
          → (again : Timer → List Callback)
          → timer_poll again now (timer_poll handler now t) ≡ timer_poll handler now t)
unfolding rearm
poll_once handler now t h v due =
    let found = found_at now t in
    let polled = poll_fires handler now t due in
    (
      found,
      polled,
      ground arith,
      λ p. (ground arith, ground arith),
      ground arith,
      λ proper again. poll_waiting again now (timer_poll handler now t) (
          subst (IsWaiting now) (sym polled) (
            event_handler-IsWaiting now (handler found) found h proper
              (rearm-IsWaiting now t h v due))),
    )
