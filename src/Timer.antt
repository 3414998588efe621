-- ===== src/Timer.antt =====
-- The host timer of OrlixKernel/Sources/ports/orlix/overlay/arch/orlix/kernel/time.c: a clock event
-- device that is polled. All times are 64-bit nanoseconds that wrap.
pub mod Poll
mod Tests
use orlix_system.Prelude.{
  ℕ, ◌+◌, ◌-◌, ◌/◌, ◌%◌, ◌^◌, Bool, true, false, not, ◌||◌, List, [], ◌∷◌, ltb, u64, ◌==◌,
  if◌then◌else◌,
}

-- `orlix_clockevent_deadline_ns` and its like; `has_handler` says that the clock event device has an
-- `event_handler`, and `events` counts its calls.
pub record Timer : Type 0 where
  pub deadline_ns : ℕ
  pub period_ns : ℕ
  pub armed : Bool
  pub periodic : Bool
  pub has_handler : Bool
  pub events : ℕ

abbrev pub nsec_per_sec : ℕ
nsec_per_sec = 1_000_000_000

-- `ts->tv_sec` and `ts->tv_nsec`
unfoldable pub read_persistent_clock64 : ℕ → ℕ × ℕ
read_persistent_clock64 realtime_ns = (realtime_ns / nsec_per_sec, realtime_ns % nsec_per_sec)

-- `now` is what `orlix_host_time_monotonic_ns` returns.
unfoldable pub timer_set_next_event : ℕ → ℕ → Timer → Timer
timer_set_next_event now delta t = record t {
  periodic = false;
  deadline_ns = u64 (now + delta);
  armed = true;
}

-- `hz` is HZ of the configuration.
unfoldable pub timer_set_periodic : ℕ → ℕ → Timer → Timer
timer_set_periodic hz now t =
    let period = nsec_per_sec / hz in
    record t { period_ns = period; periodic = true; deadline_ns = u64 (now + period); armed = true }

unfoldable pub timer_set_oneshot : Timer → Timer
timer_set_oneshot t = record t { periodic = false; armed = false }

unfoldable pub timer_shutdown : Timer → Timer
timer_shutdown t = record t { periodic = false; armed = false }

unfoldable pub timer_next_deadline_ns : Timer → ℕ
timer_next_deadline_ns t = if t.armed then t.deadline_ns else 0

-- `(s64)(a - b) < 0`
abbrev pub is_before : ℕ → ℕ → Bool
is_before a b = not (ltb (u64 (a + 2 ^ 64 - b)) (2 ^ 63))

-- What `timer_poll` writes before it calls the handler.
unfoldable pub rearm : ℕ → Timer → Timer
rearm now t =
    let next_deadline = u64 (t.deadline_ns + t.period_ns) in
    if t.periodic
    then record t {
      deadline_ns = if is_before now next_deadline then next_deadline else u64 (now + t.period_ns);
    }
    else record t { armed = false }

-- What the event handler, which is Linux's, can do to the timer: the device's callbacks, at the times
-- that they read and with their arguments.
pub data Callback : Type 0 where
  set_next_event : ℕ → ℕ → Callback
  set_periodic : ℕ → ℕ → Callback
  set_oneshot : Callback
  shutdown : Callback

unfoldable pub call_back : Callback → Timer → Timer
unfolding timer_set_next_event timer_set_periodic timer_set_oneshot timer_shutdown
call_back (Callback.set_next_event now delta) t = timer_set_next_event now delta t
call_back (Callback.set_periodic hz now) t = timer_set_periodic hz now t
call_back Callback.set_oneshot t = timer_set_oneshot t
call_back Callback.shutdown t = timer_shutdown t

-- `evt->event_handler(evt)`, which makes the calls of `calls` for the timer that it finds.
unfoldable pub event_handler : List Callback → Timer → Timer
event_handler [] t = t
event_handler (c ∷ calls) t = event_handler calls (call_back c t)

-- `handler` says which callbacks the event handler makes.
unfoldable pub timer_poll : (Timer → List Callback) → ℕ → Timer → Timer
timer_poll handler now t =
    if not t.armed || not t.has_handler
    then t
    else if is_before now t.deadline_ns
    then t
    else let t' = rearm now t in
      let found = record t' { events = t'.events + 1 } in event_handler (handler found) found
