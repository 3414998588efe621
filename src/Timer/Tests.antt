-- ===== src/Timer/Tests.antt =====
-- A periodic timer that is late by more than a period.
use orlix_system.Prelude.{All, List, [], ◌∷◌, ◌+◌, ◌≡◌, ◌⊎◌, refl, true, arith}
use orlix_system.Timer.{Timer, Callback, event_handler, timer_poll}
use orlix_system.Timer.Poll.{IsDue, IsValid, Ahead, IsProper, poll-events, poll_once}

abbrev test_timer : Timer
test_timer = record {
  deadline_ns = 100;
  period_ns = 10;
  armed = true;
  periodic = true;
  has_handler = true;
  events = 0;
}

test-IsDue : IsDue 125 test_timer
test-IsDue = (refl, refl, omega arith)

test-IsValid : IsValid test_timer
test-IsValid = record {
  deadline_word = omega arith;
  period_small = omega arith;
  period_set = λ p. omega arith;
}

-- A handler that asks for the next event after 50 nanoseconds.
abbrev test_handler : Timer → List Callback
test_handler t = Callback.set_next_event 126 50 ∷ []

poll-events_example :
    (IsDue 125 test_timer × ((timer_poll test_handler 125 test_timer).events ≡ 0 + 1))
    ⊎ ((¬ IsDue 125 test_timer) × (timer_poll test_handler 125 test_timer ≡ test_timer))
poll-events_example = poll-events test_handler 125 test_timer

poll_once_example :
    (found : Timer) × (timer_poll test_handler 125 test_timer
      ≡ event_handler (test_handler found) found)
    × (found.armed ≡ true)
    × (true ≡ true → Ahead 10 125 found.deadline_ns)
    × IsValid found
    × (All (IsProper 125) (test_handler found)
        → (again : Timer → List Callback)
        → timer_poll again 125 (timer_poll test_handler 125 test_timer)
          ≡ timer_poll test_handler 125 test_timer)
poll_once_example = poll_once test_handler 125 test_timer (omega arith) test-IsValid test-IsDue
