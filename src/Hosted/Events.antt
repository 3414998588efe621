-- ===== src/Hosted/Events.antt =====
-- The ring of the last user events: `orlix_hosted_record_user_event` and
-- `orlix_hosted_dump_recent_user_events`.
use orlix_system.Prelude.{
  ℕ, zero, suc, ◌+◌, ◌-◌, ◌%◌, ◌^◌, Bool, true, false, List, [], ◌∷◌, if◌then◌else◌, ◌==◌, u32, min,
}
pub mod Recent

-- ORLIX_HOSTED_EVENT_COUNT
abbrev pub event_count : ℕ
event_count = 16

-- The strings that hosted_exec.c gives as `kind`.
pub data EventKind : Type 0 where
  resume : EventKind
  syscall_enter : EventKind
  syscall_return : EventKind

-- `struct orlix_hosted_user_event`; `comm` is a string, as the numbers of its bytes.
pub record Event : Type 0 where
  pub seq : ℕ
  pub kind : EventKind
  pub comm : List ℕ
  pub pid : ℕ
  pub pc : ℕ
  pub lr : ℕ
  pub sp : ℕ
  pub x0 : ℕ
  pub x8 : ℕ
  pub flags : ℕ
  pub stack0 : ℕ
  pub stack8 : ℕ
  pub full_stack_window : Bool

-- orlix_hosted_user_events, of whose indices those below `event_count` are used, and the two counters.
pub record Ring : Type 0 where
  pub events : ℕ → Event
  pub event_seq : ℕ
  pub event_next : ℕ

-- The ring's part of `orlix_hosted_record_user_event`: the slot, the counters and the sequence number.
unfoldable pub append_event : Event → Ring → Ring
append_event event r =
    let seq' = u32 (r.event_seq + 1) in
    record {
      events =
          λ i. if i == r.event_next % event_count then record event { seq = seq' } else r.events i;
      event_seq = seq';
      event_next = u32 (r.event_next + 1);
    }

-- The loop of `orlix_hosted_dump_recent_user_events`, whose index wraps.
unfoldable pub dump_loop : (ℕ → Event) → ℕ → ℕ → List Event
dump_loop events zero index = []
dump_loop events (suc n) index = events (index % event_count) ∷ dump_loop events n (u32 (index + 1))

-- What `orlix_hosted_dump_recent_user_events` prints, an event for each line.
unfoldable pub dump_recent_user_events : Ring → List Event
dump_recent_user_events r =
    let count = min r.event_next event_count in
    dump_loop r.events count (u32 (r.event_next + 2 ^ 32 - count))
