-- ===== src/Hosted/Events/Recent.antt =====
-- The ring of events implements a list of the last ones.
use orlix_system.Prelude.{
  ℕ, zero, suc, ◌+◌, ◌-◌, ◌%◌, ◌^◌, ◌≤◌, ◌<◌, ◌≡◌, ◌≢◌, refl, ap, sym, ◌∙◌, List, [], ◌∷◌, ◌++◌,
  if◌then◌else◌, ltb, u32, min, arith, length-append, lt→ltb, ltb→lt, le→ltb, ne→==, Bool-cases,
  inl, inr, length,
}
use orlix_system.Hosted.Events.{
  event_count, Event, Ring, append_event, dump_loop, dump_recent_user_events,
}

-- All events that have been recorded are counted, and the last ones kept, the oldest first.
pub record Log : Type 0 where
  pub written : ℕ
  pub recent : List Event

-- A list without its first element, if it has too many.
abbrev pub keep_last : List Event → List Event
keep_last [] = []
keep_last (e ∷ rest) = if ltb (length rest) event_count then e ∷ rest else rest

abbrev pub note : Log → Event → Log
note log e = record {
  written = log.written + 1;
  recent = keep_last (log.recent ++ (record e { seq = log.written + 1 } ∷ []));
}

abbrev pub note_all : List Event → Log → Log
note_all [] log = log
note_all (e ∷ rest) log = note_all rest (note log e)

abbrev pub append_all : List Event → Ring → Ring
append_all [] r = r
append_all (e ∷ rest) r = append_all rest (append_event e r)

dump_loop-snoc :
    (f : ℕ → Event) (n i : ℕ)
    → i + n < 2 ^ 32
    → dump_loop f (suc n) i ≡ dump_loop f n i ++ (f ((i + n) % event_count) ∷ [])
unfolding dump_loop
dump_loop-snoc f zero i h = ap (λ (k : ℕ). f (k % event_count) ∷ []) omega arith
dump_loop-snoc f (suc n) i h =
    let next : u32 (i + 1) ≡ i + 1 = omega (arith, h) in
    ap (λ (l : List Event). f (i % event_count) ∷ l)
      (dump_loop-snoc f n (u32 (i + 1)) (omega (arith, h, next))
        ∙ ap (λ (k : ℕ). dump_loop f n (u32 (i + 1)) ++ (f (k % event_count) ∷ []))
            (omega (arith, next)))

dump_loop-frame :
    (f g : ℕ → Event) (n i : ℕ)
    → i + n < 2 ^ 32
    → ((j : ℕ) → j < n → f ((i + j) % event_count) ≡ g ((i + j) % event_count))
    → dump_loop f n i ≡ dump_loop g n i
unfolding dump_loop
dump_loop-frame f g zero i h same = refl
dump_loop-frame f g (suc n) i h same =
    let next : u32 (i + 1) ≡ i + 1 = omega (arith, h) in
    let head : f (i % event_count) ≡ g (i % event_count) =
      ap (λ (k : ℕ). f (k % event_count)) omega arith
      ∙ same 0 (omega arith)
      ∙ ap (λ (k : ℕ). g (k % event_count)) omega arith in
    let tail = dump_loop-frame f g n (u32 (i + 1)) (omega (arith, h, next)) (λ j k.
      let moved : (u32 (i + 1) + j) % event_count ≡ (i + suc j) % event_count =
        omega (arith, next) in
      ap f moved ∙ same (suc j) (omega (arith, k)) ∙ sym (ap g moved)) in
    ap (λ (x : Event). x ∷ dump_loop f n (u32 (i + 1))) head
    ∙ ap (λ (l : List Event). g (i % event_count) ∷ l) tail

length-dump_loop : (f : ℕ → Event) (n i : ℕ) → length (dump_loop f n i) ≡ n
unfolding dump_loop
length-dump_loop f zero i = refl
length-dump_loop f (suc n) i = ap suc (length-dump_loop f n (u32 (i + 1)))

-- An event that fits is added, and else the oldest one goes.
keep_last-room :
    (l : List Event) (e : Event)
    → length l < event_count
    → keep_last (l ++ (e ∷ [])) ≡ l ++ (e ∷ [])
keep_last-room [] e h = refl
keep_last-room (x ∷ l) e h =
    rw (lt→ltb (length (l ++ (e ∷ []))) event_count (omega (arith, h, length-append l (e ∷ []))))
      refl

keep_last-full :
    (x : Event) (l : List Event) (e : Event)
    → length l + 1 ≡ event_count
    → keep_last ((x ∷ l) ++ (e ∷ [])) ≡ l ++ (e ∷ [])
keep_last-full x l e h =
    rw (le→ltb (length (l ++ (e ∷ []))) event_count (omega (arith, h, length-append l (e ∷ []))))
      refl

dump-window :
    (r : Ring) (count start : ℕ)
    → min r.event_next event_count ≡ count
    → start + count ≡ r.event_next
    → r.event_next < 2 ^ 32
    → dump_recent_user_events r ≡ dump_loop r.events count start
unfolding dump_recent_user_events
dump-window r count start shown from h =
    rw (dump_recent_user_events, shown)
      (ap (λ (i : ℕ). dump_loop r.events count i) (omega (arith, from, h)))

module _ (r : Ring) (e : Event) (h : r.event_next + 1 < 2 ^ 32) where
  abbrev stored : Event
  stored = record e { seq = u32 (r.event_seq + 1) }

  stored-last : (append_event e r).events (r.event_next % event_count) ≡ stored
  unfolding append_event
  stored-last = ground arith

  stored-other : (i : ℕ) → i ≢ r.event_next % event_count → (append_event e r).events i ≡ r.events i
  unfolding append_event
  stored-other i apart = rw (append_event, ne→== i (r.event_next % event_count) apart) refl

  loop-append :
      (n i : ℕ)
      → i + n ≡ r.event_next
      → n < event_count
      → dump_loop (append_event e r).events (suc n) i ≡ dump_loop r.events n i ++ (stored ∷ [])
  loop-append n i same few =
      let f = (append_event e r).events in
      dump_loop-snoc f n i (omega (arith, h, same))
      ∙ ap (λ (x : Event). dump_loop f n i ++ (x ∷ []))
          (ap (λ (k : ℕ). f (k % event_count)) same ∙ stored-last)
      ∙ ap (λ (l : List Event). l ++ (stored ∷ []))
          (dump_loop-frame f r.events n i (omega (arith, h, same))
            (λ j k. stored-other ((i + j) % event_count) (λ q. omega (arith, q, k, few, same))))

  next_event : (append_event e r).event_next ≡ r.event_next + 1
  unfolding append_event
  next_event = omega (arith, h)

  -- Recording an event keeps the last ones.
  append-note :
      dump_recent_user_events (append_event e r)
      ≡ keep_last (dump_recent_user_events r ++ (stored ∷ []))
  unfolding dump_loop
  append-note = elim (Bool-cases (ltb r.event_next event_count)) [
    | inl room ↦
        let n = r.event_next in
        let few : n < event_count = ltb→lt n event_count room in
        dump-window (append_event e r) (suc n) 0 (omega (arith, few, next_event))
          (omega (arith, next_event)) (omega (arith, next_event, h))
        ∙ loop-append n 0 (omega arith) few
        ∙ sym (
            keep_last-room (dump_loop r.events n 0) stored
              (omega (arith, few, length-dump_loop r.events n 0)))
        ∙ ap (λ (l : List Event). keep_last (l ++ (stored ∷ [])))
            (sym (dump-window r n 0 (omega (arith, few)) (omega arith) (omega (arith, h))))
    | inr full ↦
        let start = r.event_next - event_count in
        let many : event_count ≤ r.event_next = ground (arith, full) in
        let rest = dump_loop r.events 15 (u32 (start + 1)) in
        dump-window (append_event e r) 16 (start + 1) (omega (arith, many, next_event))
          (omega (arith, many, next_event)) (omega (arith, next_event, h))
        ∙ loop-append 15 (start + 1) (omega (arith, many)) (omega arith)
        ∙ ap (λ (i : ℕ). dump_loop r.events 15 i ++ (stored ∷ [])) (omega (arith, many, h))
        ∙ sym (
            keep_last-full (r.events (start % event_count)) rest stored
              (omega (arith, length-dump_loop r.events 15 (u32 (start + 1)))))
        ∙ ap (λ (l : List Event). keep_last (l ++ (stored ∷ [])))
            (sym (
              dump-window r 16 start (omega (arith, many)) (omega (arith, many))
                (omega (arith, h))))
  ]

-- The ring holds what the log holds.
record Implements (r : Ring) (log : Log) : Type 0 where
  next_written : r.event_next ≡ log.written
  seq_written : r.event_seq ≡ log.written
  same_events : dump_recent_user_events r ≡ log.recent

append-Implements :
    (r : Ring) (log : Log) (e : Event)
    → log.written + 1 < 2 ^ 32
    → Implements r log
    → Implements (append_event e r) (note log e)
unfolding append_event
append-Implements r log e h i = record {
  next_written = omega (arith, h, i.next_written);
  seq_written = omega (arith, h, i.seq_written);
  same_events =
      append-note r e (omega (arith, h, i.next_written))
      ∙ ap (λ (s : ℕ). keep_last (dump_recent_user_events r ++ (record e { seq = s } ∷ [])))
          (omega (arith, h, i.seq_written))
      ∙ ap (λ (l : List Event). keep_last (l ++ (record e { seq = log.written + 1 } ∷ [])))
          i.same_events;
}

append_all-Implements :
    (events : List Event) (r : Ring) (log : Log)
    → log.written + length events < 2 ^ 32
    → Implements r log
    → Implements (append_all events r) (note_all events log)
append_all-Implements [] r log h i = i
append_all-Implements (e ∷ rest) r log h i =
    append_all-Implements rest (append_event e r) (note log e) (omega (arith, h))
      (append-Implements r log e (omega (arith, h)) i)

-- After fewer than 2 ^ 32 events, the ring prints the last events, at most 16 and the oldest first, each
-- with its number among all events.
pub dump-Log :
    (events : List Event) (blank : ℕ → Event)
    → length events < 2 ^ 32
    → dump_recent_user_events
        (append_all events (record { events = blank; event_seq = 0; event_next = 0 }))
      ≡ (note_all events (record { written = 0; recent = [] })).recent
unfolding dump_recent_user_events dump_loop
dump-Log events blank h =
    (append_all-Implements events (record { events = blank; event_seq = 0; event_next = 0 })
      (record { written = 0; recent = [] }) (omega (arith, h))
      (record { next_written = refl; seq_written = refl; same_events = refl })).same_events
