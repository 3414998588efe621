-- ===== src/Boot/Handoff/Once.antt =====
-- The flag of `OrlixBoot`: the kernel is entered once, and a boot that fails can be tried again.
use orlix_system.Prelude.{
  ℕ, ◌+◌, ◌≤◌, Bool, true, false, not, ◌||◌, Option, List, [], ◌∷◌, ◌≡◌, refl, Bool-cases,
  Option-cases, arith, if◌then◌else◌, inl, inr,
}
use orlix_system.Boot.Params.{Config, Defaults, prepare_boot_input}
use orlix_system.Boot.Entry.{Handoffs}
use orlix_system.Boot.Handoff.Release.{Settled, boot_handoff-Settled}
use orlix_system.Boot.Handoff.{
  Host, Outcome, Event, returned, running, boot_handoff, Boots, boot, is_invalid_config,
}

abbrev pub is_running : Outcome → Bool
is_running (returned status) = false
is_running (running p) = true

-- A handoff that has settled its resources leaves the flag to a kernel that runs.
Settled-flag :
    (o : Outcome) (events : List Event) (h : Handoffs)
    → Settled (o, events, h)
    → not (is_invalid_config o) ≡ is_running o
Settled-flag (returned status) events h s = rw s.0 refl
Settled-flag (running p) events h s = refl

flag_kept : (b : Bool) → b ≡ (b || false)
flag_kept true = refl
flag_kept false = refl

module _ (host : Host) where
  module _ (table : List Defaults) where
    -- A boot leaves the flag set just when it was set before or the kernel now runs, and it never
    -- runs when the flag was set.
    pub boot-started :
        (config : Option Config) (b : Boots)
        → ((boot host table config b).2.started
            ≡ (b.started || is_running (boot host table config b).0))
          × (b.started ≡ true → is_running (boot host table config b).0 ≡ false)
    unfolding boot
    boot-started config b = elim (Option-cases (prepare_boot_input table config)) [
      | inl e ↦ rw (boot, e) (flag_kept b.started, λ set. refl)
      | inr (input, e) ↦
          let (o, events, h) = boot_handoff host input b.handoffs in
          let flag : not (is_invalid_config o) ≡ is_running o =
            Settled-flag o events h (boot_handoff-Settled host input b.handoffs) in
          rw (boot, e)
            (elim (Bool-cases b.started) [
              | inl set ↦ rw set (refl, λ s. refl)
              | inr clear ↦ rw clear (flag, λ s. ground (arith, s))
            ])
    ]

    -- How many of the boots, one after the other, enter the kernel.
    abbrev pub entries : List (Option Config) → Boots → ℕ
    entries [] b = 0
    entries (config ∷ rest) b =
        let (outcome, events, b') = boot host table config b in
        (if is_running outcome then 1 else 0) + entries rest b'

    -- However often the system is booted, the kernel is entered at most once, and never when the
    -- flag was set before.
    pub boot_once :
        (configs : List (Option Config)) (b : Boots)
        → entries configs b ≤ (if b.started then 0 else 1)
    boot_once [] b = omega arith
    boot_once (config ∷ rest) b =
        let (o, events, b') = boot host table config b in
        let ih = boot_once rest b' in
        let step = boot-started config b in ground (arith, ih, step.0, step.1)
