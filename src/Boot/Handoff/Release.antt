-- ===== src/Boot/Handoff/Release.antt =====
-- The resources of a boot that fails are freed, each once, and a kernel that runs has both.
use orlix_system.Prelude.{
  Bool, true, false, Option, none, some, List, [], ◌∷◌, ◌≡◌, refl, Bool-cases, Option-cases,
  if_both, ◌⊎◌, inl, inr,
}
use orlix_system.Boot.Params.{Input, invalid_config, is_present}
use orlix_system.Boot.Entry.{BootParams, Handoffs, boot_params_valid, prepare_entry}
use orlix_system.Boot.Handoff.{
  Host, Resource, device_tree, initial_ramdisk, Event, loaded, freed, Outcome, returned, running,
  enter_linux, params_of, enter_loaded, load_rest, boot_handoff, select_root_image,
  load_device_tree, load_initrd,
}

-- Who is held: the device tree, the initial ramdisk. A second load of the same and a free of
-- what is not held are errors.
abbrev pub replay : List Event → Bool × Bool → Option (Bool × Bool)
replay [] held = some held
replay (loaded device_tree ∷ rest) (false, r) = replay rest (true, r)
replay (loaded initial_ramdisk ∷ rest) (d, false) = replay rest (d, true)
replay (freed device_tree ∷ rest) (true, r) = replay rest (false, r)
replay (freed initial_ramdisk ∷ rest) (d, true) = replay rest (d, false)
replay (_ ∷ rest) held = none

-- What a boot that ended so must have done with its resources.
abbrev pub Settled : Outcome × List Event × Handoffs → Type 0
Settled (returned status, events, h) =
    (status ≡ invalid_config) × (replay events (false, false) ≡ some (false, false))
Settled (running p, events, h) =
    (replay events (false, false) ≡ some (true, true)) × (boot_params_valid p ≡ true)

module _ (host : Host) where
  -- Linux is entered with the parameters that it is given, if they are valid.
  enter_linux-cases :
      (p : BootParams) (h : Handoffs)
      → ((enter_linux host p h).0 ≡ returned invalid_config)
        ⊎ (((enter_linux host p h).0 ≡ running p) × (boot_params_valid p ≡ true))
  unfolding enter_linux prepare_entry
  enter_linux-cases p h = elim (Bool-cases (boot_params_valid p)) [
    | inl e ↦ rw e (
        if_both
          (λ (o : Outcome × Handoffs).
            (o.0 ≡ returned invalid_config) ⊎ ((o.0 ≡ running p) × (true ≡ true)))
          _ _ _ (inl refl) (inr (refl, refl)))
    | inr e ↦ rw e (
        if_both
          (λ (o : Outcome × Handoffs).
            (o.0 ≡ returned invalid_config) ⊎ ((o.0 ≡ running p) × (false ≡ true)))
          _ _ _ (inl refl) (inl refl))
  ]

  abbrev with_both : Outcome × List Event × Handoffs → Outcome × List Event × Handoffs
  with_both o = (o.0, loaded device_tree ∷ loaded initial_ramdisk ∷ o.1, o.2)

  -- What is left when both are loaded.
  Settled-loaded :
      (input : Input) (dtb initrd : Resource) (h : Handoffs)
      → Settled (with_both (enter_loaded host input dtb initrd h))
  unfolding enter_loaded
  Settled-loaded input dtb initrd h = elim (Bool-cases (load_device_tree dtb)) [
    | inr e ↦ rw (enter_loaded, e) (refl, refl)
    | inl e ↦ elim (Bool-cases (load_initrd initrd)) [
      | inr e' ↦ rw (enter_loaded, e, e') (refl, refl)
      | inl e' ↦ elim (enter_linux-cases (params_of host input dtb initrd) h) [
        | inl e'' ↦ rw (enter_loaded, e, e', e'') (refl, refl)
        | inr (e'', valid) ↦ rw (enter_loaded, e, e', e'') (refl, valid)
      ]
    ]
  ]

  -- From the first load on.
  Settled-load :
      (input : Input) (h : Handoffs)
      → Settled (elim (host.load_kernel_payload input.profile_dtb_path) [
        | none ↦ (returned invalid_config, [], h)
        | some dtb ↦ load_rest host input dtb h
      ])
  unfolding load_rest
  Settled-load input h = elim (Option-cases (host.load_kernel_payload input.profile_dtb_path)) [
    | inl e ↦ rw e (refl, refl)
    | inr (dtb, e) ↦ elim (Option-cases (host.load_initrd_resource input.root_image_identifier)) [
      | inl e' ↦ rw (e, load_rest, e') (refl, refl)
      | inr (initrd, e') ↦ rw (e, load_rest, e') (Settled-loaded input dtb initrd h)
    ]
  ]

  -- However a boot ends, it has loaded and freed its resources in step: one that returns fails with
  -- ORLIX_BOOT_STATUS_INVALID_CONFIG and has freed each resource that it loaded, once, and a kernel
  -- that runs has both, and valid parameters.
  pub boot_handoff-Settled : (input : Input) (h : Handoffs) → Settled (boot_handoff host input h)
  unfolding boot_handoff
  boot_handoff-Settled input h = elim (Bool-cases (is_present input.profile_dtb_path)) [
    | inr e ↦ rw (boot_handoff, e) (refl, refl)
    | inl e ↦ elim (Bool-cases (select_root_image input.root_image_identifier)) [
      | inr e' ↦ rw (boot_handoff, e, e') (refl, refl)
      | inl e' ↦ elim (Bool-cases (host.select_boot_block_images input.root_image_identifier)) [
        | inr e'' ↦ rw (boot_handoff, e, e', e'') (refl, refl)
        | inl e'' ↦ rw (boot_handoff, e, e', e'') (Settled-load input h)
      ]
    ]
  ]
