-- ===== src/Boot/Handoff.antt =====
-- boot/loader.c and boot/handoff.c in the hosted build: the resources that a boot loads and frees,
-- the entry of the kernel, which does not return there, and the flag that keeps a second boot out.
pub mod Once
pub mod Release
use orlix_system.Prelude.{
  ℕ, zero, suc, ◌+◌, Bool, true, false, not, ◌&&◌, ◌||◌, Option, none, some, ◌==◌, if◌then◌else◌,
  List, [], ◌∷◌, ◌++◌,
}
use orlix_system.Boot.Params.{
  CString, Status, invalid_config, already_started, ok, Config, Input, Defaults, is_present,
  prepare_boot_input,
}
use orlix_system.Boot.Entry.{BootParams, Handoffs, prepare_entry}

-- `struct OrlixHostResource`
pub record Resource : Type 0 where
  pub data_base : ℕ
  pub size : ℕ

-- The calls of the host; an option is `some` where the call returns 0. `page_size` and
-- `boot_memory` are the kernel's PAGE_SIZE and its static memory.
pub record Host : Type 0 where
  pub select_boot_block_images : CString → Bool
  pub load_kernel_payload : CString → Option Resource
  pub load_initrd_resource : CString → Option Resource
  pub memory_page_size : ℕ
  pub page_size : ℕ
  pub boot_memory : ℕ

-- The two resources of a boot, and what happens to them.
pub data Part : Type 0 where
  device_tree : Part
  initial_ramdisk : Part

pub data Event : Type 0 where
  loaded : Part → Event
  freed : Part → Event

-- A boot ends with a status, or the kernel runs.
pub data Outcome : Type 0 where
  returned : Status → Outcome
  running : BootParams → Outcome

-- `OrlixSelectRootImage`
unfoldable pub select_root_image : CString → Bool
select_root_image identifier = is_present identifier

-- `OrlixLoadDeviceTree` and `OrlixLoadInitrd`
unfoldable pub load_device_tree : Resource → Bool
load_device_tree r = not (r.data_base == 0 || r.size == 0)

unfoldable pub load_initrd : Resource → Bool
load_initrd r = not (r.data_base == 0 || r.size == 0)

-- The state of `OrlixBoot`: `OrlixBootStarted` and the record of handoffs.
pub record Boots : Type 0 where
  pub started : Bool
  pub handoffs : Handoffs

abbrev pub is_invalid_config : Outcome → Bool
is_invalid_config (returned invalid_config) = true
is_invalid_config _ = false

module _ (host : Host) where
  -- `OrlixEnterLinux` with `arch_boot_entry`.
  unfoldable pub enter_linux : BootParams → Handoffs → Outcome × Handoffs
  enter_linux p h =
      let (good, h') = prepare_entry host.page_size host.boot_memory p h in
      if not (is_present p.cmdline)
        || p.dtb_base == 0
        || p.dtb_size == 0
        || not (is_present p.root_device)
        || not (is_present p.console_device)
      then (returned invalid_config, h)
      else if good
      then (running p, h')
      else (returned invalid_config, h')

  abbrev pub params_of : Input → Resource → Resource → BootParams
  params_of input dtb initrd = record {
    cmdline = input.kernel_cmdline;
    memory_base = 0;
    memory_size = 0;
    initrd_base = initrd.data_base;
    initrd_size = initrd.size;
    dtb_base = dtb.data_base;
    dtb_size = dtb.size;
    root_device = input.root_device;
    console_device = input.console_device;
    host_page_size = host.memory_page_size;
    flags = 0;
  }

  -- With both resources loaded: the last steps, and the events of freeing them.
  unfoldable pub enter_loaded :
      Input → Resource → Resource → Handoffs → Outcome × List Event × Handoffs
  enter_loaded input dtb initrd h =
      let (outcome, h') = enter_linux (params_of input dtb initrd) h in
      let both = freed initial_ramdisk ∷ freed device_tree ∷ [] in
      if not (load_device_tree dtb)
      then (returned invalid_config, both, h)
      else if not (load_initrd initrd)
      then (returned invalid_config, both, h)
      else elim outcome [
        | returned status ↦ (returned status, both, h')
        | running p ↦ (running p, [], h')
      ]

  -- With the device tree loaded.
  unfoldable pub load_rest : Input → Resource → Handoffs → Outcome × List Event × Handoffs
  load_rest input dtb h = elim (host.load_initrd_resource input.root_image_identifier) [
    | none ↦ (returned invalid_config, loaded device_tree ∷ freed device_tree ∷ [], h)
    | some initrd ↦
        let (outcome, events, h') = enter_loaded input dtb initrd h in
        (outcome, loaded device_tree ∷ loaded initial_ramdisk ∷ events, h')
  ]

  unfoldable pub boot_handoff : Input → Handoffs → Outcome × List Event × Handoffs
  boot_handoff input h =
      if not (is_present input.profile_dtb_path)
      then (returned invalid_config, [], h)
      else if not (select_root_image input.root_image_identifier)
      then (returned invalid_config, [], h)
      else if not (host.select_boot_block_images input.root_image_identifier)
      then (returned invalid_config, [], h)
      else elim (host.load_kernel_payload input.profile_dtb_path) [
        | none ↦ (returned invalid_config, [], h)
        | some dtb ↦ load_rest input dtb h
      ]

  unfoldable pub boot : List Defaults → Option Config → Boots → Outcome × List Event × Boots
  boot table config b = elim (prepare_boot_input table config) [
    | none ↦ (returned invalid_config, [], b)
    | some input ↦
        let (outcome, events, h) = boot_handoff input b.handoffs in
        if b.started
        then (returned already_started, [], b)
        else (outcome, events, record { started = not (is_invalid_config outcome); handoffs = h })
  ]
