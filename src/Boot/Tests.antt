-- ===== src/Boot/Tests.antt =====
-- A profile, a host that has its resources, and two boots in a row.
use orlix_system.Prelude.{◌≤◌, ◌≡◌, true, false, ◌||◌, none, some, List, [], ◌∷◌}
use orlix_system.Boot.Params.{CString, Config, Defaults, Input}
use orlix_system.Boot.Entry.{Handoffs}
use orlix_system.Boot.Handoff.{Host, Boots, boot, boot_handoff}
use orlix_system.Boot.Handoff.Release.{Settled, boot_handoff-Settled}
use orlix_system.Boot.Handoff.Once.{is_running, entries, boot-started, boot_once}

abbrev name : CString
name = some (b'a' ∷ [])

abbrev test_host : Host
test_host = record {
  select_boot_block_images = λ s. true;
  load_kernel_payload = λ s. some (record { data_base = 4096; size = 16 });
  load_initrd_resource = λ s. some (record { data_base = 8192; size = 32 });
  memory_page_size = 0x4000;
  page_size = 0x1000;
  boot_memory = 0x80000;
}

abbrev test_defaults : List Defaults
test_defaults =
    record {
      profile = 0;
      profile_dtb_path = name;
      kernel_cmdline = name;
      root_device = name;
      console_device = name;
    }
    ∷ []

abbrev test_config : Config
test_config = record {
  profile = 0;
  kernel_cmdline = none;
  root_image_identifier = name;
  terminal_identifier = name;
}

abbrev test_input : Input
test_input = record {
  profile = 0;
  profile_dtb_path = name;
  kernel_cmdline = name;
  root_device = name;
  console_device = name;
  root_image_identifier = name;
  terminal_identifier = name;
}

abbrev test_handoffs : Handoffs
test_handoffs = record { last = none; count = 0 }

abbrev test_boots : Boots
test_boots = record { started = false; handoffs = test_handoffs }

boot_handoff-Settled_example : Settled (boot_handoff test_host test_input test_handoffs)
boot_handoff-Settled_example = boot_handoff-Settled test_host test_input test_handoffs

boot-started_example :
    ((boot test_host test_defaults (some test_config) test_boots).2.started
      ≡ (false || is_running (boot test_host test_defaults (some test_config) test_boots).0))
    × (false ≡ true
        → is_running (boot test_host test_defaults (some test_config) test_boots).0 ≡ false)
boot-started_example = boot-started test_host test_defaults (some test_config) test_boots

boot_once_example :
    entries test_host test_defaults (some test_config ∷ none ∷ some test_config ∷ []) test_boots ≤ 1
boot_once_example =
    boot_once test_host test_defaults (some test_config ∷ none ∷ some test_config ∷ []) test_boots
