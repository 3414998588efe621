-- ===== src/Boot/Params.antt =====
-- boot/params.c: the boot configuration completed with the defaults of its profile.
use orlix_system.Prelude.{
  ℕ, Bool, false, not, Option, none, some, ◌==◌, if◌then◌else◌, List, [], ◌∷◌,
}

abbrev pub CString : Type 0
CString = Option (List ℕ)

-- ORLIX_BOOT_STATUS_OK and so on
pub data Status : Type 0 where
  ok : Status
  invalid_config : Status
  unavailable : Status
  already_started : Status

pub record Config : Type 0 where
  pub profile : ℕ
  pub kernel_cmdline : CString
  pub root_image_identifier : CString
  pub terminal_identifier : CString

pub record Defaults : Type 0 where
  pub profile : ℕ
  pub profile_dtb_path : CString
  pub kernel_cmdline : CString
  pub root_device : CString
  pub console_device : CString

pub record Input : Type 0 where
  pub profile : ℕ
  pub profile_dtb_path : CString
  pub kernel_cmdline : CString
  pub root_device : CString
  pub console_device : CString
  pub root_image_identifier : CString
  pub terminal_identifier : CString

unfoldable pub is_present : CString → Bool
is_present none = false
is_present (some []) = false
is_present (some (c ∷ s)) = not (c == 0)

-- The table of the defaults, searched from its start. Its strings are the caller's to give.
unfoldable pub defaults_for : List Defaults → ℕ → Option Defaults
defaults_for [] profile = none
defaults_for (d ∷ table) profile =
    let rest = defaults_for table profile in if d.profile == profile then some d else rest

unfoldable pub prepare_boot_input : List Defaults → Option Config → Option Input
prepare_boot_input table none = none
prepare_boot_input table (some config) =
    if not (is_present config.root_image_identifier)
    then none
    else if not (is_present config.terminal_identifier)
    then none
    else elim (defaults_for table config.profile) [
      | none ↦ none
      | some defaults ↦ some (record {
        profile = config.profile;
        profile_dtb_path = defaults.profile_dtb_path;
        kernel_cmdline =
            if is_present config.kernel_cmdline
            then config.kernel_cmdline
            else defaults.kernel_cmdline;
        root_device = defaults.root_device;
        console_device = defaults.console_device;
        root_image_identifier = config.root_image_identifier;
        terminal_identifier = config.terminal_identifier;
      })
    ]
