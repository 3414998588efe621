-- ===== src/Boot/Entry.antt =====
-- arch/orlix/boot/boot.c in the hosted build: the handoff record and the entry of the kernel.
use orlix_system.Prelude.{
  ℕ, ◌+◌, ◌-◌, ◌*◌, Bool, true, false, not, ◌&&◌, Option, none, some, ltb, ◌==◌, if◌then◌else◌,
  bit_and,
}
use orlix_system.Boot.Params.{CString, is_present}

-- `struct boot_params`
pub record BootParams : Type 0 where
  pub cmdline : CString
  pub memory_base : ℕ
  pub memory_size : ℕ
  pub initrd_base : ℕ
  pub initrd_size : ℕ
  pub dtb_base : ℕ
  pub dtb_size : ℕ
  pub root_device : CString
  pub console_device : CString
  pub host_page_size : ℕ
  pub flags : ℕ

-- `last_boot_params` and `boot_handoff_count`
pub record Handoffs : Type 0 where
  pub last : Option BootParams
  pub count : ℕ

unfoldable pub power_of_two : ℕ → Bool
power_of_two value = not (value == 0) && bit_and value (value - 1) == 0

-- ORLIX_APP_HOSTED_BOOT_MEMORY_SIZE
abbrev pub boot_memory_size : ℕ
boot_memory_size = 1024 * 1024 * 1024

unfoldable pub boot_params_valid : BootParams → Bool
boot_params_valid p =
    is_present p.cmdline
    && not (p.dtb_base == 0)
    && not (p.dtb_size == 0)
    && is_present p.root_device
    && is_present p.console_device

-- `page_size` is PAGE_SIZE, `boot_memory` the physical address of `app_hosted_boot_memory`.
module _ (page_size boot_memory : ℕ) where
  abbrev pub usable_page_size : ℕ → Bool
  usable_page_size size = power_of_two size && not (ltb size page_size)

  unfoldable pub materialize_handoff : BootParams → BootParams
  materialize_handoff p =
      let sized : BootParams =
        if p.memory_size == 0
        then record p { memory_base = boot_memory; memory_size = boot_memory_size }
        else p in
      if usable_page_size sized.host_page_size
      then sized
      else record sized { host_page_size = page_size }

  unfoldable pub record_handoff : BootParams → Handoffs → Handoffs
  record_handoff p h = record { last = some (materialize_handoff p); count = h.count + 1 }

  -- True for ORLIX_ARCH_BOOT_OK, false for ORLIX_ARCH_BOOT_INVALID_CONFIG.
  unfoldable pub prepare_entry : BootParams → Handoffs → Bool × Handoffs
  prepare_entry p h = if boot_params_valid p then (true, record_handoff p h) else (false, h)

  unfoldable pub arch_boot_host_page_size : Handoffs → ℕ
  arch_boot_host_page_size h = elim h.last [
    | none ↦ page_size
    | some p ↦ if usable_page_size p.host_page_size then p.host_page_size else page_size
  ]
