-- ===== src/PageSync/Linux.antt =====
-- The state, what init.c calls of Linux, and the walk of the page tables.
use orlix_system.Prelude.{
  ℕ, ◌+◌, ◌-◌, ◌*◌, ◌/◌, ◌^◌, Bool, true, false, not, ◌||◌, Option, if◌then◌else◌, ◌==◌, u64,
  bit_and,
}
use orlix_system.HostMemory.Space.{Space}
use orlix_system.Uaccess.{page_offset}
use orlix_system.PageTable.{pte_present, pte_pfn, pte_write, flag_exec, table_none, table_bad}

-- A result: 0, `-e`, or no result, where the fuel of the loop that retries a fault runs out.
pub data Result : Type 0 where
  ok : Result
  err : ℕ → Result
  stuck : Result

abbrev pub enoent : ℕ
enoent = 2

abbrev pub eintr : ℕ
eintr = 4

abbrev pub enomem : ℕ
enomem = 12

abbrev pub efault : ℕ
efault = 14

abbrev pub einval : ℕ
einval = 22

-- The results 0 and -1 of the host's functions.
abbrev pub status_of : Bool → Result
status_of good = if good then Result.ok else Result.err 1

abbrev pub is_enoent : Result → Bool
is_enoent Result.ok = false
is_enoent (Result.err e) = e == enoent
is_enoent Result.stuck = false

-- TASK_SIZE of the hosted build.
abbrev pub task_size : ℕ
task_size = 0x0000700000000000

-- Of a `struct vm_area_struct`, with VM_READ, VM_WRITE and VM_EXEC of its flags.
pub record Vma : Type 0 where
  pub vm_start : ℕ
  pub vm_end : ℕ
  pub readable : Bool
  pub writable : Bool
  pub executable : Bool

-- FAULT_FLAG_INSTRUCTION, FAULT_FLAG_WRITE and FAULT_FLAG_TRIED beside the flags that are always set.
pub record FaultFlags : Type 0 where
  pub instruction : Bool
  pub write : Bool
  pub tried : Bool

-- VM_FAULT_COMPLETED, VM_FAULT_RETRY, with a VM_FAULT_ERROR bit the number that
-- `vm_fault_to_errno` negates, and of these bits VM_FAULT_OOM and VM_FAULT_SIGBUS.
pub record Fault : Type 0 where
  pub completed : Bool
  pub retry : Bool
  pub error : Option ℕ
  pub oom : Bool
  pub sigbus : Bool

-- The kernel's own page table, or the one of the current task.
pub data Tables : Type 0 where
  init_mm : Tables
  current_mm : Tables

-- What init.c calls of Linux. `W` is the state of Linux and of the host. `p4d`, `pud`, `pmd` and
-- `pte` are the entries that `p4d_offset` and its like reach for an address, and `pgd_none` and
-- `pgd_bad` are those of the generic header. A fault can map and unmap pages of the host.
pub record Linux (W : Type 0) : Type 0 where
  pub has_mm : W → Bool
  pub pgd_none : Tables → ℕ → W → Bool
  pub pgd_bad : Tables → ℕ → W → Bool
  pub p4d : Tables → ℕ → W → ℕ
  pub pud : Tables → ℕ → W → ℕ
  pub pmd : Tables → ℕ → W → ℕ
  pub pte : Tables → ℕ → W → ℕ
  pub lock_mm_and_find_vma : ℕ → Space W → Option Vma × Space W
  pub handle_mm_fault : Vma → ℕ → FaultFlags → Space W → Fault × Space W
  pub fault_signal_pending : Fault → W → Bool
  pub vma_lookup : ℕ → W → Option Vma
  pub kcalloc : ℕ → W → Bool × W

-- `read_locks` is how often the mmap lock is held to read, and `panicked` says that `panic` has been
-- called, after which nothing runs. `gate_ready` is orlix_hosted_syscall_gate_ready.
pub record State (W : Type 0) : Type 0 where
  pub space : Space W
  pub read_locks : ℕ
  pub panicked : Bool
  pub gate_ready : Bool

abbrev pub lock : {W : Type 0} → State W → State W
lock st = record st { read_locks = st.read_locks + 1 }

abbrev pub unlock : {W : Type 0} → State W → State W
unlock st = record st { read_locks = st.read_locks - 1 }

abbrev pub panic : {W : Type 0} → State W → State W
panic st = record st { panicked = true }

-- What follows a call, unless its result is returned at once: `if (ret) return ret;`.
abbrev pub and_then :
    {W : Type 0} → Result × State W → (State W → Result × State W) → Result × State W
and_then (Result.ok, st) f = f st
and_then (Result.err e, st) f = (Result.err e, st)
and_then (Result.stuck, st) f = (Result.stuck, st)

-- A result other than 0 is a panic.
abbrev pub must : {W : Type 0} → Result × State W → State W
must (Result.ok, st) = st
must (Result.err e, st) = panic st
must (Result.stuck, st) = panic st

-- `struct orlix_host_pte_window`
pub record Window : Type 0 where
  pub target : ℕ
  pub length : ℕ
  pub pfn : ℕ
  pub writable : Bool
  pub executable : Bool

pub data Walk : Type 0 where
  found : Window → Walk
  failed : Result → Walk

module _ (page_shift : ℕ) where
  -- `__va(PFN_PHYS(window.pfn))`
  abbrev pub source_of : Window → ℕ
  source_of window = u64 (u64 (window.pfn * 2 ^ page_shift) + page_offset)

  -- `address & PAGE_MASK`
  abbrev pub page_of : ℕ → ℕ
  page_of address = address / 2 ^ page_shift * 2 ^ page_shift

  abbrev pub window_at : ℕ → ℕ → Window
  window_at target entry = record {
    target = target;
    length = 2 ^ page_shift;
    pfn = pte_pfn page_shift entry;
    writable = pte_write entry;
    executable = not (bit_and entry flag_exec == 0);
  }

  module _ {W : Type 0} (linux : Linux W) where
    -- `orlix_kernel_pte_page`
    unfoldable pub kernel_pte_page : ℕ → W → Walk
    unfolding table_none table_bad pte_present pte_pfn pte_write
    kernel_pte_page address w =
        if linux.pgd_none Tables.init_mm address w
        then Walk.failed (Result.err enoent)
        else if linux.pgd_bad Tables.init_mm address w
        then Walk.failed (Result.err efault)
        else if table_none (linux.p4d Tables.init_mm address w)
        then Walk.failed (Result.err enoent)
        else if table_bad page_shift (linux.p4d Tables.init_mm address w)
        then Walk.failed (Result.err efault)
        else if table_none (linux.pud Tables.init_mm address w)
        then Walk.failed (Result.err enoent)
        else if table_bad page_shift (linux.pud Tables.init_mm address w)
        then Walk.failed (Result.err efault)
        else if table_none (linux.pmd Tables.init_mm address w)
        then Walk.failed (Result.err enoent)
        else if table_bad page_shift (linux.pmd Tables.init_mm address w)
        then Walk.failed (Result.err efault)
        else if not (pte_present (linux.pte Tables.init_mm address w))
        then Walk.failed (Result.err enoent)
        else Walk.found (window_at (page_of address) (linux.pte Tables.init_mm address w))

    -- A level of the tables is missing or bad, or the entry is not present.
    abbrev pub no_page : ℕ → W → Bool
    no_page page w =
        linux.pgd_none Tables.current_mm page w
        || linux.pgd_bad Tables.current_mm page w
        || table_none (linux.p4d Tables.current_mm page w)
        || table_bad page_shift (linux.p4d Tables.current_mm page w)
        || table_none (linux.pud Tables.current_mm page w)
        || table_bad page_shift (linux.pud Tables.current_mm page w)
        || table_none (linux.pmd Tables.current_mm page w)
        || table_bad page_shift (linux.pmd Tables.current_mm page w)
        || not (pte_present (linux.pte Tables.current_mm page w))

    -- The walk that `orlix_user_pte_window` and `orlix_user_present_pte_window` share.
    unfoldable pub user_walk : ℕ → W → Walk
    unfolding table_none table_bad pte_present pte_pfn pte_write
    user_walk page w =
        if no_page page w
        then Walk.failed (Result.err efault)
        else Walk.found (window_at page (linux.pte Tables.current_mm page w))
