-- ===== src/PageSync/Sample.antt =====
-- A task with one writable mapping and a present page at every address, on a host whose calls succeed.
use orlix_system.Prelude.{ℕ, ◌%◌, ◌^◌, ◌≡◌, refl, true, false, not, none, some, [], ◌==◌, arith}
use orlix_system.Memory.{Memory}
use orlix_system.HostMemory.Space.{Mach}
use orlix_system.HostMemory.User.Valid.{KeepsNull}
use orlix_system.PageSync.Linux.{Vma, Linux, State}
use orlix_system.PageSync.Steps.{Documented, Holds}

abbrev pub test_mach : Mach ℕ
test_mach = record {
  vm_allocate = λ a n m w. (not (a == 0), m, w);
  vm_deallocate = λ a n m w. (m, w);
  vm_remap = λ a n f m w. (true, m, w);
  vm_allocate_anywhere = λ n w. (some 1048576, w);
  vm_protect = λ a n p w. (true, w);
  malloc = λ w. (true, w);
}

pub test-KeepsNull : KeepsNull test_mach
test-KeepsNull n m w = refl

abbrev pub test_vma : Vma
test_vma = record {
  vm_start = 65536;
  vm_end = 131072;
  readable = true;
  writable = true;
  executable = false;
}

-- The number of a table's entry is that of a table, and of a page its frame and its flags.
abbrev pub test_linux : Linux ℕ
test_linux = record {
  has_mm = λ w. true;
  pgd_none = λ t a w. false;
  pgd_bad = λ t a w. false;
  p4d = λ t a w. 16385;
  pud = λ t a w. 16385;
  pmd = λ t a w. 16385;
  pte = λ t a w. 32769;
  lock_mm_and_find_vma = λ a s. (some test_vma, s);
  handle_mm_fault = λ v a f s. (
    record { completed = false; retry = not f.tried; error = none; oom = false; sigbus = false },
    s,
  );
  fault_signal_pending = λ f w. false;
  vma_lookup = λ a w. some test_vma;
  kcalloc = λ n w. (true, w);
}

abbrev pub test_shift : ℕ
test_shift = 14

pub test-Documented : Documented test_linux test_mach test_shift
test-Documented = record {
  signal_retries = λ f w pending. cc;
  find_calls = λ a s. ([], tt, refl);
  fault_calls = λ v a f s. ([], tt, refl);
}

abbrev pub test_memory : Memory
test_memory a = a % 251

abbrev pub test_state : State ℕ
test_state = record {
  space = record { mem = test_memory; world = 0; user = []; kernel = []; io = [] };
  read_locks = 0;
  panicked = false;
  gate_ready = false;
}

pub test-Holds : Holds test_shift 0 test_state
test-Holds = record { locks = refl; valid = record { mappings = tt; mappings_apart = tt } }

pub shift_divides : 2 ^ 64 % 2 ^ test_shift ≡ 0
shift_divides = omega arith
