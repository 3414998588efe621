-- ===== src/HostMemory/Tests.antt =====
-- A host whose calls succeed, except for the page at 0, and an empty list of mappings.
use orlix_system.Prelude.{
  ℕ, ◌+◌, ◌%◌, ◌^◌, ◌<◌, ◌≡◌, ◌⊎◌, refl, true, false, not, none, some, List, [], ◌∷◌, ◌==◌, arith,
  inl, All,
}
use orlix_system.Memory.{Memory}
use orlix_system.HostMemory.Space.{UserMapping, Mach, Space, page_start, page_end}
use orlix_system.HostMemory.Invariant.{IsValid}
use orlix_system.HostMemory.Copy.Back.{IsWritten, Outside}
use orlix_system.HostMemory.User.{
  user_map_page, user_refresh_page, user_mapping_matches, protection_of,
  user_sync_writable_mappings, map_shadow_user_pages, find_or_create, user_find_mapping,
  user_create_mapping, allocate_mapping, fill_mapping,
}
use orlix_system.HostMemory.User.Valid.{KeepsNull}
use orlix_system.HostMemory.User.Page.{user_map_page_twice, user_refresh_page-IsMapped}
use orlix_system.HostMemory.User.Calls.{Call, run, run-IsValid}
use orlix_system.HostMemory.User.Sync.{sync-IsWritten, writable_segments}
use orlix_system.HostMemory.Kernel.{
  kernel_map_page, kernel_requires_shadow_mapping, map_shadow_kernel_page, kernel_find_or_create,
  kernel_find_shadow_mapping, kernel_find_from, kernel_create_shadow_mapping, allocate_shadow,
  fill_shadow,
}
use orlix_system.HostMemory.Kernel.Shadow.{kernel_map_page-IsCopy}
use orlix_system.HostMemory.Io.{ioremap}
use orlix_system.HostMemory.Io.Window.{IsWindow, ioremap-IsWindow}

abbrev test_mach : Mach ℕ
test_mach = record {
  vm_allocate = λ a n m w. (not (a == 0), m, w);
  vm_deallocate = λ a n m w. (m, w);
  vm_remap = λ a n f m w. (true, m, w);
  vm_allocate_anywhere = λ n w. (some 1048576, w);
  vm_protect = λ a n p w. (true, w);
  malloc = λ w. (true, w);
}

test-KeepsNull : KeepsNull test_mach
test-KeepsNull n m w = refl

abbrev test_memory : Memory
test_memory a = a % 251

abbrev empty_space : Space ℕ
empty_space = record { mem = test_memory; world = 0; user = []; kernel = []; io = [] }

abbrev test_shift : ℕ
test_shift = 14

empty-IsValid : IsValid test_shift empty_space.user
empty-IsValid = record { mappings = tt; mappings_apart = tt }

shift_divides : 2 ^ 64 % 2 ^ test_shift ≡ 0
shift_divides = omega arith

abbrev test_calls : List Call
test_calls =
    Call.map_page 65536 131072 16384 true false
    ∷ Call.refresh_page 65536 131072 16384 true false
    ∷ Call.unmap_pages 65536 16384
    ∷ []

run-IsValid_example : IsValid test_shift (run test_mach test_shift test_calls empty_space).user
run-IsValid_example =
    run-IsValid test_mach test_shift shift_divides test-KeepsNull test_calls empty_space
      (tt, (tt, (tt, tt))) empty-IsValid

refresh_done :
    (user_refresh_page test_mach test_shift 65536 131072 4 true false empty_space).0 ≡ true
unfolding user_refresh_page map_shadow_user_pages find_or_create user_find_mapping
    user_create_mapping page_end page_start allocate_mapping fill_mapping
refresh_done = refl

user_refresh_page-IsMapped_example :
    let t = (user_refresh_page test_mach test_shift 65536 131072 4 true false empty_space).1 in
    ((j : ℕ) → j < 4 → t.mem (65536 + j) ≡ t.mem (131072 + j) % 256)
    × (user_mapping_matches t.user 65536 131072 4 (protection_of true false) true ≡ true)
user_refresh_page-IsMapped_example =
    user_refresh_page-IsMapped test_mach test_shift shift_divides test-KeepsNull 65536 131072 4 true
      empty_space empty-IsValid refresh_done (inl (omega arith))

map_done : (user_map_page test_mach test_shift 65536 131072 4 true false empty_space).0 ≡ true
unfolding user_map_page user_mapping_matches map_shadow_user_pages find_or_create user_find_mapping
    user_create_mapping page_end page_start allocate_mapping fill_mapping
map_done = refl

user_map_page_twice_example :
    let t = (user_map_page test_mach test_shift 65536 131072 4 true false empty_space).1 in
    user_map_page test_mach test_shift 65536 131072 4 true false t ≡ (true, t)
user_map_page_twice_example =
    user_map_page_twice test_mach test_shift shift_divides test-KeepsNull 65536 131072 4 true
      empty_space empty-IsValid map_done

-- A writable mapping of two pages, which are copies of pages at 1000 and 2000.
abbrev two_pages : UserMapping
two_pages = record {
  target = 65536;
  length = 16384;
  protection = 3;
  writable = true;
  segments =
      record { target = 65536; source = 1000; length = 8 }
      ∷ record { target = 65600; source = 2000; length = 8 }
      ∷ [];
}

abbrev two_page_space : Space ℕ
two_page_space = record {
  mem = test_memory;
  world = 0;
  user = two_pages ∷ [];
  kernel = [];
  io = [];
}

sync-IsWritten_example :
    All
      (IsWritten test_memory (user_sync_writable_mappings two_page_space).mem)
      (writable_segments two_page_space.user)
    × ((a : ℕ)
        → All (Outside a) (writable_segments two_page_space.user)
        → (user_sync_writable_mappings two_page_space).mem a ≡ test_memory a)
sync-IsWritten_example =
    sync-IsWritten two_page_space
      (((inl (omega arith), inl (omega arith), inl (omega arith)), tt), (tt, tt))

ioremap-IsWindow_example :
    ((a : ℕ) × ((ioremap test_mach test_shift 4096 100 empty_space).0 ≡ some a)
      × IsWindow test_mach test_shift 4096 100 a empty_space
          (ioremap test_mach test_shift 4096 100 empty_space).1)
    ⊎ (((ioremap test_mach test_shift 4096 100 empty_space).0 ≡ none)
        × ((ioremap test_mach test_shift 4096 100 empty_space).1.io ≡ []))
ioremap-IsWindow_example = ioremap-IsWindow test_mach test_shift 4096 100 empty_space

shadow_needed : kernel_requires_shadow_mapping test_mach test_shift 65537 131072 4 ≡ true
unfolding kernel_requires_shadow_mapping
shadow_needed = refl

kernel_done : (kernel_map_page test_mach test_shift 65537 131072 4 empty_space).0 ≡ true
unfolding kernel_map_page kernel_requires_shadow_mapping map_shadow_kernel_page
    kernel_find_or_create kernel_find_shadow_mapping page_end page_start kernel_find_from
    kernel_create_shadow_mapping allocate_shadow fill_shadow
kernel_done = refl

kernel_map_page-IsCopy_example :
    (kernel_map_page test_mach test_shift 65537 131072 4 empty_space).1.mem (65537 + 3)
    ≡ (kernel_map_page test_mach test_shift 65537 131072 4 empty_space).1.mem (131072 + 3) % 256
kernel_map_page-IsCopy_example =
    kernel_map_page-IsCopy test_mach test_shift 65537 131072 4 empty_space shadow_needed kernel_done
      (inl (omega arith)) 3 (omega arith)
