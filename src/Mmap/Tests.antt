-- ===== src/Mmap/Tests.antt =====
-- An address space with one area, and a search that answers with a fixed address.
use orlix_system.Prelude.{ℕ, ◌+◌, ◌≤◌, refl, inl, false, none, arith}
use orlix_system.Mmap.{
  AddressSpace, Request, enomem, get_unmapped_area, get_unmapped_area_topdown, task_unmapped_base,
}
use orlix_system.Mmap.Hint.{
  Searches, IsPlaced, get_unmapped_area-IsPlaced, get_unmapped_area_topdown-IsPlaced,
}

abbrev test_end : ℕ
test_end = task_unmapped_base + 0x100000

abbrev test_space : AddressSpace
test_space = record {
  host_page_size = 0x4000;
  mmap_base = task_unmapped_base;
  mmap_end = λ addr length flags. test_end;
  topdown_base = λ addr base. test_end;
  next_start_gap = λ addr. none;
  prev_end_gap = λ addr. none;
  vm_unmapped_area = λ info. enomem;
}

abbrev test_request : Request
test_request = record {
  file = false;
  addr = task_unmapped_base + 0x2001;
  length = 0x3000;
  flags = 0;
  vm_flags = 0;
}

test_searches : Searches test_space
test_searches info = inl (omega arith)

get_unmapped_area-IsPlaced_example :
    IsPlaced test_space test_end 0x3000 (get_unmapped_area test_space 0x1000 test_request)
get_unmapped_area-IsPlaced_example =
    get_unmapped_area-IsPlaced test_space 0x1000 test_end (omega arith) (omega arith) test_request
      refl test_searches

get_unmapped_area_topdown-IsPlaced_example :
    IsPlaced test_space test_end 0x3000 (get_unmapped_area_topdown test_space 0x1000 test_request)
get_unmapped_area_topdown-IsPlaced_example =
    get_unmapped_area_topdown-IsPlaced test_space 0x1000 test_end (omega arith) (omega arith)
      test_request refl test_topdown test_searches
  where
    test_topdown : (addr : ℕ) → test_space.topdown_base addr test_space.mmap_base ≤ test_end
    test_topdown addr = omega arith
