-- ===== src/Uaccess/Tests.antt =====
-- A user page at 0x1000 whose frame is 5, with nothing mapped above it.
use orlix_system.Prelude.{
  ℕ, ◌+◌, ◌*◌, ◌/◌, ◌^◌, ◌≡◌, refl, ap, true, false, Option, none, some, arith, ◌==◌, if◌then◌else◌,
}
use orlix_system.Uaccess.{Kernel, State, uaccess_resolve, copy_from_user}
use orlix_system.Uaccess.Copy.{ByPage, Apart, IsCopied, copy_from_user-IsCopied}

abbrev entry_of : ℕ → Option ℕ
entry_of page = if page == 1 then some (5 * 4096 + 7) else none

abbrev test_kernel : Kernel ℕ
test_kernel = record {
  has_mm = λ w. true;
  pte = λ w a. entry_of (a / 2 ^ 12);
  fixup_user_fault = λ a write m w. (false, m, w);
  faulthandler_disabled = λ w. true;
  sync_page = λ a k w. (true, w);
}

abbrev test_state : State ℕ
test_state = record { mem = λ a. a; world = 0 }

test_by_page : ByPage test_kernel 12
test_by_page w a b e = ap entry_of e

-- The buffer at 100 is below every kernel address of a page.
test-Apart : Apart test_kernel 12 test_by_page 0 100 0x1ffe 4
unfolding uaccess_resolve
test-Apart j k h e = ground (arith, e)

copy_from_user-IsCopied_example :
    (r : ℕ) × (s' : State ℕ) × (copy_from_user test_kernel 12 4 100 0x1ffe 4 test_state
      ≡ some (r, s'))
    × IsCopied test_kernel 12 test_by_page 100 0x1ffe 4 r test_state s'
copy_from_user-IsCopied_example =
    copy_from_user-IsCopied test_kernel 12 test_by_page 4 100 0x1ffe 4 test_state (omega arith) refl
      refl test-Apart
