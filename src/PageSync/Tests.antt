-- ===== src/PageSync/Tests.antt =====
-- The sample task of PageSync/Sample.antt.
use orlix_system.Prelude.{◌≡◌, ◌↔◌, false, List, [], ◌∷◌}
use orlix_system.PageSync.Linux.{Result}
use orlix_system.PageSync.Steps.{Holds, Faulted}
use orlix_system.PageSync.User.{fault_in_user_page}
use orlix_system.PageSync.Locks.{AsksAgain, fault_in_user_page-Faulted}
use orlix_system.PageSync.Calls.{SyncCall, serve_all, serve_all-Holds}
use orlix_system.PageSync.Sample.{
  test_mach, test-KeepsNull, test_linux, test_shift, test-Documented, test_state, test-Holds,
  shift_divides,
}

-- A fault that is retried once.
fault_in_user_page-Faulted_example :
    (((fault_in_user_page test_linux 14 2 65536 test_state).0 ≡ Result.stuck)
      ↔ AsksAgain test_linux 14 2 test_mach test_shift shift_divides test-KeepsNull test-Documented
          2 false 65536 test_state.space)
    × Faulted test_shift 0 (fault_in_user_page test_linux 14 2 65536 test_state)
fault_in_user_page-Faulted_example =
    fault_in_user_page-Faulted test_linux 14 2 test_mach test_shift shift_divides test-KeepsNull
      test-Documented 65536 0 test_state test-Holds

abbrev test_requests : List SyncCall
test_requests =
    SyncCall.user_mappings (record { pc = 65540; sp = 131072 })
    ∷ SyncCall.fault_window 65540 0
    ∷ SyncCall.refresh_page 65540
    ∷ SyncCall.syscall_gate
    ∷ []

serve_all-Holds_example :
    Holds test_shift 0 (
      serve_all test_linux 14 2 test_mach test_shift 16384 4194304 4198400 test_requests test_state)
serve_all-Holds_example =
    serve_all-Holds test_linux 14 2 test_mach test_shift 16384 4194304 4198400 shift_divides
      test-KeepsNull test-Documented 0 test_requests test_state test-Holds
