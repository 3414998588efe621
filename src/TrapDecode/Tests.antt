-- ===== src/TrapDecode/Tests.antt =====
-- A program that reads TLS and then uses it, and a register that a fault rebases.
use orlix_system.Prelude.{ℕ, ◌<◌, ◌≡◌, ◌↔◌, true, false, some, List, [], ◌∷◌, arith}
use orlix_system.TrapDecode.{
  valid_user_tls, mrs_tpidr_el0_destination, integer_instruction_writes_register,
  recent_tpidr_write_matches_base, search_instructions, rebase_register_from_host_tls,
}
use orlix_system.TrapDecode.Rebase.{
  IsUserTls, IsRebased, valid_user_tls-IsUserTls, rebase-IsRebased,
}
use orlix_system.TrapDecode.Search.{mrs_tpidr_el0, HasSource, mrs_destination_iff, search-HasSource}

-- MRS X8, TPIDR_EL0; LDR X0, [X8]
abbrev test_program : List ℕ
test_program = 0xd53bd048 ∷ 0xf9400100 ∷ []

search-HasSource_example :
    (recent_tpidr_write_matches_base test_program 2 1 8 ≡ true)
    ↔ ((k : ℕ) × HasSource test_program 1 8 1 search_instructions k)
search-HasSource_example = search-HasSource test_program 1 8 2 (omega arith) (omega arith)

mrs_destination_iff_example :
    ((mrs_tpidr_el0_destination 0xd53bd048 ≡ some 8) ↔ ((8 < 32) × (0xd53bd048 ≡ mrs_tpidr_el0 8)))
    × (8 < 32 → (q : ℕ) → integer_instruction_writes_register (mrs_tpidr_el0 8) q ≡ false)
mrs_destination_iff_example = mrs_destination_iff 0xd53bd048 8 (omega arith)

rebase-IsRebased_example :
    (rebase_register_from_host_tls 0x10000 0x60000 0x10010 0x50000 0x70000 ≡ some 0x60010)
    ↔ IsRebased 0x10000 0x60000 0x10010 0x50000 0x70000 0x60010
rebase-IsRebased_example =
    rebase-IsRebased 0x10000 0x60000 0x10010 0x50000 0x70000 0x60010 (omega arith)

valid_user_tls-IsUserTls_example :
    (valid_user_tls 0x50000 0x70000 0x60008 ≡ true) ↔ IsUserTls 0x50000 0x70000 0x60008
valid_user_tls-IsUserTls_example = valid_user_tls-IsUserTls 0x50000 0x70000 0x60008
