-- ===== src/PageTable/Tests.antt =====
-- Pages of 16 KB.
use orlix_system.Prelude.{ℕ, ◌+◌, ◌%◌, ◌^◌, ◌≤◌, ◌<◌, ◌≡◌, ◌⊎◌, arith, true, false, []}
use orlix_system.PageTable.{
  Table, pte_pfn, pfn_pte, set_ptes, swp_entry, pte_swp_mkexclusive, pte_swp_clear_exclusive,
}
use orlix_system.PageTable.Fields.{IsSwap, swp_entry-IsSwap, pte_pfn-pfn_pte, set_ptes-IsRun}

abbrev empty_table : Table
empty_table = record { entries = λ k. 0; synced = [] }

swp_entry-IsSwap_example :
    IsSwap (swp_entry 3 70) 3 70 false
    × IsSwap (pte_swp_mkexclusive (swp_entry 3 70)) 3 70 true
    × (pte_swp_clear_exclusive (pte_swp_mkexclusive (swp_entry 3 70)) ≡ swp_entry 3 70)
swp_entry-IsSwap_example = swp_entry-IsSwap 3 70 (omega arith) (omega arith)

pte_pfn-pfn_pte_example : (pte_pfn 14 (pfn_pte 14 700 27) ≡ 700) × (pfn_pte 14 700 27 % 2 ^ 14 ≡ 27)
pte_pfn-pfn_pte_example = pte_pfn-pfn_pte 14 700 27 (omega arith) (omega arith)

set_ptes-IsRun_example :
    let t' = set_ptes 14 4 true 0x0000700000000000 5 (pfn_pte 14 700 27) empty_table in
    ((k : ℕ) → k < 4 → t'.entries (5 + k) ≡ pfn_pte 14 (700 + k) 27)
    × ((a : ℕ) → (a < 5) ⊎ (5 + 4 ≤ a) → t'.entries a ≡ 0)
set_ptes-IsRun_example =
    set_ptes-IsRun 14 4 true 0x0000700000000000 5 700 27 empty_table (omega arith) (omega arith)
      (omega arith)
