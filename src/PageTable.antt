-- ===== src/PageTable.antt =====
-- OrlixKernel/Sources/ports/orlix/overlay/arch/orlix/include/asm/pgtable.h: the bit fields of page
-- table entries and of swap entries, and `set_ptes` in the hosted build. An entry is a 64-bit word.
pub mod Fields
mod Tests
use orlix_system.Prelude.{
  ℕ, zero, suc, ◌+◌, ◌-◌, ◌*◌, ◌/◌, ◌^◌, Bool, not, ◌&&◌, List, [], ◌∷◌, ltb, leb, ◌==◌,
  if◌then◌else◌, bit_and, bit_or, u64,
}

-- The flags _PAGE_PRESENT, _PAGE_PROT_NONE and _PAGE_SWP_EXCLUSIVE.
abbrev pub flag_present : ℕ
flag_present = 1

abbrev pub flag_prot_none : ℕ
flag_prot_none = 64

abbrev pub flag_swp_exclusive : ℕ
flag_swp_exclusive = 128

unfoldable pub pte_present : ℕ → Bool
pte_present pte = not (bit_and pte (flag_present + flag_prot_none) == 0)

abbrev pub flag_write : ℕ
flag_write = 2

abbrev pub flag_exec : ℕ
flag_exec = 32

unfoldable pub pte_write : ℕ → Bool
pte_write pte = not (bit_and pte flag_write == 0)

-- _PAGE_TABLE: present, accessed and dirty.
abbrev pub page_table : ℕ
page_table = 25

-- `p4d_none`, `pud_none` and `pmd_none`
unfoldable pub table_none : ℕ → Bool
table_none entry = entry == 0

-- `__SWP_TYPE_SHIFT`, `__SWP_TYPE_BITS` and `__SWP_OFFSET_SHIFT`
abbrev pub swp_type_shift : ℕ
swp_type_shift = 8

abbrev pub swp_type_bits : ℕ
swp_type_bits = 5

abbrev pub swp_offset_shift : ℕ
swp_offset_shift = swp_type_shift + swp_type_bits

unfoldable pub swp_type : ℕ → ℕ
swp_type entry = bit_and (entry / 2 ^ swp_type_shift) (2 ^ swp_type_bits - 1)

unfoldable pub swp_offset : ℕ → ℕ
swp_offset entry = entry / 2 ^ swp_offset_shift

unfoldable pub swp_entry : ℕ → ℕ → ℕ
swp_entry type offset =
    bit_or (bit_and type (2 ^ swp_type_bits - 1) * 2 ^ swp_type_shift)
      (u64 (offset * 2 ^ swp_offset_shift))

unfoldable pub pte_swp_exclusive : ℕ → Bool
pte_swp_exclusive pte = not (bit_and pte flag_swp_exclusive == 0)

unfoldable pub pte_swp_mkexclusive : ℕ → ℕ
pte_swp_mkexclusive pte = bit_or pte flag_swp_exclusive

unfoldable pub pte_swp_clear_exclusive : ℕ → ℕ
pte_swp_clear_exclusive pte = bit_and pte (2 ^ 64 - 1 - flag_swp_exclusive)

-- Page table entries by their index, and the addresses that `orlix_sync_hosted_kernel_pte` has
-- been called with, the last one first.
pub record Table : Type 0 where
  pub entries : ℕ → ℕ
  pub synced : List ℕ

abbrev pub vmalloc_start : ℕ
vmalloc_start = 0x0000700000000000

abbrev pub vmalloc_end : ℕ
vmalloc_end = 0x0000780000000000

abbrev pub set_pte : ℕ → ℕ → Table → Table
set_pte i pte t = record t { entries = λ k. if k == i then pte else t.entries k }

-- A round of the loop; `kernel` says that `mm` is `init_mm`.
abbrev pub set_one : Bool → ℕ → ℕ → ℕ → Table → Table
set_one kernel address i pte t =
    let set = set_pte i pte t in
    if kernel && leb vmalloc_start address && ltb address vmalloc_end && pte_present pte
    then record set { synced = address ∷ set.synced }
    else set

-- PFN_PTE_SHIFT is `page_shift`, the binary logarithm of the page size.
module _ (page_shift : ℕ) where
  unfoldable pub pte_pfn : ℕ → ℕ
  pte_pfn pte = pte / 2 ^ page_shift

  -- `p4d_bad`, `pud_bad` and `pmd_bad`
  unfoldable pub table_bad : ℕ → Bool
  table_bad entry = not (bit_and entry (2 ^ page_shift - 1) == page_table)

  unfoldable pub pfn_pte : ℕ → ℕ → ℕ
  pfn_pte pfn prot = bit_or (u64 (pfn * 2 ^ page_shift)) prot

  -- `set_ptes` on the entries from `i` on, for at least one.
  unfoldable pub set_ptes : ℕ → Bool → ℕ → ℕ → ℕ → Table → Table
  unfolding pte_present
  set_ptes zero kernel address i pte t = t
  set_ptes (suc nr) kernel address i pte t =
      set_ptes nr kernel (u64 (address + 2 ^ page_shift)) (i + 1) (u64 (pte + 2 ^ page_shift))
        (set_one kernel address i pte t)
