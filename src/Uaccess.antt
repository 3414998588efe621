-- ===== src/Uaccess.antt =====
-- OrlixKernel/Sources/ports/orlix/overlay/arch/orlix/mm/uaccess.c: copies between kernel and user
-- memory, page by page, through the task's page tables. Memory is indexed by kernel virtual address.
pub mod Pages
pub mod Copy
mod Tests
use orlix_system.Prelude.{
  ℕ, zero, suc, ◌+◌, ◌-◌, ◌*◌, ◌/◌, ◌%◌, ◌^◌, Bool, true, false, not, ◌&&◌, ◌||◌, Option, none,
  some, ◌==◌, if◌then◌else◌, bit_and, u64, min, List, replicate,
}
use orlix_system.Memory.{Memory, load_bytes, store_bytes}

-- What uaccess.c calls: of Linux the page table walk (the entry, or `none` where a level is missing
-- or bad), `fixup_user_fault` (true for success) and `faulthandler_disabled`; `sync_page` is
-- `orlix_refresh_current_user_mapping_page_from_kernel` (true for success). `W` is their state;
-- a fault may change memory.
pub record Kernel (W : Type 0) : Type 0 where
  pub has_mm : W → Bool
  pub pte : W → ℕ → Option ℕ
  pub fixup_user_fault : ℕ → Bool → Memory → W → Bool × Memory × W
  pub faulthandler_disabled : W → Bool
  pub sync_page : ℕ → ℕ → W → Bool × W

pub record State (W : Type 0) : Type 0 where
  pub mem : Memory
  pub world : W

abbrev pub page_offset : ℕ
page_offset = 0xffff800000000000

-- `__va` of page.h.
abbrev pub va : ℕ → ℕ
va a = u64 (a + page_offset)

-- _PAGE_PRESENT, _PAGE_WRITE and _PAGE_USER
abbrev pub page_present : ℕ
page_present = 1

abbrev pub page_write : ℕ
page_write = 2

abbrev pub page_user : ℕ
page_user = 4

abbrev pub has_bit : ℕ → ℕ → Bool
has_bit entry flag = not (bit_and entry flag == 0)

-- `page_shift` is CONFIG_PAGE_SHIFT.
module _ {W : Type 0} (kernel : Kernel W) (page_shift : ℕ) where
  abbrev pub page_size : ℕ
  page_size = 2 ^ page_shift

  -- `__va(PFN_PHYS(pte_pfn(entry))) + offset_in_page(address)`
  abbrev pub page_address : ℕ → ℕ → ℕ
  page_address entry address = va (entry / page_size * page_size) + address % page_size

  unfoldable pub uaccess_resolve : ℕ → Bool → W → Option ℕ
  uaccess_resolve address write w = elim (kernel.pte w address) [
    | none ↦ none
    | some entry ↦
        if not (has_bit entry page_present) || not (has_bit entry page_user)
        then none
        else if write && not (has_bit entry page_write)
        then none
        else some (page_address entry address)
  ]

  unfoldable pub uaccess_fault_in : ℕ → Bool → State W → Bool × State W
  uaccess_fault_in address write s =
      if kernel.faulthandler_disabled s.world
      then (false, s)
      else let (good, m, w) = kernel.fixup_user_fault address write s.mem s.world in
        (good, record { mem = m; world = w })

  -- The address by the page tables, after a fault if the first walk fails.
  unfoldable pub resolve_or_fault : ℕ → Bool → State W → Option ℕ × State W
  resolve_or_fault address write s = elim (uaccess_resolve address write s.world) [
    | some k ↦ (some k, s)
    | none ↦
        let (good, s') = uaccess_fault_in address write s in
        ((if good then uaccess_resolve address write s'.world else none), s')
  ]

  abbrev pub chunk_of : ℕ → ℕ → ℕ
  chunk_of address remaining = min remaining (page_size - address % page_size)

  -- The loops return what remains. Each round copies at least a byte, so that `n` rounds are
  -- enough; `none` means that the fuel ran out.
  unfoldable pub copy_from_loop : ℕ → ℕ → ℕ → ℕ → State W → Option (ℕ × State W)
  copy_from_loop zero dst from remaining s = if remaining == 0 then some (0, s) else none
  copy_from_loop (suc fuel) dst from remaining s =
      let chunk = chunk_of from remaining in
      let (found, s') = resolve_or_fault from false s in
      let next : Option (ℕ × State W) = elim found [
        | none ↦ some (remaining, s')
        | some src ↦
            copy_from_loop fuel (dst + chunk) (from + chunk) (remaining - chunk)
              (record s' { mem = store_bytes s'.mem dst (load_bytes chunk s'.mem src) })
      ] in
      if remaining == 0 then some (0, s) else next

  unfoldable pub copy_from_user : ℕ → ℕ → ℕ → ℕ → State W → Option (ℕ × State W)
  copy_from_user fuel to from n s =
      if kernel.has_mm s.world then copy_from_loop fuel to from n s else some (n, s)

  unfoldable pub copy_to_loop : ℕ → ℕ → ℕ → ℕ → State W → Option (ℕ × State W)
  copy_to_loop zero to src remaining s = if remaining == 0 then some (0, s) else none
  copy_to_loop (suc fuel) to src remaining s =
      let chunk = chunk_of to remaining in
      let (found, s') = resolve_or_fault to true s in
      let next : Option (ℕ × State W) = elim found [
        | none ↦ some (remaining, s')
        | some dst ↦
            let m = store_bytes s'.mem dst (load_bytes chunk s'.mem src) in
            let (good, w) = kernel.sync_page to dst s'.world in
            let s'' : State W = record { mem = m; world = w } in
            elim good [
              | false ↦ some (remaining, s'')
              | true ↦ copy_to_loop fuel (to + chunk) (src + chunk) (remaining - chunk) s''
            ]
      ] in
      if remaining == 0 then some (0, s) else next

  unfoldable pub copy_to_user : ℕ → ℕ → ℕ → ℕ → State W → Option (ℕ × State W)
  copy_to_user fuel to src n s =
      if kernel.has_mm s.world then copy_to_loop fuel to src n s else some (n, s)

  -- `zero_page` is the address of the page of zeros.
  unfoldable pub clear_loop : ℕ → ℕ → ℕ → ℕ → State W → Option (ℕ × State W)
  clear_loop zero zero_page address remaining s = if remaining == 0 then some (0, s) else none
  clear_loop (suc fuel) zero_page address remaining s =
      let chunk = chunk_of address remaining in
      let next : Option (ℕ × State W) = elim (copy_to_user chunk address zero_page chunk s) [
        | none ↦ none
        | some (left, s') ↦ elim (left == 0) [
          | false ↦ some (remaining - (chunk - left), s')
          | true ↦ clear_loop fuel zero_page (address + chunk) (remaining - chunk) s'
        ]
      ] in
      if remaining == 0 then some (0, s) else next

  unfoldable pub clear_user : ℕ → ℕ → ℕ → ℕ → State W → Option (ℕ × State W)
  clear_user fuel zero_page to n s = clear_loop fuel zero_page to n s
