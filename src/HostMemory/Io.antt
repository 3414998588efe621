-- ===== src/HostMemory/Io.antt =====
-- Device memory: a block of zeros of the host for each range of physical addresses.
pub mod Window
use orlix_system.Prelude.{
  ℕ, ◌+◌, ◌-◌, Bool, true, false, not, ◌&&◌, ◌||◌, Option, none, some, List, [], ◌∷◌, ltb, leb,
  ◌==◌, if◌then◌else◌, u64, replicate,
}
use orlix_system.Memory.{Memory, store_bytes}
use orlix_system.HostMemory.Space.{IoMapping, Mach, Space, round_page_length}

module _ {W : Type 0} (mach : Mach W) (page_shift : ℕ) where
  -- The address of the block, `none` for a null pointer.
  unfoldable pub ioremap : ℕ → ℕ → Space W → Option ℕ × Space W
  ioremap physical_address length s =
      let rounded = round_page_length page_shift length in
      let (allocated, w) = mach.vm_allocate_anywhere rounded s.world in
      let mapped : Option ℕ × Space W = elim allocated [
        | none ↦ (none, record s { world = w })
        | some address ↦
            let (got, w') = mach.malloc w in
            let (mem, w'') = mach.vm_deallocate address rounded s.mem w' in
            let mapping : IoMapping = record {
              address = address;
              physical_address = physical_address;
              length = rounded;
            } in
            if address == 0
            then (none, record s { world = w })
            else if not got
            then (none, record s { mem = mem; world = w'' })
            else (
              some address,
              record s {
                mem = store_bytes s.mem address (replicate rounded 0);
                world = w';
                io = mapping ∷ s.io;
              },
            )
      ] in
      if physical_address == 0 || rounded == 0 then (none, s) else mapped

  -- The loop of `orlix_host_iounmap`: the mapping that it removes, and the others.
  unfoldable pub take_mapping : ℕ → List IoMapping → Option (IoMapping × List IoMapping)
  take_mapping address [] = none
  take_mapping address (m ∷ rest) =
      let later = take_mapping address rest in
      if m.address == address
      then some (m, rest)
      else elim later [ none ↦ none | some (found, others) ↦ some (found, m ∷ others) ]

  unfoldable pub iounmap : ℕ → Space W → Space W
  iounmap address s =
      let taken : Space W = elim (take_mapping address s.io) [
        | none ↦ s
        | some (m, others) ↦
            let (mem, w) = mach.vm_deallocate m.address m.length s.mem s.world in
            record s { mem = mem; world = w; io = others }
      ] in
      if address == 0 then s else taken

-- `none` stands for the result -1. The sums of pointers do not wrap.
unfoldable pub iomem_find : List IoMapping → ℕ → Option ℕ
iomem_find [] address = none
iomem_find (m ∷ rest) address =
    let later = iomem_find rest address in
    if leb m.address address && ltb address (m.address + m.length)
    then some (u64 (m.physical_address + (address - m.address)))
    else later

unfoldable pub iomem_physical_address : List IoMapping → ℕ → Option ℕ
unfolding iomem_find
iomem_physical_address io address = if address == 0 then none else iomem_find io address
