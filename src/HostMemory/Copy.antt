-- ===== src/HostMemory/Copy.antt =====
-- The copies between a mapping and the pages that it stands for: back to the sources, out of a range
-- that is to be replaced, and the instructions that a copied page must not hold.
pub mod Kept
pub mod Back
use orlix_system.Prelude.{
  ℕ, zero, suc, ◌+◌, ◌-◌, ◌*◌, ◌/◌, Bool, true, false, not, ◌&&◌, ◌||◌, List, [], ◌∷◌, ltb, ◌==◌,
  if◌then◌else◌, bit_and, bit_or,
}
use orlix_system.Memory.{Memory, load, store, load_bytes, store_bytes}
use orlix_system.HostMemory.Space.{Segment, overlaps, address_max}

-- `memcpy`
abbrev pub memcpy : ℕ → ℕ → ℕ → Memory → Memory
memcpy to from n m = store_bytes m to (load_bytes n m from)

-- The loop of `OrlixHostKernelCopyBackMapping` and of `OrlixHostUserCopyBackMapping`.
unfoldable pub copy_back : List Segment → Memory → Memory
copy_back [] m = m
copy_back (s ∷ rest) m =
    copy_back rest
      (if s.source == 0 || s.length == 0 then m else memcpy s.source s.target s.length m)

-- The loop of the two functions that remove the segments in a range: the segments that stay, and
-- memory. `copies s` says whether a segment that goes is copied back.
unfoldable pub remove_segments :
    (Segment → Bool) → ℕ → ℕ → List Segment → Memory → List Segment × Memory
remove_segments copies start end [] m = ([], m)
remove_segments copies start end (s ∷ rest) m =
    let m' = if copies s then memcpy s.source s.target s.length m else m in
    let removed = remove_segments copies start end rest m' in
    let others = remove_segments copies start end rest m in
    if overlaps start end s.target s.length then removed else (s ∷ others.0, others.1)

-- The guard before it.
unfoldable pub remove_segments_in_range :
    (Segment → Bool) → ℕ → ℕ → List Segment → Memory → List Segment × Memory
unfolding remove_segments
remove_segments_in_range copies target length segments m =
    if target == 0 || length == 0 || ltb (address_max - length) target
    then (segments, m)
    else remove_segments copies target (target + length) segments m

-- ORLIX_HOST_AARCH64_SVC0_INSN and its like in host_trap.h
abbrev pub svc0 : ℕ
svc0 = 0xd4000001

abbrev pub syscall_brk : ℕ
syscall_brk = 0xd4209e80

abbrev pub msr_tpidr_el0 : ℕ
msr_tpidr_el0 = 0xd51bd040

abbrev pub msr_tpidr_el0_mask : ℕ
msr_tpidr_el0_mask = 0xffffffe0

abbrev pub tls_write_brk_base : ℕ
tls_write_brk_base = 0xd4209ec0

-- One instruction of `OrlixHostTranslateLinuxSyscalls`.
unfoldable pub translate : ℕ → ℕ
translate i =
    if i == svc0
    then syscall_brk
    else if bit_and i msr_tpidr_el0_mask == msr_tpidr_el0
    then bit_or tls_write_brk_base (bit_and i 0x1f)
    else i

-- Its loop over `count` instructions from `page` on.
unfoldable pub translate_loop : ℕ → ℕ → Memory → Memory
translate_loop zero page m = m
translate_loop (suc count) page m =
    translate_loop count (page + 4) (store 4 m page (translate (load 4 m page)))

unfoldable pub translate_linux_syscalls : ℕ → ℕ → Memory → Memory
translate_linux_syscalls page length m = translate_loop (length / 4) page m
