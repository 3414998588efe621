-- ===== src/Memory.antt =====
-- Guest memory: a byte for each guest physical address, in the little-endian layout of the
-- machine, as `le16_to_cpu` and its like, `memset` and `memcpy` see it. The pointers of the source
-- are `__va` of these addresses (OrlixKernel/Sources/ports/orlix/overlay/arch/orlix/include/asm/page.h),
-- which is a fixed offset.
pub mod Frame
use orlix_system.Prelude.{ℕ, zero, suc, ◌+◌, ◌*◌, ◌/◌, ◌%◌, ◌==◌, if◌then◌else◌, List, [], ◌∷◌}

abbrev pub Memory : Type 0
Memory = ℕ → ℕ

unfoldable pub poke : Memory → ℕ → ℕ → Memory
poke m p v a = if a == p then v else m a

-- An `n`-byte little-endian number. A cell of memory holds a byte.
unfoldable pub load : ℕ → Memory → ℕ → ℕ
load zero m p = 0
load (suc n) m p = m p % 256 + 256 * load n m (p + 1)

unfoldable pub store : ℕ → Memory → ℕ → ℕ → Memory
unfolding poke
store zero m p v = m
store (suc n) m p v = store n (poke m p (v % 256)) (p + 1) (v / 256)

-- The bytes at an address.
unfoldable pub load_bytes : ℕ → Memory → ℕ → List ℕ
load_bytes zero m p = []
load_bytes (suc n) m p = (m p % 256) ∷ load_bytes n m (p + 1)

unfoldable pub store_bytes : Memory → ℕ → List ℕ → Memory
unfolding poke
store_bytes m p [] = m
store_bytes m p (b ∷ bs) = store_bytes (poke m p b) (p + 1) bs
