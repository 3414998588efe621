-- ===== src/Virtio/Chain/Resolve.antt =====
-- The chain that `orlix_virtio_mmio_resolve_desc_chain` finds.
use orlix_system.Prelude.{ℕ, ◌+◌, ◌*◌, ◌≤◌, ◌<◌, ◌≡◌, ◌⊎◌, true, false, some, arith}
use orlix_system.Memory.{Memory}
use orlix_system.Virtio.Layout.{has, f_indirect, desc_addr, desc_len, desc_flags}
use orlix_system.Virtio.Chain.{DescChain, guest_ptr, resolve_desc_chain, ulong_max}

-- The chain is the table itself, or the indirect table of the head: whole descriptors at an address
-- that does not wrap.
pub record IsResolved (m : Memory) (desc desc_count head : ℕ) (chain : DescChain) : Type 0 where
  pub head_in_table : head < desc_count
  pub start_in_chain : chain.head < chain.count
  pub kinds :
      ((has (desc_flags m desc head) f_indirect ≡ false)
        × (chain.desc ≡ desc)
        × (chain.head ≡ head)
        × (chain.count ≡ desc_count))
      ⊎ ((has (desc_flags m desc head) f_indirect ≡ true)
          × (chain.desc ≡ desc_addr m desc head)
          × (0 < chain.desc)
          × (chain.head ≡ 0)
          × (chain.count * 16 ≡ desc_len m desc head)
          × (chain.desc + chain.count * 16 ≤ ulong_max))

-- Where a head resolves to a chain, it lies in the table, and the chain starts inside its own table:
-- the queue's table at the head, or, for an indirect head, the start of the buffer of the head,
-- which holds whole descriptors and ends at an address of 64 bits.
pub resolve_desc_chain-IsResolved :
    (m : Memory) (desc desc_count head : ℕ) (chain : DescChain)
    → resolve_desc_chain m desc desc_count head ≡ some chain
    → IsResolved m desc desc_count head chain
unfolding resolve_desc_chain guest_ptr
resolve_desc_chain-IsResolved m desc desc_count head chain e = record {
  head_in_table = ground (arith, e);
  start_in_chain = ground (arith, e);
  kinds = ground (arith, e);
}
