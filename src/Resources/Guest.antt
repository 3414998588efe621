-- ===== src/Resources/Guest.antt =====
-- The block devices as the virtio transport sees them, in
-- OrlixKernel/Sources/ports/orlix/overlay/drivers/orlix/virtio/mmio.c: what a guest writes to a
-- sector, it reads back.
use orlix_system.Prelude.{
  ℕ, zero, suc, ◌+◌, ◌%◌, ◌^◌, ◌<◌, ◌≡◌, ap, ◌∙◌, subst, true, some, List, arith, All, Bool-cases,
  inl, inr,
}
use orlix_system.Memory.{Memory, load_bytes, store_bytes}
use orlix_system.Memory.Frame.{length-load_bytes, copied_byte}
use orlix_system.Virtio.Layout.{s_ok, t_in, t_out, f_write}
use orlix_system.Virtio.Device.{Host, Guest, Slot}
use orlix_system.Virtio.Block.{transfer}
use orlix_system.Resources.Files.{FilePath, Files, Stream, Documented}
use orlix_system.Resources.Blocks.{
  Block, selected, block_sector_size, block_capacity, block_read, block_write, block_flush,
}
use orlix_system.Resources.Blocks.Transfer.{IsByte, block_read-block_write}

-- A host of the virtio transport whose block devices are those of resources.c.
abbrev pub with_blocks : {F W : Type 0} → Files F W → List Block → Host W → Host W
with_blocks files blocks host = record host {
  block_capacity = λ w device. block_capacity blocks device;
  block_read = block_read files blocks;
  block_write = block_write files blocks;
  block_flush = block_flush files blocks;
}

load_bytes-IsByte : (n : ℕ) (m : Memory) (p : ℕ) → All IsByte (load_bytes n m p)
unfolding load_bytes
load_bytes-IsByte zero m p = tt
load_bytes-IsByte (suc n) m p = (omega arith, load_bytes-IsByte n m (p + 1))

module _ {F W : Type 0} (files : Files F W) (contents : W → FilePath → Memory)
    (stream : W → F → Stream) (documented : Documented files contents stream) (blocks : List Block)
    (host : Host W) (slot : Slot) where
  -- Where the C library does what it documents, and with a slot whose device is selected and has a
  -- size of whole sectors below 2 ^ 63: if a guest writes `n`
  -- bytes at `from` to a sector and then reads `n` bytes from that sector to `to`, and both
  -- transfers have the status VIRTIO_BLK_S_OK, then memory at `to` holds the bytes that were at
  -- `from`.
  pub transfer_round_trip :
      (sector from to n written : ℕ) (g : Guest W) (b : Block)
      → selected blocks slot.host_block_device ≡ some b
      → b.bytes % block_sector_size ≡ 0
      → b.bytes < 2 ^ 63
      → let sent = transfer (with_blocks files blocks host) slot t_out sector from n 0 written g in
        sent.0 ≡ s_ok
        → let received =
            transfer (with_blocks files blocks host) slot t_in sector to n f_write written sent.2 in
          received.0 ≡ s_ok → (j : ℕ) → j < n → received.2.mem (to + j) ≡ g.mem (from + j) % 256
  unfolding transfer
  transfer_round_trip sector from to n written g b found size word =
      let bytes = load_bytes n g.mem from in
      let w' = (block_write files blocks g.world slot.host_block_device sector bytes).1 in
      let read_back =
        subst
          (λ (k : ℕ).
            (block_write files blocks g.world slot.host_block_device sector bytes).0 ≡ true
            → (block_read files blocks w' slot.host_block_device sector k).0 ≡ true
            → (block_read files blocks w' slot.host_block_device sector k).1 ≡ bytes)
          (length-load_bytes n g.mem from)
          (block_read-block_write files contents stream documented blocks slot.host_block_device
            sector bytes g.world b found size word (load_bytes-IsByte n g.mem from)) in
      elim (Bool-cases (block_write files blocks g.world slot.host_block_device sector bytes).0) [
        | inr bad ↦ rw (transfer, bad) (λ e. absurd (ground (arith, e)))
        | inl wrote ↦
            elim (Bool-cases (block_read files blocks w' slot.host_block_device sector n).0) [
              | inr bad ↦ rw (transfer, wrote, bad) (λ e e'. absurd (ground (arith, e')))
              | inl read ↦
                  rw (transfer, wrote, read)
                    (λ e e' j low.
                      ap (λ (bs : List ℕ). store_bytes g.mem to bs (to + j)) (read_back wrote read)
                      ∙ copied_byte n g.mem g.mem to from j low)
            ]
      ]
