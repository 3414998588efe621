-- ===== src/Virtio/Layout.antt =====
-- The layouts and numbers that mmio.c takes from the virtio headers of Linux (virtio_ring.h,
-- virtio_blk.h, virtio_ids.h), which follow the virtio specification, and its own `#define`s.
use orlix_system.Prelude.{ℕ, ◌+◌, ◌*◌, Bool, not, bit_and, ◌==◌}
use orlix_system.Memory.{Memory, load}

-- `flags & mask` as a condition.
abbrev pub has : ℕ → ℕ → Bool
has flags mask = not (bit_and flags mask == 0)

-- VRING_DESC_F_NEXT, VRING_DESC_F_WRITE and VRING_DESC_F_INDIRECT
abbrev pub f_next : ℕ
f_next = 1

abbrev pub f_write : ℕ
f_write = 2

abbrev pub f_indirect : ℕ
f_indirect = 4

abbrev pub id_block : ℕ
id_block = 2

abbrev pub id_console : ℕ
id_console = 3

abbrev pub id_rng : ℕ
id_rng = 4

-- VIRTIO_BLK_S_OK, VIRTIO_BLK_S_IOERR and VIRTIO_BLK_S_UNSUPP
abbrev pub s_ok : ℕ
s_ok = 0

abbrev pub s_ioerr : ℕ
s_ioerr = 1

abbrev pub s_unsupp : ℕ
s_unsupp = 2

-- VIRTIO_BLK_T_IN, VIRTIO_BLK_T_OUT, VIRTIO_BLK_T_FLUSH and VIRTIO_BLK_T_GET_ID
abbrev pub t_in : ℕ
t_in = 0

abbrev pub t_out : ℕ
t_out = 1

abbrev pub t_flush : ℕ
t_flush = 4

abbrev pub t_get_id : ℕ
t_get_id = 8

abbrev pub int_vring : ℕ
int_vring = 1

abbrev pub queue_count : ℕ
queue_count = 2

abbrev pub queue_size : ℕ
queue_size = 128

abbrev pub slot_size : ℕ
slot_size = 0x200

abbrev pub sector_size : ℕ
sector_size = 512

abbrev pub poll_ms : ℕ
poll_ms = 10

-- `struct vring_desc`: the address of entry `i` of a table, and its four fields.
abbrev pub desc_bytes : ℕ
desc_bytes = 16

abbrev pub desc_at : ℕ → ℕ → ℕ
desc_at table i = table + 16 * i

abbrev pub desc_addr : Memory → ℕ → ℕ → ℕ
desc_addr m table i = load 8 m (desc_at table i)

abbrev pub desc_len : Memory → ℕ → ℕ → ℕ
desc_len m table i = load 4 m (desc_at table i + 8)

abbrev pub desc_flags : Memory → ℕ → ℕ → ℕ
desc_flags m table i = load 2 m (desc_at table i + 12)

abbrev pub desc_next : Memory → ℕ → ℕ → ℕ
desc_next m table i = load 2 m (desc_at table i + 14)

-- `struct vring_avail` and `struct vring_used`: the size of the header, `idx` and `ring`.
abbrev pub ring_header : ℕ
ring_header = 4

abbrev pub ring_idx : ℕ → ℕ
ring_idx ring = ring + 2

abbrev pub avail_entry : ℕ → ℕ → ℕ
avail_entry avail i = avail + 4 + 2 * i

abbrev pub used_entry : ℕ → ℕ → ℕ
used_entry used i = used + 4 + 8 * i
