-- ===== src/Virtio/Block.antt =====
-- `orlix_virtio_mmio_process_block_data` and `orlix_virtio_mmio_process_block_request`.
use orlix_system.Prelude.{
  ℕ, zero, suc, ◌+◌, ◌/◌, Bool, true, ◌||◌, not, Option, none, some, ltb, leb, ◌==◌, if◌then◌else◌,
  u32, u64, replicate,
}
use orlix_system.Memory.{load, load_bytes, poke, store_bytes}
use orlix_system.Virtio.Layout.{
  has, f_next, f_write, f_indirect, s_ok, s_ioerr, s_unsupp, t_in, t_out, t_flush, t_get_id,
  sector_size, desc_addr, desc_len, desc_flags, desc_next,
}
use orlix_system.Virtio.Device.{Host, Guest, Slot}
use orlix_system.Virtio.Chain.{guest_ptr, resolve_desc_chain, block_command}

module _ {W : Type 0} (host : Host W) (slot : Slot) where
  -- The `switch` of `process_block_data`, with the buffer and its length.
  unfoldable pub transfer : ℕ → ℕ → ℕ → ℕ → ℕ → ℕ → Guest W → ℕ × ℕ × Guest W
  transfer type sector buffer length flags written g =
      if type == t_in
      then (if has flags f_write
          then (let (good, bytes, w) =
                host.block_read g.world slot.host_block_device sector length in
              let g' : Guest W = record { mem = store_bytes g.mem buffer bytes; world = w } in
              if good then (s_ok, u32 (written + length), g') else (s_ioerr, written, g'))
          else (s_ioerr, written, g))
      else if type == t_out
      then (if has flags f_write
          then (s_ioerr, written, g)
          else let (good, w) =
              host.block_write g.world slot.host_block_device sector
                (load_bytes length g.mem buffer) in
            ((if good then s_ok else s_ioerr), written, record g { world = w }))
      else if type == t_get_id
      then (if has flags f_write
          then (let cleared = store_bytes g.mem buffer (replicate length 0) in
              let name = host.strscpy slot.device_identifier length in
              (s_ok, u32 (written + length), record g { mem = store_bytes cleared buffer name }))
          else (s_ioerr, written, g))
      else (s_unsupp, written, g)

  -- The status, `*written`, and the guest.
  unfoldable pub process_block_data : ℕ → ℕ → ℕ → ℕ → ℕ → Guest W → ℕ × ℕ × Guest W
  unfolding guest_ptr
  process_block_data type sector desc i written g =
      let length = desc_len g.mem desc i in
      let flags = desc_flags g.mem desc i in
      if has flags f_indirect
      then (s_ioerr, written, g)
      else elim (guest_ptr (desc_addr g.mem desc i) length) [
        | none ↦ (s_ioerr, written, g)
        | some buffer ↦ transfer type sector buffer length flags written g
      ]

  -- The `for` loop over the data descriptors, with the rounds that `guard` leaves. `none` is a
  -- return of VIRTIO_BLK_S_IOERR, from inside or by `guard == chain.count`; else the index at
  -- which the loop breaks, with `request_status`.
  unfoldable pub data_loop : ℕ → ℕ → ℕ → ℕ → ℕ → ℕ → ℕ → ℕ → Guest W → Option (ℕ × ℕ) × ℕ × Guest W
  data_loop type desc count zero i sector status written g = (none, written, g)
  data_loop type desc count (suc guard) i sector status written g =
      let flags = desc_flags g.mem desc i in
      let (result, written', g') =
        if status == s_ok
        then process_block_data type sector desc i written g
        else (status, written, g) in
      let sector' =
        if result == s_ok then u64 (sector + desc_len g'.mem desc i / sector_size) else sector in
      let rest =
        data_loop type desc count guard (desc_next g'.mem desc i) sector' result written' g' in
      if leb count i
      then (none, written, g)
      else if has flags f_indirect
      then (none, written, g)
      else if has flags f_next
      then rest
      else (some (i, status), written, g)

  unfoldable pub known_type : ℕ → Bool
  known_type type = type == t_in || type == t_out || type == t_get_id || type == t_flush

  -- What follows the loop: the status descriptor, the flush, and `*status = request_status`.
  unfoldable pub finish_request : ℕ → ℕ → ℕ → ℕ → ℕ → Guest W → ℕ × ℕ × Guest W
  unfolding poke guest_ptr
  finish_request type desc i status written g =
      let flags = desc_flags g.mem desc i in
      if not (has flags f_write) || has flags (f_next + f_indirect) || ltb (desc_len g.mem desc i) 1
      then (s_ioerr, written, g)
      else elim (guest_ptr (desc_addr g.mem desc i) 1) [
        | none ↦ (s_ioerr, written, g)
        | some target ↦
            let status' = if known_type type then status else s_unsupp in
            let (good, w) =
              if type == t_flush
              then host.block_flush g.world slot.host_block_device
              else (true, g.world) in
            let status'' = if good then status' else s_ioerr in
            (status'', u32 (written + 1), record { mem = poke g.mem target status''; world = w })
      ]

  unfoldable pub process_chain : ℕ → ℕ → ℕ → Guest W → ℕ × ℕ × Guest W
  unfolding guest_ptr
  process_chain desc head count g =
      let flags = desc_flags g.mem desc head in
      if has flags (f_write + f_indirect) || not (has flags f_next)
      then (s_ioerr, 0, g)
      else elim (guest_ptr (desc_addr g.mem desc head) (desc_len g.mem desc head)) [
        | none ↦ (s_ioerr, 0, g)
        | some header ↦
            let type = block_command (load 4 g.mem header) in
            let sector = load 8 g.mem (header + 8) in
            let next = desc_next g.mem desc head in
            if leb count next
            then (s_ioerr, 0, g)
            else let (stop, written, g') = data_loop type desc count count next sector s_ok 0 g in
              elim stop [
                | none ↦ (s_ioerr, written, g')
                | some (i, status) ↦ finish_request type desc i status written g'
              ]
      ]

  unfoldable pub process_block_request : ℕ → ℕ → ℕ → Guest W → ℕ × ℕ × Guest W
  process_block_request desc head desc_count g =
      elim (resolve_desc_chain g.mem desc desc_count head) [
        | none ↦ (s_ioerr, 0, g)
        | some chain ↦ process_chain chain.desc chain.head chain.count g
      ]
