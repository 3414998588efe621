-- ===== src/Virtio/Stream.antt =====
-- The descriptor loops of the console and of the entropy device:
-- `orlix_virtio_mmio_process_console_input_desc`, `..._console_output_desc` and `..._rng_desc`.
-- They follow the chain in the queue's table, up to the fixed queue size.
use orlix_system.Prelude.{
  ℕ, zero, suc, ◌+◌, Bool, true, not, none, some, ltb, leb, if◌then◌else◌, u32, length,
}
use orlix_system.Memory.{load_bytes, store_bytes}
use orlix_system.Virtio.Layout.{
  has, f_next, f_write, queue_size, desc_addr, desc_len, desc_flags, desc_next,
}
use orlix_system.Virtio.Device.{Host, Guest}
use orlix_system.Virtio.Chain.{guest_ptr}

module _ {W : Type 0} (host : Host W) (desc : ℕ) where
  -- Each loop takes the rounds that `guard` leaves, the descriptor's index and `*written`.
  -- The first result is what `process_console_input_desc` returns.
  unfoldable pub input_loop : ℕ → ℕ → ℕ → Guest W → Bool × ℕ × Guest W
  unfolding guest_ptr
  input_loop zero i written g = (true, written, g)
  input_loop (suc guard) i written g =
      let len = desc_len g.mem desc i in
      let flags = desc_flags g.mem desc i in
      if leb queue_size i
      then (true, written, g)
      else if not (has flags f_write)
      then (true, written, g)
      else elim (guest_ptr (desc_addr g.mem desc i) len) [
        | none ↦ (true, written, g)
        | some buffer ↦
            let (bytes, w) = host.console_read_input g.world len in
            let g' : Guest W = record { mem = store_bytes g.mem buffer bytes; world = w } in
            let written' = u32 (written + length bytes) in
            let rest = input_loop guard (desc_next g'.mem desc i) written' g' in
            if ltb (length bytes) len
            then (ltb 0 written', written', g')
            else if has flags f_next
            then rest
            else (true, written', g')
      ]

  unfoldable pub output_loop : ℕ → ℕ → ℕ → Guest W → ℕ × Guest W
  unfolding guest_ptr
  output_loop zero i written g = (written, g)
  output_loop (suc guard) i written g =
      let len = desc_len g.mem desc i in
      let flags = desc_flags g.mem desc i in
      if leb queue_size i
      then (written, g)
      else if has flags f_write
      then (written, g)
      else elim (guest_ptr (desc_addr g.mem desc i) len) [
        | none ↦ (written, g)
        | some buffer ↦
            let w = host.console_write g.world (load_bytes len g.mem buffer) in
            let written' = u32 (written + len) in
            let rest =
              output_loop guard (desc_next g.mem desc i) written' (record g { world = w }) in
            if has flags f_next then rest else (written', record g { world = w })
      ]

  unfoldable pub rng_loop : ℕ → ℕ → ℕ → Guest W → ℕ × Guest W
  unfolding guest_ptr
  rng_loop zero i written g = (written, g)
  rng_loop (suc guard) i written g =
      let len = desc_len g.mem desc i in
      let flags = desc_flags g.mem desc i in
      if leb queue_size i
      then (written, g)
      else if not (has flags f_write)
      then (written, g)
      else elim (guest_ptr (desc_addr g.mem desc i) len) [
        | none ↦ (written, g)
        | some buffer ↦
            let (bytes, w) = host.entropy_read g.world len in
            let g' : Guest W = record { mem = store_bytes g.mem buffer bytes; world = w } in
            let written' = u32 (written + length bytes) in
            let rest = rng_loop guard (desc_next g'.mem desc i) written' g' in
            if ltb (length bytes) len
            then (written', g')
            else if has flags f_next
            then rest
            else (written', g')
      ]

  unfoldable pub process_console_input_desc : ℕ → Guest W → Bool × ℕ × Guest W
  process_console_input_desc head g =
      if leb queue_size head then (true, 0, g) else input_loop queue_size head 0 g

  unfoldable pub process_console_output_desc : ℕ → Guest W → ℕ × Guest W
  process_console_output_desc head g =
      if leb queue_size head then (0, g) else output_loop queue_size head 0 g

  unfoldable pub process_rng_desc : ℕ → Guest W → ℕ × Guest W
  process_rng_desc head g = if leb queue_size head then (0, g) else rng_loop queue_size head 0 g
