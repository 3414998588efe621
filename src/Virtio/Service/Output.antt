-- ===== src/Virtio/Service/Output.antt =====
-- The console's output queue: serving it writes no guest memory but the used ring.
use orlix_system.Prelude.{
  ℕ, zero, suc, ◌+◌, ◌^◌, ◌<◌, ◌≡◌, refl, ap, u32, lt→leb, some, arith, get_elem?,
}
use orlix_system.Memory.{Memory, load_bytes}
use orlix_system.Virtio.Layout.{queue_count, queue_size, desc_addr, desc_len, desc_next}
use orlix_system.Virtio.Device.{Host, Guest, Device, Queue}
use orlix_system.Virtio.Stream.{output_loop, process_console_output_desc}
use orlix_system.Virtio.Ring.{open_queue}
use orlix_system.Virtio.Ring.Drain.{HasRings, IsQuiet, Drained, pending, drain-Drained}
use orlix_system.Virtio.Service.{handle_console_output, run_queue, process_console_output_queue}

module _ {W : Type 0} (host : Host W) where
  output_loop_quiet :
      (desc guard i written : ℕ) (g : Guest W)
      → written < 2 ^ 32
      → let r = output_loop host desc guard i written g in (r.0 < 2 ^ 32) × (r.1.mem ≡ g.mem)
  unfolding output_loop
  output_loop_quiet desc zero i written g h = (h, refl)
  output_loop_quiet desc (suc guard) i written g h =
      let len = desc_len g.mem desc i in
      let bytes = load_bytes len g.mem (desc_addr g.mem desc i) in
      ground (
        arith,
        output_loop_quiet desc guard (desc_next g.mem desc i) (u32 (written + len))
            (record g { world = host.console_write g.world bytes }),
      )

  console_output_quiet :
      (desc head : ℕ) (g : Guest W)
      → let r = process_console_output_desc host desc head g in (r.0 < 2 ^ 32) × (r.1.mem ≡ g.mem)
  unfolding process_console_output_desc
  console_output_quiet desc head g =
      ground (arith, output_loop_quiet desc queue_size head 0 g (omega arith))

  output-IsQuiet : (desc avail used : ℕ) → IsQuiet avail used (handle_console_output host desc)
  unfolding handle_console_output
  output-IsQuiet desc avail used = record {
    goes_on = λ head g. refl;
    counts = λ head g. (console_output_quiet desc head g).0;
    keeps_avail = λ head g a lo hi. ap (λ (m : Memory). m a) (console_output_quiet desc head g).1;
    keeps_used = λ head g a lo hi. ap (λ (m : Memory). m a) (console_output_quiet desc head g).1;
  }

  -- The console's output queue, with rings that do not overlap and fuel above the number of
  -- available chains: the loop ends with all of them returned, whatever the descriptors hold.
  pub output_queue-Drained :
      (fuel i : ℕ) (q : Queue) (d : Device W) {desc avail : ℕ}
      → i < queue_count
      → get_elem? d.slot.queues i ≡ some q
      → open_queue q ≡ some (desc, avail)
      → HasRings avail q
      → pending avail q d.guest.mem < fuel
      → (d' : Device W) × (process_console_output_queue host fuel i d ≡ some d')
        × Drained host
            (handle_console_output host desc)
            avail
            i
            q
            (pending avail q d.guest.mem)
            d
            d'
  unfolding process_console_output_queue run_queue
  output_queue-Drained fuel i q d {desc} {avail} small at opened r h =
      rw (process_console_output_queue, lt→leb _ _ small, run_queue, at, opened)
        (drain-Drained host (handle_console_output host desc) avail i fuel q d at r
          (output-IsQuiet desc avail q.used) h)
