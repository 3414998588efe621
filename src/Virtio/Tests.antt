-- ===== src/Virtio/Tests.antt =====
-- A console with one available chain, and the theorems on it.
use orlix_system.Prelude.{
  ℕ, ◌+◌, ◌<◌, ◌≡◌, refl, inl, true, false, none, some, [], ◌∷◌, arith, bit_and, ◌==◌,
  if◌then◌else◌,
}
use orlix_system.Memory.{Memory, load}
use orlix_system.Virtio.Device.{Host, Device, Queue, Slot, zero_queue, selected_queue}
use orlix_system.Virtio.Layout.{id_console}
use orlix_system.Virtio.Chain.{guest_ptr, DescChain, resolve_desc_chain}
use orlix_system.Virtio.Chain.Resolve.{IsResolved, resolve_desc_chain-IsResolved}
use orlix_system.Virtio.Ring.{push_used, drain, open_queue, Handler}
use orlix_system.Virtio.Ring.Push.{HasUsed, Pushed, push_used-Pushed}
use orlix_system.Virtio.Ring.Drain.{HasRings, IsQuiet, Drained, pending}
use orlix_system.Virtio.Ring.Heads.{HasEntries, heads, give_back_all, drain-heads_served}
use orlix_system.Virtio.Service.{handle_console_output, process_console_output_queue}
use orlix_system.Virtio.Service.Output.{output_queue-Drained}
use orlix_system.Virtio.Registers.{Register}
use orlix_system.Virtio.Control.{write_register}
use orlix_system.Virtio.Control.Addresses.{Field, Holds, write_both, address_writes}
use orlix_system.Virtio.Control.Reset.{interrupt_ack}

-- A host that counts the calls that change it.
abbrev test_host : Host ℕ
test_host = record {
  block_capacity = λ w device. some 8;
  block_read = λ w device sector n. (true, [], w + 1);
  block_write = λ w device sector bytes. (true, w + 1);
  block_flush = λ w device. (true, w + 1);
  console_read_input = λ w n. ([], w + 1);
  console_write = λ w bytes. w + 1;
  entropy_read = λ w n. ([], w + 1);
  irq_dispatch = λ w irq. w + 1;
  strscpy = λ s n. [];
  jiffies_after = λ w ms. w + ms;
}

-- The available ring at 256 has the index 1 and the head 0.
abbrev test_memory : Memory
test_memory a = if a == 258 then 1 else 0

abbrev test_queue : Queue
test_queue = record { num = 4; ready = 1; desc = 1024; avail = 256; used = 512; last_avail = 0 }

abbrev test_slot : Slot
test_slot = record {
  base = 0x10001400;
  irq = 34;
  device_id = id_console;
  host_block_device = 0;
  read_only = false;
  device_identifier = [];
  status = 15;
  interrupt_status = 2;
  device_features_sel = 0;
  driver_features_sel = 0;
  driver_features = 0 ∷ 1 ∷ [];
  queue_sel = 1;
  shm_sel = 0;
  queues = zero_queue ∷ test_queue ∷ [];
  notify_work_queued = false;
  pending_queues = 0;
  notify_work_initialized = true;
  console_input_timer = none;
  console_input_timer_initialized = true;
}

abbrev test_device : Device ℕ
test_device = record { slot = test_slot; guest = record { mem = test_memory; world = 0 } }

abbrev test_handler : Handler ℕ
test_handler head g = (true, 7, g)

test_used : HasUsed test_queue
test_used = record { present = omega arith; fits = omega arith; entries = omega arith }

test_rings : HasRings 256 test_queue
test_rings = record { used = test_used; apart = inl (omega arith); last = omega arith }

test-IsQuiet : IsQuiet 256 512 test_handler
test-IsQuiet = record {
  goes_on = λ head g. refl;
  counts = λ head g. omega arith;
  keeps_avail = λ head g a lo hi. refl;
  keeps_used = λ head g a lo hi. refl;
}

test_pending : pending 256 test_queue test_memory < 2
unfolding load
test_pending = omega arith

test_opened : open_queue test_queue ≡ some (1024, 256)
unfolding open_queue guest_ptr
test_opened = refl

test_selected : selected_queue test_slot ≡ some test_queue
unfolding selected_queue
test_selected = refl

push_used-Pushed_example :
    Pushed test_host test_queue 3 9 test_device (push_used test_host test_queue 3 9 test_device)
push_used-Pushed_example =
    push_used-Pushed test_host test_queue 3 9 test_device test_used (omega arith) (omega arith)

test-HasEntries : HasEntries 256 test_queue test_handler
test-HasEntries = record {
  entries_apart = inl (omega arith);
  keeps_entries = λ head g a lo hi. refl;
}

drain-heads_served_example :
    let k = pending 256 test_queue test_memory in
    let d' =
      give_back_all test_host test_handler 256 1
        (heads 256 test_queue test_memory k)
        test_queue
        test_device in
    (drain test_host test_handler 256 1 2 test_device ≡ some d')
    × Drained test_host test_handler 256 1 test_queue k test_device d'
drain-heads_served_example =
    drain-heads_served test_host test_handler 256 1 2 test_queue test_device refl test_rings
      test-IsQuiet test-HasEntries test_pending

output_queue-Drained_example :
    (d' : Device ℕ) × (process_console_output_queue test_host 2 1 test_device ≡ some d')
    × Drained test_host
        (handle_console_output test_host 1024)
        256
        1
        test_queue
        (pending 256 test_queue test_memory)
        test_device
        d'
output_queue-Drained_example =
    output_queue-Drained test_host 2 1 test_queue test_device {desc = 1024} {avail = 256}
      (omega arith) refl test_opened test_rings test_pending

address_writes_example :
    Holds test_host 0 Field.used 5 6 test_queue
      (write_both test_host 0 Register.queue_used_low 5 Register.queue_used_high 6 test_device)
    × Holds test_host 0 Field.used 5 6 test_queue
        (write_both test_host 0 Register.queue_used_high 6 Register.queue_used_low 5 test_device)
address_writes_example =
    address_writes test_host 0 Field.used 5 6 (omega arith) (omega arith) test_device test_queue
      test_selected (omega arith)

abbrev reset_value : ℕ
reset_value = 0

interrupt_ack_example :
    (d' : Device ℕ) × (write_register test_host 0 Register.interrupt_ack 3 test_device ≡ some d')
    × (bit_and 2 3 + d'.slot.interrupt_status ≡ 2)
interrupt_ack_example = interrupt_ack test_host 0 test_device 3 (omega arith) (omega arith)

-- The descriptor at 1024 is indirect, with 32 bytes at 2048.
abbrev indirect_memory : Memory
indirect_memory a = if a == 1036 then 4 else if a == 1032 then 32 else if a == 1025 then 8 else 0

abbrev indirect_result : DescChain
indirect_result = record { desc = 2048; head = 0; count = 2 }

test_resolved : resolve_desc_chain indirect_memory 1024 4 0 ≡ some indirect_result
unfolding resolve_desc_chain load
test_resolved = refl

resolve_desc_chain-IsResolved_example : IsResolved indirect_memory 1024 4 0 indirect_result
resolve_desc_chain-IsResolved_example =
    resolve_desc_chain-IsResolved indirect_memory 1024 4 0 indirect_result test_resolved
