-- ===== src/Resources/Tests.antt =====
-- A host with one file, which is all paths, and a writable device of one sector behind it.
use orlix_system.Prelude.{
  if◌then◌else◌, ◌≤◌, ℕ, ◌+◌, ◌%◌, ◌≡◌, refl, true, false, none, some, List, [], ◌∷◌, arith, length,
}
use orlix_system.Memory.{Memory, load_bytes, store_bytes}
use orlix_system.Memory.Frame.{length-load_bytes}
use orlix_system.Virtio.Layout.{s_ok, t_in, t_out, f_write}
use orlix_system.Virtio.Device.{Host, Guest, Slot}
use orlix_system.Virtio.Block.{transfer}
use orlix_system.Resources.Images.{
  path_contains_parent_reference, absolute_path_contains_parent_reference, parent_loop, RootImage,
  max_root_images, same_string, refused_image, index_of, register_root_image, copy_root_image,
}
use orlix_system.Resources.Images.Components.{parent_references}
use orlix_system.Resources.Images.Registry.{register-lookup}
use orlix_system.Resources.Guest.{with_blocks, transfer_round_trip}
use orlix_system.Resources.Files.{FilePath, Mode, Files, Stream, Documented}
use orlix_system.Resources.Blocks.{
  Block, selected, outside, block_read, block_write, read_file, read_stream, write_file,
  write_stream,
}
use orlix_system.Resources.Blocks.Transfer.{
  slice, block_read-IsSlice, block_write-IsStored, block_read-block_write,
}

record Disk : Type 0 where
  mem : Memory
  stream : Stream

abbrev test_files : Files ℕ Disk
test_files = record {
  fopen =
      λ p mode w. (some 1, record w { stream = record { path = p; mode = mode; position = 0 } });
  fseeko = λ f o w. (true, record w { stream = record (w.stream) { position = o } });
  fread = λ f n w. (load_bytes n w.mem w.stream.position, w);
  fwrite =
      λ f bytes w. (length bytes, record w { mem = store_bytes w.mem w.stream.position bytes });
  fclose = λ f w. (true, w);
  fsync_path = λ p writable w. (true, w);
}

abbrev test_contents : Disk → FilePath → Memory
test_contents w p = w.mem

abbrev test_stream : Disk → ℕ → Stream
test_stream w f = w.stream

test-Documented : Documented test_files test_contents test_stream
test-Documented = record {
  opened = λ p mode w f e. refl;
  open_keeps = λ p mode w. refl;
  sought = λ f o w e. refl;
  seek_keeps = λ f o w. refl;
  read_bounded = λ f n w. omega (arith, length-load_bytes n w.mem w.stream.position);
  read_bytes = λ f n w e. refl;
  read_keeps = λ f n w e. refl;
  written = λ f bytes w e e' e''. refl;
}

abbrev test_disk : Disk
test_disk = record {
  mem = λ a. a % 251;
  stream = record { path = []; mode = Mode.rb; position = 0 };
}

abbrev test_block : Block
test_block = record { path = 47 ∷ []; bytes = 512; writable = true }

abbrev test_bytes : List ℕ
test_bytes = 7 ∷ 8 ∷ 9 ∷ []

abbrev written_disk : Disk
written_disk = (block_write test_files (test_block ∷ []) test_disk 0 0 test_bytes).1

write_done : (block_write test_files (test_block ∷ []) test_disk 0 0 test_bytes).0 ≡ true
unfolding block_write selected outside write_file write_stream
write_done = refl

read_done : (block_read test_files (test_block ∷ []) written_disk 0 0 3).0 ≡ true
unfolding block_write selected outside write_file write_stream block_read read_file read_stream
    load_bytes
read_done = refl

block_read-IsSlice_example :
    (b : Block) × (selected (test_block ∷ []) 0 ≡ some b)
    × (outside b 0 3 ≡ false)
    × ((block_read test_files (test_block ∷ []) written_disk 0 0 3).1
        ≡ slice written_disk.mem b.bytes 0 3)
    × (test_contents (block_read test_files (test_block ∷ []) written_disk 0 0 3).2
        ≡ test_contents written_disk)
block_read-IsSlice_example =
    block_read-IsSlice test_files test_contents test_stream test-Documented (test_block ∷ []) 0 0 3
      written_disk read_done

block_write-IsStored_example :
    (b : Block) × (selected (test_block ∷ []) 0 ≡ some b)
    × (b.writable ≡ true)
    × (outside b 0 3 ≡ false)
    × (written_disk.mem ≡ store_bytes test_disk.mem 0 test_bytes)
block_write-IsStored_example =
    block_write-IsStored test_files test_contents test_stream test-Documented (test_block ∷ []) 0 0
      test_bytes test_disk write_done

test-selected : selected (test_block ∷ []) 0 ≡ some test_block
unfolding selected
test-selected = refl

block_read-block_write_example :
    (block_read test_files (test_block ∷ []) written_disk 0 0 3).1 ≡ test_bytes
block_read-block_write_example =
    block_read-block_write test_files test_contents test_stream test-Documented (test_block ∷ []) 0
      0 test_bytes test_disk test_block test-selected refl (omega arith)
      (omega arith, (omega arith, (omega arith, tt))) write_done read_done

abbrev test_host : Host Disk
test_host = record {
  block_capacity = λ w device. none;
  block_read = λ w device sector n. (false, [], w);
  block_write = λ w device sector bytes. (false, w);
  block_flush = λ w device. (false, w);
  console_read_input = λ w n. ([], w);
  console_write = λ w bytes. w;
  entropy_read = λ w n. ([], w);
  irq_dispatch = λ w irq. w;
  strscpy = λ s n. [];
  jiffies_after = λ w ms. ms;
}

abbrev block_slot : Slot
block_slot = record {
  base = 0x10000000;
  irq = 32;
  device_id = 2;
  host_block_device = 0;
  read_only = false;
  device_identifier = [];
  status = 15;
  interrupt_status = 0;
  device_features_sel = 0;
  driver_features_sel = 0;
  driver_features = [];
  queue_sel = 0;
  shm_sel = 0;
  queues = [];
  notify_work_queued = false;
  pending_queues = 0;
  notify_work_initialized = false;
  console_input_timer = none;
  console_input_timer_initialized = false;
}

abbrev test_guest : Guest Disk
test_guest = record { mem = λ a. a + 3; world = test_disk }

abbrev block_host : Host Disk
block_host = with_blocks test_files (test_block ∷ []) test_host

abbrev sent : ℕ × ℕ × Guest Disk
sent = transfer block_host block_slot t_out 0 100 2 0 0 test_guest

abbrev received : ℕ × ℕ × Guest Disk
received = transfer block_host block_slot t_in 0 200 2 f_write 0 sent.2

send_done : sent.0 ≡ s_ok
unfolding transfer block_write selected outside write_file write_stream load_bytes
send_done = refl

receive_done : received.0 ≡ s_ok
unfolding transfer block_write selected outside write_file write_stream load_bytes block_read
    read_file read_stream
receive_done = refl

transfer_round_trip_example : received.2.mem (200 + 1) ≡ test_guest.mem (100 + 1) % 256
transfer_round_trip_example =
    transfer_round_trip test_files test_contents test_stream test-Documented (test_block ∷ [])
      test_host block_slot 0 100 200 2 0 test_guest test_block test-selected refl (omega arith)
      send_done receive_done 1 (omega arith)

-- "a/.." with the component ".." at its end.
parent_references_example :
    (path_contains_parent_reference (some (97 ∷ 47 ∷ 46 ∷ 46 ∷ [])) ≡ true)
    × (absolute_path_contains_parent_reference (some (97 ∷ 47 ∷ 46 ∷ 46 ∷ [])) ≡ true)
parent_references_example = parent_references (97 ∷ 47 ∷ 46 ∷ 46 ∷ [])

abbrev test_image : RootImage
test_image = record {
  identifier = 97 ∷ [];
  initrd_bundle_name = [];
  initrd_bundle_extension = [];
  initrd_resource = 98 ∷ [];
  base_block_resource = 99 ∷ [];
  state_block_resource = 100 ∷ [];
  block_images_are_files = false;
  base_block_device = 0;
  state_block_device = 1;
  state_block_minimum_bytes = 4096;
}

image_registered : register_root_image [] test_image ≡ some (test_image ∷ [])
unfolding register_root_image index_of refused_image path_contains_parent_reference parent_loop
image_registered = refl

register-lookup_example :
    (refused_image test_image ≡ false)
    × (1 ≤ max_root_images)
    × ((identifier : FilePath)
        → copy_root_image (test_image ∷ []) identifier ≡ (
            if same_string test_image.identifier identifier
            then some test_image
            else copy_root_image [] identifier))
register-lookup_example =
    register-lookup [] (test_image ∷ []) test_image (omega arith) image_registered
