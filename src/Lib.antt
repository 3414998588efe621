-- ===== src/Lib.antt =====
-- The kernel port of Orlix: the Linux kernel runs inside an application, and this library models the
-- parts of the port that the kernel and its guests rely on.
--
-- A path below is from the repository's root. `overlay` stands for
-- OrlixKernel/Sources/ports/orlix/overlay.
--
-- - Memory and Memory/Frame: guest memory, a byte for each address, with little-endian loads and
--   stores. The virtio transport and the user copies work on it.
-- - Virtio, overlay/drivers/orlix/virtio/mmio.c: the device side of four virtio devices. Layout and
--   Device hold the constants and the state (`Slot`, `Queue`), Chain the descriptor chains
--   (`guest_ptr`, `resolve_desc_chain`), Block the block requests (`process_block_request`), Stream
--   the console's and the entropy device's descriptor loops, Ring `push_used` and the loop over an
--   available ring that the four queue functions share, Service these functions, the work item and
--   the timer, Registers and Control the registers read and written, Access the entry points
--   `read8` to `write32`. A register write goes from Access to Control, a notification from there to
--   Service, which runs Ring's loop with a handler of Block or Stream. Descriptor chains have the
--   bounds of the source's loops. The loop over the available ring and the loop of the work item have
--   fuel: the available index is fixed while a queue is served, so that the number of available
--   chains, below 2 ^ 16, bounds the rounds of the first, and more fuel than that is enough.
-- - TrapDecode, OrlixHostAdapter/Sources/OrlixHostAdapter/runtime/trap_decode.h: the decisions of the
--   user trap handler about the TLS register. The search has the source's bound of 32 instructions.
-- - Timer, overlay/arch/orlix/kernel/time.c: the clock event device that the host polls. The event
--   handler is Linux's: a function that says which of the device's callbacks it makes in a poll.
-- - Uaccess, overlay/arch/orlix/mm/uaccess.c: copies between kernel and user memory. A round copies at
--   least a byte, so that as much fuel as bytes is enough.
-- - Mmap, overlay/arch/orlix/mm/mmap.c: where a mapping goes, in the hosted build.
-- - Boot, OrlixKernel/Sources/boot and overlay/arch/orlix/boot/boot.c: from the boot configuration to
--   the entry of the kernel, in the hosted build, where that entry does not return. Params completes
--   the configuration, Handoff loads and frees the resources and enters the kernel, Entry keeps the
--   handoff record that Mmap's host page size comes from.
-- - HostMemory, OrlixHostAdapter/Sources/OrlixHostAdapter/memory/kernel_mapping.c: the pages that the
--   host process maps for the kernel and its tasks. Space has the state (the three lists of mappings,
--   and memory as the process sees it) and the page arithmetic, User, Kernel and Io the functions on
--   the three lists, Copy what User and Kernel share. User/Calls runs sequences of the calls on user
--   mappings. Mach's calls are the record `HostMemory.Space.Mach`. That `vm_remap` shares pages is not
--   seen in memory.
-- - Resources, OrlixHostAdapter/Sources/OrlixHostAdapter/boot/resources.c: the checks of paths
--   and the registry of root images (Images), the selected block devices over the files of the C
--   library (Files and Blocks), and Guest puts them behind Virtio's block
--   requests.
-- - PageTable, overlay/arch/orlix/include/asm/pgtable.h: swap entries, page frame numbers, `set_ptes`,
--   and what the walks of PageSync read.
-- - PageSync, overlay/arch/orlix/mm/init.c: the pages of the kernel and of the current task that Linux
--   has the host map. Linux has the state, what is called of Linux, and the walk of the page tables,
--   Kernel the kernel's pages, User the task's (a fault in `fault_in_loop`, the host's window in
--   `collect` and `sync_window_pages`), Entry what the kernel's entry and fault code calls, with the
--   gate page of kernel/hosted_exec.c, and Calls sequences of such calls. HostMemory is called. A fault
--   that is to be retried is tried again as often as the fuel says: nothing bounds how often Linux
--   asks for that, and the fuel is enough unless it asks in as many rounds in a row. The other loops
--   have as many rounds as pages.
-- - Hosted, overlay/arch/orlix/kernel/hosted_exec.c with mm/fault.c and `orlix_syscall_dispatch` of
--   kernel/syscall.c: Events has the ring of user events, Frame the registers and the trap frames,
--   Fault a fault that the host reports, which calls PageSync, Exec the state and the TLS register,
--   Syscall the dispatch of a system call, and Trap the ways to a task and from it: a trap, the
--   syscall gate, and the resumption. A function that does not return gives an `Ending`. Signal
--   delivery, the timer's poll and the system calls are parameters, as functions on the whole state,
--   since they can let other tasks run. A fault has the fuel of PageSync's.
-- - Prelude: the library's names, Boolean tests, lists, and the bit operations with their lemmas.
--
-- The host's files, console, entropy and interrupt line, and Linux's page tables, faults, timers and
-- area search, are fields of the records `Virtio.Device.Host`, `Uaccess.Kernel`,
-- `Mmap.AddressSpace`, `PageSync.Linux.Linux`, `Hosted.Fault.FaultCalls`,
-- `Hosted.Exec.TaskCalls`, `Hosted.Exec.WorkCalls`, `HostMemory.Space.Mach`,
-- `Resources.Files.Files` and `Boot.Handoff.Host`, and theorems state what they ask of them.
--
-- Not modelled: concurrency between the work item, the timer and register accesses (each runs to its
-- end), locks but the mmap lock of PageSync and Hosted, the assembly of the syscall gate, signal
-- delivery, the TLS switch around host calls, how the host selects the files of its block devices,
-- the other flags of page table entries, the tty driver, and the Swift applications.
pub mod Prelude
pub mod Memory
pub mod Virtio
pub mod TrapDecode
pub mod Timer
pub mod Uaccess
pub mod Mmap
pub mod Boot
pub mod HostMemory
pub mod Resources
pub mod PageTable
pub mod PageSync
pub mod Hosted
