-- ===== src/PageSync.antt =====
-- OrlixKernel/Sources/ports/orlix/overlay/arch/orlix/mm/init.c, in the hosted build: how the pages of
-- the kernel and of the current task are mapped into the host process. `kernel_map_page`,
-- `user_refresh_window` and the like are those of HostMemory.
pub mod Linux
pub mod Kernel
pub mod User
pub mod Entry
pub mod Steps
pub mod Locks
pub mod Segments
pub mod Valid
pub mod Task
pub mod Calls
pub mod Sample
mod Tests
