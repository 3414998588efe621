-- ===== src/HostMemory.antt =====
-- OrlixHostAdapter/Sources/OrlixHostAdapter/memory/kernel_mapping.c: the pages that the host process
-- maps for the kernel and its tasks, each a copy of a page of the kernel's memory.
pub mod Space
pub mod Pages
pub mod Invariant
pub mod Copy
pub mod User
pub mod Kernel
pub mod Io
mod Tests
