-- ===== src/Hosted.antt =====
-- OrlixKernel/Sources/ports/orlix/overlay/arch/orlix/kernel/hosted_exec.c with mm/fault.c and
-- kernel/syscall.c beside it: what happens between a trap of a task and its resumption.
pub mod Events
pub mod Frame
pub mod Fault
pub mod Exec
pub mod Syscall
pub mod Trap
mod Tests
