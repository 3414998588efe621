-- ===== src/Virtio.antt =====
-- The virtio MMIO transport of OrlixKernel/Sources/ports/orlix/overlay/drivers/orlix/virtio/mmio.c:
-- the device side of four virtio devices behind one register window each.
pub mod Layout
pub mod Device
pub mod Chain
pub mod Block
pub mod Stream
pub mod Ring
pub mod Service
pub mod Registers
pub mod Control
pub mod Access
mod Tests
