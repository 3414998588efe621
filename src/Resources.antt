-- ===== src/Resources.antt =====
-- OrlixHostAdapter/Sources/OrlixHostAdapter/boot/resources.c: the images that a boot selects and
-- the block devices that it makes of them.
pub mod Files
pub mod Blocks
pub mod Guest
pub mod Images
mod Tests
