-- ===== src/Boot.antt =====
-- The boot path: OrlixKernel/Sources/boot (loader.c, params.c, rootfs.c, dtb.c, initrd.c, handoff.c)
-- and OrlixKernel/Sources/ports/orlix/overlay/arch/orlix/boot/boot.c. A C string is an option of
-- its bytes, where `none` is the null pointer; a pointer to data is its address, where 0 is null.
pub mod Params
pub mod Entry
pub mod Handoff
mod Tests
