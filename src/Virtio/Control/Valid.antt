-- ===== src/Virtio/Control/Valid.antt =====
-- Every register write keeps the widths and sizes of a slot's fields.
use orlix_system.Virtio.Device.{Device}
