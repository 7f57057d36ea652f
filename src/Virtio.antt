-- ===== src/Virtio.antt =====
-- kernel/src/virtio: the queues that a driver shares with a device.
pub mod Queue
