-- ===== src/Device.antt =====
-- The device side of the server, src/lib/usbip_device.c: endpoint buffers, device callbacks and the
-- standard control requests.
pub mod Api
pub mod Buffers
pub mod OtherSpeed
pub mod Control
