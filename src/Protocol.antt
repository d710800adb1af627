-- ===== src/Protocol.antt =====
-- The USB/IP protocol, src/lib/usbip_protocol.c: operations, submitted and pending transfers, replies.
pub mod Conn
pub mod Messages
pub mod State
pub mod Endpoints
pub mod Reply
pub mod Submit
pub mod Unlink
pub mod Complete
pub mod Operations
pub mod Serve
