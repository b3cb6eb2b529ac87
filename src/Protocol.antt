-- ===== src/Protocol.antt =====
-- The wire format of the protocol lines (src/etst/protocol.py).
pub mod Utf8
pub mod Crc
pub mod Line
pub mod Payload
pub mod Messages
