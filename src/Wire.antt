-- ===== src/Wire.antt =====
-- The message format that the programs share: tms/tms/TMSMessage.h.
pub mod Bytes
pub mod MessageEnum
pub mod RespCode
pub mod Messages
pub mod RoundTrip
