-- ===== src/Dpi.antt =====
-- ic-dpi/ic-dpi: the traffic meter that runs beside the proxy server.
pub mod Predict
pub mod Counter
pub mod Table
pub mod Packet
pub mod Stream
pub mod Handler
pub mod Tests
