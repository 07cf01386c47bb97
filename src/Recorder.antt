-- ===== src/Recorder.antt =====
-- trafficRecorder/trafficRecorder: the recorder, which keeps tokens and balances in Redis.
pub mod Redis
pub mod Pool
pub mod CString
pub mod Token
pub mod Traffic
pub mod Billing
pub mod Tests
