-- ===== src/Tms.antt =====
-- tms/tms: the proxy server.
pub mod Types
pub mod Accounting
pub mod ScbMgr
pub mod Dns
pub mod WaitLists
pub mod Download
pub mod World
pub mod Removal
pub mod Session
pub mod Login
pub mod Inform
pub mod Forward
pub mod Events
pub mod Connection
pub mod Tests
pub mod NetworkTests
pub mod SessionData
pub mod SessionTests
pub mod WaitingTests
