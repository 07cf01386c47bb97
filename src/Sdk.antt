-- ===== src/Sdk.antt =====
-- sdk/sdk: the client library.
pub mod Tls
pub mod Login
pub mod World
pub mod Recycler
pub mod Connection
pub mod Session
pub mod Stream
pub mod Request
pub mod Proxy
pub mod Env
pub mod MainLoop
pub mod Calls
pub mod Tests
pub mod DownloadTests
pub mod RequestTests
pub mod RecyclerTests
