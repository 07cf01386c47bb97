-- ===== src/Dpi/Counter.antt =====
-- The traffic counter of one client address: `IpUserTraffic` of ic-dpi/ic-dpi/LvldbMgr.h and what
-- ic-dpi/ic-dpi/LvldbMgr.cpp does to it. Each `int` field is its bit pattern. A function of the
-- source runs here without another thread in between, so a compare-and-swap of a field against the
-- value just read succeeds; the loops around it are written out, on fuel.
pub mod Update
pub mod Conserve
pub mod Outstanding
