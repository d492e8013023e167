-- ===== src/Sys.antt =====
-- dts_net_sys.c: the time in seconds, counted by a heartbeat.
mod Defs
mod Tests
pub mod Count
unfoldable pub use Defs.*
