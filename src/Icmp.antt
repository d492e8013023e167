-- ===== src/Icmp.antt =====
-- dts_net_icmp.c and include/dts_net_icmp.h: ICMP messages, and the answer to an echo.
mod Defs
pub mod Echo
unfoldable pub use Defs.*
