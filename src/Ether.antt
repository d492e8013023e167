-- ===== src/Ether.antt =====
-- dts_net_ether.c and include/dts_net_ether.h: Ethernet frames.
mod Defs
unfoldable pub use Defs.*
