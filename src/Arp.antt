-- ===== src/Arp.antt =====
-- dts_net_arp.c and include/dts_net_arp.h: ARP packets as bytes.
mod Defs
mod Tests
mod Blocks
pub mod RoundTrip
unfoldable pub use Defs.*
