-- ===== src/Udp.antt =====
-- dts_net_udp.c and include/dts_net_udp.h: datagrams, the bound ports, sending and receiving.
mod Defs
pub mod RoundTrip
pub mod Receive
pub mod Trailing
pub mod Block
unfoldable pub use Defs.*
