-- ===== src/EtherArp.antt =====
-- dts_net_ether_arp.c and include/dts_net_ether_arp.h: which interface has which address, who has
-- which hardware address, and sending IP over Ethernet. The lists and the timers are external.
mod Defs
mod Tests
mod Table
mod Send
mod Room
pub mod Learn
pub mod Deliver
unfoldable pub use Defs.*
unfoldable pub use Table.*
unfoldable pub use Send.*
