-- ===== src/Dhcp.antt =====
-- dts_net_dhcp.c, include/dts_net_dhcp.h and include/arpa/inet.h: messages, options, the client.
mod Defs
mod Options
mod World
mod Client
mod Tests
pub mod Search
pub mod Idle
pub mod Blocks
pub mod Diagram
pub mod Numbers
pub mod RoundTrip
unfoldable pub use Defs.*
unfoldable pub use Options.*
unfoldable pub use World.*
unfoldable pub use Client.*
