-- ===== src/Ip.antt =====
-- dts_net_ip.c and include/dts_net_ip.h: addresses, headers, sending with fragments, receiving, and
-- the datagram that the layers above hand over.
mod Addr
mod Header
mod Send
mod Tests
pub mod Fragments
pub mod RoundTrip
pub mod Receive
unfoldable pub use Addr.*
unfoldable pub use Header.*
unfoldable pub use Send.*
