-- ===== src/Inet.antt =====
-- include/arpa/inet.h on a host that stores the low byte first.
mod Defs
pub mod Order
pub mod Text
pub mod Tests
unfoldable pub use Defs.*
