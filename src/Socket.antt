-- ===== src/Socket.antt =====
-- socket/socket.c and include/bsd/socket.h: descriptors, datagrams, and streams.
mod Defs
mod Tests
mod AddressTests
mod Stream
pub mod Address
pub mod Datagram
pub mod Accept
pub mod Connect
pub mod Reuse
unfoldable pub use Defs.*
unfoldable pub use Stream.*
