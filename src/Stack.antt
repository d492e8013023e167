-- ===== src/Stack.antt =====
-- The layers put together: what arrives at an interface and where it goes.
mod Defs
mod Send
mod Tests
mod WireTests
pub mod Datagram
pub mod Layers
mod Frames
mod Carry
mod Outward
pub mod Deliver
pub mod Ping
pub mod Resolve
unfoldable pub use Defs.*
