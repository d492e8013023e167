-- ===== src/Tcp.antt =====
-- dts_net_tcp.c and include/dts_net_tcp.h: connections, the state machine over segments, and the
-- calls of the user.
mod Defs
mod Tests
mod Seq
mod Wire
mod Send
mod Receive
mod Events
mod Connections
pub mod Frame
pub mod Handlers
pub mod Transitions
pub mod Deliver
pub mod Faults
pub mod Lengths
pub mod Acceptance
pub mod Handshake
pub mod Heard
pub mod Exchange
pub mod Meeting
pub mod Acks
pub mod Demux
pub mod Open
mod Packed
pub mod RoundTrip
pub mod Text
pub mod Recv
unfoldable pub use Defs.*
unfoldable pub use Seq.*
unfoldable pub use Wire.*
unfoldable pub use Send.*
unfoldable pub use Receive.*
unfoldable pub use Events.*
unfoldable pub use Connections.*
