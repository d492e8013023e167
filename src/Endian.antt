-- ===== src/Endian.antt =====
-- include/dts/net/endian.h: reads and writes of 16- and 32-bit integers in memory, in little- and
-- in big-endian order. A pointer is a buffer (the list of its bytes) and an index into it; a
-- function that returns the pointer past what it wrote returns the buffer and that index.
-- Out of the buffer C has no behaviour: the model reads 0 and writes nothing there, and the
-- theorems ask that the bytes lie inside.
mod Defs
mod Tests
mod Cells
mod Laws
unfoldable pub use Defs.*
pub use Cells.*
pub use Laws.*
