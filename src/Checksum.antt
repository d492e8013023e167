-- ===== src/Checksum.antt =====
-- include/dts/net/checksum.h: the 16-bit one's complement checksum of IP, ICMP, UDP and TCP.
-- `checksum_accmulate` keeps a 64-bit sum and `checksum` a 32-bit one. A buffer is the bytes from
-- the pointer to the end of the memory behind it, so a read past `size` is visible. The counter
-- `int i` is compared unsigned; sizes are below 2 ^ 31, so it does not overflow.
mod Defs
mod Tests
mod Fold
mod Sum
mod Whole
unfoldable pub use Defs.*
pub use Fold.*
pub use Sum.*
pub use Whole.*
