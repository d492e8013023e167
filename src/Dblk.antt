-- ===== src/Dblk.antt =====
-- dts_net_dblk.c and include/dts_net_dblk.h: data blocks, the chains of byte nodes that carry a
-- packet between the layers. A `dblk_t *` is the list of the nodes that `next` leads through, so
-- NULL is the empty list; a node's `data` pointer is the list `bytes` of what lies behind it, and
-- its `vmem` pointer the pieces that it leads through. A function that changes nodes returns the
-- changed chain. Nodes of one chain do not share memory.
mod Defs
mod Tests
mod Alloc
mod Copy
mod Stream
mod Fragment
pub mod Contents
pub mod CopyLaws
pub mod AllocLaws
pub mod MergeLaws
pub mod FragmentLaws
pub mod RoundTrip
pub mod RealLaws
pub mod Refusal
unfoldable pub use Defs.*
unfoldable pub use Alloc.*
unfoldable pub use Copy.*
unfoldable pub use Stream.*
unfoldable pub use Fragment.*
