-- ===== src/Mem.antt =====
-- The pools of dts.net.mem.impl: dts_net_mem_arr.c and dts_net_mem_list.c. One pool stands for each
-- of the types that the macros are used for.
mod Defs
mod Tests
pub mod Laws
unfoldable pub use Defs.*
