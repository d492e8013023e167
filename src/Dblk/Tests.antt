-- ===== src/Dblk/Tests.antt =====
-- The laws of blocks on concrete chains.
use dts_net.Base.{
  take, some, if◌then◌else◌, ◌==◌, ◌≡◌, refl, arith, Bool, true, false, [], ◌∷◌, length,
}
use dts_net.Endian.{Buffer}
use dts_net.Dblk.Defs.{Node, Chain, dblk_size, dblk_node_size}
use dts_net.Dblk.Alloc.{Heap}
use dts_net.Dblk.RoundTrip.{dblk_copy_to-copy_from}
use dts_net.Dblk.Fragment.{dblk_fragment, dblk_fragment_alloc, fragment_count}
use dts_net.Dblk.Refusal.{AreGranted, dblk_fragment_alloc-refused}
use dts_net.Dblk.Copy.{dblk_copy_to, dblk_copy_from}

-- A node on the heap, in real-memory mode.
abbrev node : Buffer → Bool → Node
node bytes more = record {
  bytes = bytes;
  size = length bytes;
  data_malloc = true;
  node_malloc = true;
  more = more;
  vsize = 0;
  vmem = [];
  offset = 0;
}

-- A block of two nodes, and a block of one behind it.
abbrev two_blocks : Chain
two_blocks = node (1 ∷ 2 ∷ []) true ∷ node (3 ∷ []) false ∷ node (4 ∷ 5 ∷ []) false ∷ []

abbrev one_block : Chain
one_block = node (1 ∷ 2 ∷ []) true ∷ node (3 ∷ []) false ∷ []

-- A node in virtual-memory mode: three bytes of its own and two of the next.
abbrev virtual : Node
virtual = record (node (7 ∷ 8 ∷ 9 ∷ []) false) {
  vsize = 5;
  vmem = record { bytes = 10 ∷ 11 ∷ 12 ∷ []; size = 3 } ∷ [];
}

abbrev heap : Heap
heap = record { grant = λ n. if n == 1 then false else true; asked = 0; live = 6; junk = 0xcc }

abbrev five : Chain
five = node (1 ∷ 2 ∷ 3 ∷ 4 ∷ 5 ∷ []) false ∷ []

dblk_copy_to-copy_from_example :
    dblk_copy_to (dblk_copy_from two_blocks (7 ∷ 8 ∷ 9 ∷ []) 3).0 (0 ∷ 0 ∷ 0 ∷ 1 ∷ []) 3
    ≡ (7 ∷ 8 ∷ 9 ∷ 1 ∷ [], 3)
dblk_copy_to-copy_from_example =
    dblk_copy_to-copy_from two_blocks (7 ∷ 8 ∷ 9 ∷ []) (0 ∷ 0 ∷ 0 ∷ 1 ∷ []) 3
      (refl, omega arith, (refl, omega arith, (refl, omega arith, tt))) (omega arith) (omega arith)

-- Three fragments, and no memory for the last.
abbrev two_only : Heap
two_only = record { grant = λ n. if n == 2 then false else true; asked = 0; live = 0; junk = 0 }

two_only-AreGranted : AreGranted two_only 2
two_only-AreGranted i small = ground arith

dblk_fragment_alloc-refused_example :
    (dblk_fragment_alloc five 2 two_only).0 ≡ some (take 2 (dblk_fragment five 2))
unfolding fragment_count dblk_size dblk_node_size
dblk_fragment_alloc-refused_example =
    dblk_fragment_alloc-refused (node (1 ∷ 2 ∷ 3 ∷ 4 ∷ 5 ∷ []) false) [] 2 2 two_only (omega arith)
      two_only-AreGranted refl
