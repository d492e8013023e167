-- ===== src/Dblk/Contents.antt =====
-- What a block holds, and when a chain is well formed: the specification of the copies.
use dts_net.Base.{◌≤◌, List, [], ◌∷◌, ◌++◌, ◌≡◌, refl, arith}
use dts_net.Base.{if◌then◌else◌, ◌==◌, take, length, length-take, length-append}
use dts_net.Endian.{Buffer}
use dts_net.Dblk.Defs.{Node, Chain, Piece, dblk_node_size, dblk_size}

abbrev pub piece_bytes : List Piece → Buffer
piece_bytes [] = []
piece_bytes (v ∷ vs) = take v.size v.bytes ++ piece_bytes vs

-- The bytes of a node, in either mode.
abbrev pub node_bytes : Node → Buffer
node_bytes d =
    if d.vsize == 0
    then take d.size d.bytes
    else take d.vsize (take d.size d.bytes ++ piece_bytes d.vmem)

-- The bytes of the first block of a chain.
abbrev pub contents : Chain → Buffer
contents [] = []
contents (d ∷ ds) = node_bytes d ++ (if d.more then contents ds else [])

-- The memory behind the node is as large as the node says.
abbrev pub IsBacked : Node → Type 0
IsBacked d =
    (d.size ≤ length d.bytes) × (d.vsize ≤ length (take d.size d.bytes ++ piece_bytes d.vmem))

abbrev pub AreBacked : Chain → Type 0
AreBacked [] = Unit {0}
AreBacked (d ∷ ds) = IsBacked d × AreBacked ds

-- No node is in virtual-memory mode, and each is backed.
abbrev pub AreReal : Chain → Type 0
AreReal [] = Unit {0}
AreReal (d ∷ ds) = (d.vsize ≡ 0) × (d.size ≤ length d.bytes) × AreReal ds

pub length-node_bytes : (d : Node) → IsBacked d → length (node_bytes d) ≡ dblk_node_size d
unfolding dblk_node_size
length-node_bytes d h = ground (
  arith,
  length-take d.size d.bytes,
  length-take d.vsize (take d.size d.bytes ++ piece_bytes d.vmem),
)

-- `dblk_size` is the number of bytes of the first block, of either mode, where each node is
-- backed by its memory.
pub dblk_size-contents : (ds : Chain) → AreBacked ds → dblk_size ds ≡ length (contents ds)
unfolding dblk_size
dblk_size-contents [] h = refl
dblk_size-contents (d ∷ ds) h = ground (
  arith,
  length-node_bytes d h.0,
  dblk_size-contents ds h.1,
  length-append (node_bytes d) (contents ds),
  length-append (node_bytes d) [],
)
