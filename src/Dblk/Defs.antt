-- ===== src/Dblk/Defs.antt =====
-- `dblk_t`, and what only looks at a chain or links it.
use dts_net.Base.{ℕ, ◌+◌, ◌%◌, ◌^◌, Bool, true, false, List, [], ◌∷◌, ◌++◌, ltb, ◌==◌}
use dts_net.Base.{if◌then◌else◌, take, drop}
use dts_net.Endian.{Buffer}

-- What a walk along `vmem` sees of a node.
pub record Piece : Type 0 where
  pub bytes : Buffer
  pub size : ℕ

pub record Node : Type 0 where
  pub bytes : Buffer
  pub size : ℕ
  pub data_malloc : Bool
  pub node_malloc : Bool
  pub more : Bool
  pub vsize : ℕ
  pub vmem : List Piece
  pub offset : ℕ

abbrev pub Chain : Type 0
Chain = List Node

-- `memcpy(dst, src, n)`: `dst` and `src` are what lies behind the pointers.
abbrev pub memcpy : Buffer → Buffer → ℕ → Buffer
memcpy dst src n = take n src ++ drop n dst

-- `dblk_node_init` of a node at hand; `size` is a `uint16_t`.
unfoldable pub dblk_node_init : Buffer → ℕ → Node
dblk_node_init bytes size = record {
  bytes = bytes;
  size = size % 2 ^ 16;
  data_malloc = false;
  node_malloc = false;
  more = false;
  vsize = 0;
  vmem = [];
  offset = 0;
}

unfoldable pub dblk_node_is_vmem_node : Node → Bool
dblk_node_is_vmem_node d = ltb 0 d.vsize

-- `dblk_node_size` of a node; of NULL it is 0.
unfoldable pub dblk_node_size : Node → ℕ
dblk_node_size d = if d.vsize == 0 then d.size else d.vsize

-- `dblk_node_concat(b1, b2)`: `next` of the first node becomes `b2`, and `more` is set unless
-- `b2` is NULL.
unfoldable pub dblk_node_concat : Node → Chain → Chain
dblk_node_concat b1 [] = b1 ∷ []
dblk_node_concat b1 (d ∷ ds) = record b1 { more = true } ∷ d ∷ ds

unfoldable pub dblk_list_has_vmem_node : Chain → Bool
dblk_list_has_vmem_node [] = false
dblk_list_has_vmem_node (d ∷ ds) =
    if dblk_node_is_vmem_node d then true else dblk_list_has_vmem_node ds

unfoldable pub dblk_size : Chain → ℕ
dblk_size [] = 0
dblk_size (d ∷ ds) = dblk_node_size d + (if d.more then dblk_size ds else 0)

unfoldable pub dblk_next : Chain → Chain
dblk_next [] = []
dblk_next (d ∷ ds) = if d.more then dblk_next ds else ds

-- `dblk_merge(b, n)`: the node `n` goes behind the last node of the block `b`; what `n` led to is
-- unlinked. A block whose last node has `more` set runs off its end, which C leaves undefined.
unfoldable pub merge_node : Chain → Node → Chain
merge_node [] n = []
merge_node (b ∷ bs) n =
    let rest = merge_node bs n in if b.more then b ∷ rest else record b { more = true } ∷ n ∷ bs

unfoldable pub dblk_merge : Chain → Chain → Chain
unfolding merge_node
dblk_merge b [] = b
dblk_merge b (n ∷ ns) = merge_node b n
