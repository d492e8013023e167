-- ===== src/Dblk/Copy.antt =====
-- Copies between a chain and flat memory. Memory is what lies behind the pointer.
use dts_net.Base.{ℕ, ◌-◌, List, [], ◌∷◌, ◌++◌, Option, none, some, ◌||◌, not}
use dts_net.Base.{if◌then◌else◌, ltb, ◌==◌, take, drop}
use dts_net.Base.{Bool, true, false, replicate, ◌&&◌}
use dts_net.Endian.{Buffer}
use dts_net.Dblk.Defs.{
  Node, Chain, Piece, memcpy, dblk_node_size, dblk_size, dblk_node_is_vmem_node,
}
use dts_net.Dblk.Alloc.{Heap, malloc, dblk_node_new_with_buff}

-- The walk of `dblk_node_copy_to` along `vmem`, with `remain` bytes left to copy.
unfoldable pub vmem_copy : List Piece → Buffer → ℕ → Buffer
vmem_copy [] mem remain = mem
vmem_copy (v ∷ vs) mem remain =
    let rest = vmem_copy vs (drop v.size (memcpy mem v.bytes v.size)) (remain - v.size) in
    if remain == 0
    then mem
    else if ltb v.size remain
    then take v.size (memcpy mem v.bytes v.size) ++ rest
    else memcpy mem v.bytes remain

-- The bytes written to `mem`, and the number returned.
unfoldable pub dblk_node_copy_to : Node → Buffer → ℕ → Buffer × ℕ
unfolding vmem_copy
dblk_node_copy_to d mem size =
    if d.vsize == 0
    then (let do_size = if ltb d.size size then d.size else size in
        (memcpy mem d.bytes do_size, do_size))
    else (let do_size = if ltb d.vsize size then d.vsize else size in
        if ltb d.size d.vsize
        then (let mem1 = memcpy mem d.bytes d.size in
            (take d.size mem1 ++ vmem_copy d.vmem (drop d.size mem1) (d.vsize - d.size), do_size))
        else (memcpy mem d.bytes d.vsize, do_size))

-- The loop of `dblk_copy_to`: the memory, and the `size` that is left.
unfoldable pub copy_to_loop : Chain → Buffer → ℕ → Buffer × ℕ
copy_to_loop [] mem size = (mem, size)
copy_to_loop (d ∷ ds) mem size =
    let (mem1, do_size) = dblk_node_copy_to d mem size in
    let (rest, left) = copy_to_loop ds (drop do_size mem1) (size - do_size) in
    if size - do_size == 0 || not d.more
    then (mem1, size - do_size)
    else (take do_size mem1 ++ rest, left)

unfoldable pub dblk_copy_to : Chain → Buffer → ℕ → Buffer × ℕ
unfolding copy_to_loop
dblk_copy_to ds mem size = let (mem1, left) = copy_to_loop ds mem size in (mem1, size - left)

-- The loop of `dblk_copy_from`: the chain, and the `size` that is left.
unfoldable pub copy_from_loop : Chain → Buffer → ℕ → Chain × ℕ
copy_from_loop [] mem size = ([], size)
copy_from_loop (d ∷ ds) mem size =
    let do_size = if ltb d.size size then d.size else size in
    let d1 = record d { bytes = memcpy d.bytes mem do_size } in
    let (rest, left) = copy_from_loop ds (drop do_size mem) (size - do_size) in
    if size - do_size == 0 || not d.more then (d1 ∷ ds, size - do_size) else (d1 ∷ rest, left)

unfoldable pub dblk_copy_from : Chain → Buffer → ℕ → Chain × ℕ
unfolding copy_from_loop
dblk_copy_from ds mem size = let (ds1, left) = copy_from_loop ds mem size in (ds1, size - left)

-- `dblk_node_to_rmem_node`: a node in virtual-memory mode gets the memory `mem` for its bytes.
unfoldable pub dblk_node_to_rmem_node : Node → Buffer → ℕ → Node
dblk_node_to_rmem_node d mem size =
    let (mem1, n) = dblk_node_copy_to d mem size in
    if dblk_node_is_vmem_node d
    then record d { size = n; bytes = mem1; vsize = 0; vmem = [] }
    else d

-- A node on the way from virtual to real memory, with the fresh memory `junk` behind it.
abbrev pub to_rmem : Node → ℕ → Node
to_rmem d junk =
    let blksz = dblk_node_size d in
    dblk_node_to_rmem_node (record d { data_malloc = true }) (replicate blksz junk) blksz

-- `dblk_list_to_rmem_list`: the list, the heap, and whether each request was granted.
unfoldable pub dblk_list_to_rmem_list : Chain → Heap → Chain × Heap × Bool
dblk_list_to_rmem_list [] h = ([], h, true)
dblk_list_to_rmem_list (d ∷ ds) h =
    let (got, h1) = malloc h in
    let is_vmem = dblk_node_is_vmem_node d in
    let d1 = if is_vmem then to_rmem d h.junk else d in
    let (rest, h2, done) = dblk_list_to_rmem_list ds (if is_vmem then h1 else h) in
    if is_vmem && not got then (d ∷ ds, h1, false) else (d1 ∷ rest, h2, done)

fill_copy : Chain → Option Node × Heap → Option Node × Heap
fill_copy ds (none, h) = (none, h)
fill_copy ds (some cpy, h) =
    (some (record cpy { bytes = (dblk_copy_to ds cpy.bytes cpy.size).0 }), h)

-- One fresh node with the bytes of a whole block.
unfoldable pub dblk_copy : Chain → Heap → Option Node × Heap
unfolding fill_copy
dblk_copy ds h = fill_copy ds (dblk_node_new_with_buff (dblk_size ds) h)

-- `dblk_node_copy` asks for the size of the first node, and copies as much of the block.
unfoldable pub dblk_node_copy : Node → Chain → Heap → Option Node × Heap
unfolding fill_copy
dblk_node_copy d ds h = fill_copy (d ∷ ds) (dblk_node_new_with_buff (dblk_node_size d) h)
