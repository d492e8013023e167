-- ===== src/Dblk/Stream.antt =====
-- `dblk_seek`, `dblk_write` and `dblk_read`: a position in each node.
use dts_net.Base.{ℕ, ◌+◌, ◌-◌, ◌%◌, ◌^◌, [], ◌∷◌, ◌++◌, if◌then◌else◌, ltb}
use dts_net.Base.{take, drop}
use dts_net.Endian.{Buffer}
use dts_net.Dblk.Defs.{Node, Chain, memcpy}

-- `offset -= offset` leaves 0, and the loop goes on to the end of the block.
unfoldable pub dblk_seek : Chain → ℕ → Chain
dblk_seek [] offset = []
dblk_seek (d ∷ ds) offset =
    let d1 = record d { offset = if ltb offset d.size then offset else d.size } in
    let rest = dblk_seek ds (if ltb offset d.size then 0 else offset - d.size) in
    if d.more then d1 ∷ rest else d1 ∷ ds

-- What `dblk_write` and `dblk_read` move at a node: all the room behind its position, but no more
-- than the `size` of the whole call. `dblk->size - dblk->offset` is a `size_t`.
unfoldable pub node_room : Node → ℕ → ℕ
node_room d size =
    let room = (d.size + 2 ^ 64 - d.offset) % 2 ^ 64 in if ltb size room then size else room

-- `mem` does not move on from node to node.
unfoldable pub write_loop : Chain → Buffer → ℕ → ℕ → Chain × ℕ
unfolding node_room
write_loop [] mem size done_size = ([], done_size)
write_loop (d ∷ ds) mem size done_size =
    let n = node_room d size in
    let d1 = record d {
      bytes = take d.offset d.bytes ++ memcpy (drop d.offset d.bytes) mem n;
      offset = d.offset + n;
    } in
    let (rest, done) = write_loop ds mem size (done_size + n) in
    if ltb done_size size
    then (if d.more then (d1 ∷ rest, done) else (d1 ∷ ds, done_size + n))
    else (d ∷ ds, done_size)

unfoldable pub dblk_write : Chain → Buffer → ℕ → Chain × ℕ
unfolding write_loop
dblk_write ds mem size = write_loop ds mem size 0

-- The chain, the memory and the number of bytes done.
unfoldable pub read_loop : Chain → Buffer → ℕ → ℕ → Chain × Buffer × ℕ
unfolding node_room
read_loop [] mem size done_size = ([], mem, done_size)
read_loop (d ∷ ds) mem size done_size =
    let n = node_room d size in
    let d1 = record d { offset = d.offset + n } in
    let mem1 = memcpy mem (drop d.offset d.bytes) n in
    let (rest, mem2, done) = read_loop ds mem1 size (done_size + n) in
    if ltb done_size size
    then (if d.more then (d1 ∷ rest, mem2, done) else (d1 ∷ ds, mem1, done_size + n))
    else (d ∷ ds, mem, done_size)

unfoldable pub dblk_read : Chain → Buffer → ℕ → Chain × Buffer × ℕ
unfolding read_loop
dblk_read ds mem size = read_loop ds mem size 0
