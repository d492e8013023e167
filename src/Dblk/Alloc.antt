-- ===== src/Dblk/Alloc.antt =====
-- `malloc` and `free` (external: `dts_net_malloc`, `dts_net_free`), and what allocates or frees
-- nodes. Whether a request is granted is an input of the model.
use dts_net.Base.{ℕ, zero, suc, ◌+◌, ◌-◌, Bool, true, false, [], ◌∷◌}
use dts_net.Base.{Option, none, some, if◌then◌else◌, replicate, length}
use dts_net.Endian.{Buffer}
use dts_net.Dblk.Defs.{Node, Chain, dblk_node_init}

-- `grant n` says whether the n-th request succeeds, `asked` counts the requests, `live` the
-- allocations not yet freed, and `junk` is what fresh memory holds.
pub record Heap : Type 0 where
  pub grant : ℕ → Bool
  pub asked : ℕ
  pub live : ℕ
  pub junk : ℕ

unfoldable pub malloc : Heap → Bool × Heap
malloc h =
    if h.grant h.asked
    then (true, record h { asked = h.asked + 1; live = h.live + 1 })
    else (false, record h { asked = h.asked + 1 })

unfoldable pub free : Heap → Heap
free h = record h { live = h.live - 1 }

abbrev pub free_if : Bool → Heap → Heap
free_if true h = free h
free_if false h = h

unfoldable pub dblk_node_new : Buffer → ℕ → Heap → Option Node × Heap
dblk_node_new bytes size h =
    let (got, h1) = malloc h in
    if got
    then (some (record (dblk_node_init bytes size) { node_malloc = true }), h1)
    else (none, h1)

with_buff : Option Node × Heap → Option Node × Heap
with_buff (some d, h) = (some (record d { data_malloc = true }), h)
with_buff (none, h) = (none, free h)

unfoldable pub dblk_node_new_with_buff : ℕ → Heap → Option Node × Heap
unfolding with_buff
dblk_node_new_with_buff size h =
    let (got, h1) = malloc h in
    if got then with_buff (dblk_node_new (replicate size h1.junk) size h1) else (none, h1)

-- Deletes the first block of the chain and returns what follows it.
unfoldable pub dblk_delete : Chain → Heap → Chain × Heap
dblk_delete [] h = ([], h)
dblk_delete (p ∷ ps) h =
    let h1 = free_if p.data_malloc h in
    let h2 = free_if p.node_malloc h1 in
    let rest = dblk_delete ps h2 in if p.more then rest else (ps, h2)

-- The loop of `dblk_list_delete` in at most `fuel` rounds, with the chain that is left then.
unfoldable pub list_delete_loop : ℕ → Chain → Heap → Chain × Heap
list_delete_loop fuel [] h = ([], h)
list_delete_loop zero (p ∷ ps) h = (p ∷ ps, h)
list_delete_loop (suc fuel) (p ∷ ps) h =
    let (rest, h1) = dblk_delete (p ∷ ps) h in list_delete_loop fuel rest h1

-- A round deletes a node at least, so a round for each node is enough.
unfoldable pub dblk_list_delete : Chain → Heap → Heap
unfolding list_delete_loop
dblk_list_delete ds h = (list_delete_loop (length ds) ds h).1
