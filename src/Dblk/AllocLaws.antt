-- ===== src/Dblk/AllocLaws.antt =====
-- What the heap looks like after nodes were made or deleted.
use dts_net.Base.{ℕ, zero, suc, ◌+◌, ◌-◌, ◌≡◌, ◌≤◌, refl, arith}
use dts_net.Base.{true, if◌then◌else◌, length, [], ◌∷◌, Option, none, some, replicate}
use dts_net.Dblk.Defs.{Node, Chain, dblk_next, dblk_node_init}
use dts_net.Dblk.Alloc.{
  Heap, malloc, free, free_if, dblk_node_new, dblk_node_new_with_buff, dblk_delete,
}
use dts_net.Dblk.Alloc.{list_delete_loop, dblk_list_delete}

-- The allocations that a node owns.
abbrev pub owned : Node → ℕ
owned d = (if d.data_malloc then 1 else 0) + (if d.node_malloc then 1 else 0)

-- Those of the first block of a chain, and of all its nodes.
abbrev pub owned_block : Chain → ℕ
owned_block [] = 0
owned_block (d ∷ ds) = owned d + (if d.more then owned_block ds else 0)

abbrev pub owned_chain : Chain → ℕ
owned_chain [] = 0
owned_chain (d ∷ ds) = owned d + owned_chain ds

-- Deleting a block frees exactly the allocations that its nodes own, and returns what follows it.
pub dblk_delete-dblk_next :
    (ds : Chain) (h : Heap)
    → ((dblk_delete ds h).0 ≡ dblk_next ds) × ((dblk_delete ds h).1.live ≡ h.live - owned_block ds)
unfolding dblk_delete dblk_next free
dblk_delete-dblk_next [] h = (refl, ground arith)
dblk_delete-dblk_next (d ∷ ds) h =
    let rest = dblk_delete-dblk_next ds (free_if d.node_malloc (free_if d.data_malloc h)) in
    ground (arith, rest.0, rest.1)

owned-next : (ds : Chain) → owned_block ds + owned_chain (dblk_next ds) ≡ owned_chain ds
unfolding dblk_next
owned-next [] = refl
owned-next (d ∷ ds) = ground (arith, owned-next ds)

next-shorter : (d : Node) (ds : Chain) → length (dblk_next (d ∷ ds)) ≤ length ds
unfolding dblk_next
next-shorter d [] = ground arith
next-shorter d (e ∷ es) = ground (arith, next-shorter e es)

list_delete_loop-all :
    (fuel : ℕ) (ds : Chain) (h : Heap)
    → length ds ≤ fuel
    → ((list_delete_loop fuel ds h).0 ≡ [])
      × ((list_delete_loop fuel ds h).1.live ≡ h.live - owned_chain ds)
unfolding list_delete_loop
list_delete_loop-all fuel [] h b = ground arith
list_delete_loop-all zero (d ∷ ds) h b = absurd (omega arith)
list_delete_loop-all (suc fuel) (d ∷ ds) h b =
    let one = dblk_delete-dblk_next (d ∷ ds) h in
    let rest =
      list_delete_loop-all fuel (dblk_next (d ∷ ds)) (dblk_delete (d ∷ ds) h).1
        (omega (arith, next-shorter d ds)) in
    rw (list_delete_loop, one.0) (rest.0, omega (arith, rest.1, one.1, owned-next (d ∷ ds)))

-- The loop of `dblk_list_delete` ends at the end of the list with as many rounds as there are
-- nodes, and then exactly the allocations that the nodes own are freed.
pub dblk_list_delete-all :
    (ds : Chain) (h : Heap)
    → ((list_delete_loop (length ds) ds h).0 ≡ [])
      × ((dblk_list_delete ds h).live ≡ h.live - owned_chain ds)
unfolding dblk_list_delete
dblk_list_delete-all ds h = list_delete_loop-all (length ds) ds h (omega arith)

-- What is left after an allocation that may fail was deleted again.
abbrev pub delete_new : Option Node × Heap → Heap
delete_new (none, h) = h
delete_new (some d, h) = (dblk_delete (d ∷ []) h).1

-- A node with its buffer takes two allocations or none: where either request fails nothing stays
-- allocated, and deleting the node gives both back.
pub dblk_node_new_with_buff-balanced :
    (size : ℕ) (h : Heap) → (delete_new (dblk_node_new_with_buff size h)).live ≡ h.live
unfolding dblk_node_new_with_buff dblk_node_new dblk_node_init malloc free dblk_delete
dblk_node_new_with_buff-balanced size h = ground arith

-- What a granted request for a node with its buffer makes.
abbrev pub fresh : ℕ → ℕ → Node
fresh junk size = record (dblk_node_init (replicate size junk) size) {
  node_malloc = true;
  data_malloc = true;
}

pub new_with_buff-granted :
    (size : ℕ) (h : Heap)
    → ((n : ℕ) → h.grant n ≡ true)
    → (dblk_node_new_with_buff size h).0 ≡ some (fresh h.junk size)
unfolding dblk_node_new_with_buff dblk_node_new malloc
new_with_buff-granted size h all = rw (all h.asked, all (h.asked + 1)) refl
