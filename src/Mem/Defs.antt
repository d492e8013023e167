-- ===== src/Mem/Defs.antt =====
-- `MEM_ITEM_ARR_API` and `MEM_ITEM_LIST_API`. An item is its index in the array; the list library
-- (external) keeps the sequence of the items.
use dts_net.Base.{ℕ, zero, suc, Bool, true, false, Option, none, some, List, [], ◌∷◌, ◌++◌}
use dts_net.Base.{if◌then◌else◌, set}
use dts_net.Dblk.{Heap, malloc, free}

-- The flags `used` of an array of items.
abbrev pub Arr : Type 0
Arr = List Bool

abbrev pub shift : Option ℕ → Option ℕ
shift none = none
shift (some i) = some (suc i)

-- `mem_alloc_...` of dts_net_mem_arr.c: the first item that is not in use.
unfoldable pub arr_alloc : Arr → Arr × Option ℕ
arr_alloc [] = ([], none)
arr_alloc (u ∷ us) =
    let (rest, i) = arr_alloc us in if u then (u ∷ rest, shift i) else (true ∷ us, some 0)

-- `mem_free_...` of dts_net_mem_arr.c
unfoldable pub arr_free : Arr → ℕ → Arr
arr_free us i = set us i false

-- `mem_alloc_...` and `mem_free_...` of dts_net_mem_list.c, for the queue of the free items.
unfoldable pub list_alloc : List ℕ → List ℕ × Option ℕ
list_alloc [] = ([], none)
list_alloc (i ∷ is) = (is, some i)

unfoldable pub list_free : List ℕ → ℕ → List ℕ
list_free is i = is ++ i ∷ []

-- `MEM_ITEM_LIST_API_INIT`: `count` items from `i` on are put into the queue.
unfoldable pub list_init : ℕ → ℕ → List ℕ → List ℕ
list_init zero i is = is
list_init (suc count) i is = list_init count (suc i) (list_free is i)

-- dts_net_mem_malloc.c: an item is memory of its own.
unfoldable pub malloc_alloc : Heap → Bool × Heap
malloc_alloc h = malloc h

unfoldable pub malloc_free : Heap → Heap
malloc_free h = free h
