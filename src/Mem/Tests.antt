-- ===== src/Mem/Tests.antt =====
-- The pools on concrete flags.
use dts_net.Base.{replicate, ◌≡◌, refl, some, true, false, [], ◌∷◌}
use dts_net.Mem.Defs.{Arr, arr_alloc, arr_free, list_alloc, list_free, list_init}
use dts_net.Mem.Laws.{arr_requests, list_requests, array_pool-list_pool}

abbrev flags : Arr
flags = true ∷ false ∷ true ∷ []

arr_alloc_second : arr_alloc flags ≡ (true ∷ true ∷ true ∷ [], some 1)
unfolding arr_alloc
arr_alloc_second = refl

list_init_three : list_init 3 0 [] ≡ 0 ∷ 1 ∷ 2 ∷ []
unfolding list_init list_free
list_init_three = refl

list_alloc_first : list_alloc (4 ∷ 5 ∷ []) ≡ (5 ∷ [], some 4)
unfolding list_alloc
list_alloc_first = refl

array_pool-list_pool_example :
    arr_requests 4 (replicate 3 false) ≡ list_requests 4 (list_init 3 0 [])
array_pool-list_pool_example = array_pool-list_pool 3 4

-- After an item was given back the two differ: the array hands out the lowest, the queue the oldest.
arr_after_free : (arr_alloc (arr_free (true ∷ false ∷ false ∷ []) 0)).1 ≡ some 0
unfolding arr_alloc arr_free
arr_after_free = refl

list_after_free : (list_alloc (list_free (1 ∷ 2 ∷ []) 0)).1 ≡ some 1
unfolding list_alloc list_free
list_after_free = refl
