-- ===== src/Mem/Laws.antt =====
-- The pools keep what a pool promises: an item that is handed out is one that was free, and it is
-- free again once it was given back.
use dts_net.Base.{ℕ, suc, ◌+◌, ◌≡◌, refl, arith, Option, none, some, ap, ap₂, ◌⊎◌, inl, inr}
use dts_net.Base.{true, false, [], ◌∷◌, length, if◌then◌else◌}
use dts_net.Base.{List, zero, ◌++◌, map, replicate, append-nil, append_assoc, sym, ◌∙◌}
use dts_net.Mem.Defs.{Arr, shift, arr_alloc, arr_free, list_alloc, list_free, list_init}

-- The items in use.
abbrev pub in_use : Arr → ℕ
in_use [] = 0
in_use (u ∷ us) = (if u then 1 else 0) + in_use us

-- Where the pool hands out nothing, every item is in use and no flag has changed. Else there is one
-- more item in use than before, and giving the item back restores the flags.
pub arr_alloc-counts :
    (us : Arr)
    → ((arr_alloc us).1 ≡ none) × ((arr_alloc us).0 ≡ us) × (in_use us ≡ length us)
      ⊎ ((i : ℕ) × ((arr_alloc us).1 ≡ some i)
          × (in_use (arr_alloc us).0 ≡ in_use us + 1)
          × (arr_free (arr_alloc us).0 i ≡ us))
unfolding arr_alloc arr_free
arr_alloc-counts [] = inl (refl, refl, refl)
arr_alloc-counts (false ∷ us) = inr (0, refl, omega arith, refl)
arr_alloc-counts (true ∷ us) = elim (arr_alloc-counts us) [
  | inl (e, same, full) ↦ inl (ap shift e, ap (◌∷◌ true) same, omega arith)
  | inr (i, e, more, back) ↦ inr (suc i, ap shift e, omega arith, ap (◌∷◌ true) back)
]

-- The items of an array that are free, in order.
abbrev pub free_items : Arr → List ℕ
free_items [] = []
free_items (u ∷ us) = let rest = map suc (free_items us) in if u then rest else 0 ∷ rest

list_alloc-map :
    (is : List ℕ) → list_alloc (map suc is) ≡ (map suc (list_alloc is).0, shift (list_alloc is).1)
unfolding list_alloc
list_alloc-map [] = refl
list_alloc-map (i ∷ is) = refl

arr_alloc-list_alloc :
    (us : Arr) → (free_items (arr_alloc us).0, (arr_alloc us).1) ≡ list_alloc (free_items us)
unfolding arr_alloc list_alloc
arr_alloc-list_alloc [] = refl
arr_alloc-list_alloc (false ∷ us) = refl
arr_alloc-list_alloc (true ∷ us) =
    ap (λ p. (map suc p.0, shift p.1)) (arr_alloc-list_alloc us)
    ∙ sym (list_alloc-map (free_items us))

-- The numbers from `i` on.
abbrev count_from : ℕ → ℕ → List ℕ
count_from zero i = []
count_from (suc n) i = i ∷ count_from n (suc i)

list_init-count_from : (n i : ℕ) (is : List ℕ) → list_init n i is ≡ is ++ count_from n i
unfolding list_init list_free
list_init-count_from zero i is = sym (append-nil is)
list_init-count_from (suc n) i is =
    list_init-count_from n (suc i) (is ++ (i ∷ []))
    ∙ append_assoc is (i ∷ []) (count_from n (suc i))

map-count_from : (n i : ℕ) → map suc (count_from n i) ≡ count_from n (suc i)
map-count_from zero i = refl
map-count_from (suc n) i = ap (◌∷◌ (suc i)) (map-count_from n (suc i))

free_items-fresh : (n : ℕ) → free_items (replicate n false) ≡ count_from n 0
free_items-fresh zero = refl
free_items-fresh (suc n) =
    ap (λ is. 0 ∷ map suc is) (free_items-fresh n) ∙ ap (◌∷◌ 0) (map-count_from n 0)

-- What `k` requests in a row hand out, with nothing given back between them.
abbrev pub arr_requests : ℕ → Arr → List (Option ℕ)
arr_requests zero us = []
arr_requests (suc k) us = (arr_alloc us).1 ∷ arr_requests k (arr_alloc us).0

abbrev pub list_requests : ℕ → List ℕ → List (Option ℕ)
list_requests zero is = []
list_requests (suc k) is = (list_alloc is).1 ∷ list_requests k (list_alloc is).0

arr_requests-list_requests :
    (k : ℕ) (us : Arr) → arr_requests k us ≡ list_requests k (free_items us)
arr_requests-list_requests zero us = refl
arr_requests-list_requests (suc k) us = ap₂ ◌∷◌ (ap (λ p. p.1) (arr_alloc-list_alloc us)) (
    arr_requests-list_requests k (arr_alloc us).0
    ∙ ap (λ p. list_requests k p.0) (arr_alloc-list_alloc us))

-- Any number of requests in a row, with nothing given back between them, get the same items from a
-- fresh array pool of `n` items and from the queue that `MEM_ITEM_LIST_API_INIT` makes: the items in
-- order, and NULL once they are all handed out.
pub array_pool-list_pool :
    (n k : ℕ) → arr_requests k (replicate n false) ≡ list_requests k (list_init n 0 [])
array_pool-list_pool n k =
    arr_requests-list_requests k (replicate n false)
    ∙ ap (list_requests k) (free_items-fresh n ∙ sym (list_init-count_from n 0 []))
