-- ===== src/Dblk/Fragment.antt =====
-- `dblk_fragment`: nodes of at most `fsize` bytes over the memory of a block, with no copy. In
-- `dblk_fragment` the allocations of the nodes, which the source does not test, are taken to succeed;
-- `dblk_fragment_alloc` asks the heap for them.
use dts_net.Base.{
  ℕ, zero, suc, ◌+◌, ◌-◌, ◌/◌, ◌%◌, ◌^◌, Bool, true, Option, none, some, List, [], ◌∷◌, map,
}
use dts_net.Base.{if◌then◌else◌, ltb, ◌==◌, drop, replicate}
use dts_net.Dblk.Defs.{Node, Chain, Piece, dblk_size}
use dts_net.Dblk.Alloc.{Heap, malloc}

abbrev pub pieces : Chain → List Piece
pieces ds = map (λ d. record { bytes = d.bytes; size = d.size }) ds

-- The walk over the nodes that a fragment takes whole: where it stops, and `remain_size` there.
unfoldable pub span : Chain → ℕ → Chain × ℕ
span [] remain = ([], remain)
span (f ∷ fs) remain =
    let rest = span fs (remain - f.size) in
    if ltb f.size remain
    then (if f.more then rest else (f ∷ fs, remain - f.size))
    else (f ∷ fs, remain)

-- A node of `dblk_node_new(NULL, 0)`.
abbrev pub blank : Node
blank = record {
  bytes = [];
  size = 0;
  data_malloc = Bool.false;
  node_malloc = true;
  more = Bool.false;
  vsize = 0;
  vmem = [];
  offset = 0;
}

-- `e` from the bytes of `d` behind `offset` on.
abbrev pub fragment_of : Node → ℕ → ℕ → Node
fragment_of d offset fsize = record blank {
  bytes = drop offset d.bytes;
  size = (d.size + 2 ^ 16 - offset % 2 ^ 16) % 2 ^ 16;
  vsize = fsize % 2 ^ 16;
}

-- The fragment that needs bytes of the nodes behind `d`; `vsize` shrinks where they run out.
abbrev pub spanning : Node → ℕ → ℕ → Chain → Chain × ℕ → Node
spanning d offset fsize ds ([], remain) = record (fragment_of d offset fsize) {
  vmem = pieces ds;
  vsize = (fsize + 2 ^ 16 - remain % 2 ^ 16) % 2 ^ 16;
}
spanning d offset fsize ds (f ∷ fs, remain) = record (fragment_of d offset fsize) {
  vmem = pieces ds;
}

-- The loop over the nodes `e` that are left, at `offset` in the first node of the block.
unfoldable pub fragment_loop : ℕ → Chain → ℕ → ℕ → Chain
unfolding span
fragment_loop zero ds offset fsize = []
fragment_loop (suc n) [] offset fsize = replicate (suc n) blank
fragment_loop (suc n) (d ∷ ds) offset fsize =
    let rest = span ds (offset + fsize - d.size) in
    let within = fragment_of d offset fsize ∷ fragment_loop n (d ∷ ds) (offset + fsize) fsize in
    let across = spanning d offset fsize ds rest ∷ fragment_loop n rest.0 rest.1 fsize in
    let exact = fragment_of d offset fsize ∷ fragment_loop n ds 0 fsize in
    if ltb (offset + fsize) d.size
    then within
    else if ltb d.size (offset + fsize)
    then across
    else exact

-- For `fsize` other than 0, by which C divides; `ip_hl_send` passes 1400.
unfoldable pub fragment_count : ℕ → ℕ → ℕ
fragment_count total fsize =
    let n = total / fsize + (if ltb 0 (total % fsize) then 1 else 0) in if n == 0 then 1 else n

unfoldable pub dblk_fragment : Chain → ℕ → Chain
unfolding fragment_loop fragment_count
dblk_fragment [] fsize = []
dblk_fragment (d ∷ ds) fsize =
    let out = fragment_loop (fragment_count (dblk_size (d ∷ ds)) fsize) (d ∷ ds) 0 fsize in
    if d.size == 0 then [] else out

abbrev pub one_more : Option ℕ × Heap → Option ℕ × Heap
one_more (none, h) = (none, h)
one_more (some k, h) = (some (suc k), h)

-- The loop that links the nodes, with `n` requests to go: how many nodes there are in the end. After
-- a refusal that is not the last request, `e->next` is written through NULL, when the next node has
-- been asked for: that is the result `none`.
unfoldable pub new_nodes : ℕ → Heap → Option ℕ × Heap
new_nodes zero h = (some 0, h)
new_nodes (suc n) h =
    let (got, h1) = malloc h in
    let rest = new_nodes n h1 in
    if got then one_more rest else if n == 0 then (some 0, h1) else (none, (malloc h1).1)

abbrev pub fill_nodes : Chain → ℕ → Option ℕ × Heap → Option Chain × Heap
fill_nodes ds fsize (none, h) = (none, h)
fill_nodes ds fsize (some k, h) = (some (fragment_loop k ds 0 fsize), h)

-- `dblk_fragment` with its requests.
unfoldable pub dblk_fragment_alloc : Chain → ℕ → Heap → Option Chain × Heap
unfolding new_nodes
dblk_fragment_alloc [] fsize h = (some [], h)
dblk_fragment_alloc (d ∷ ds) fsize h =
    let made = new_nodes (fragment_count (dblk_size (d ∷ ds)) fsize) h in
    if d.size == 0 then (some [], h) else fill_nodes (d ∷ ds) fsize made
