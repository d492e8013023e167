-- ===== src/Dblk/MergeLaws.antt =====
-- `dblk_merge` against the bytes of a block.
use dts_net.Base.{◌+◌, ◌≡◌, refl, arith, Bool, true, false, [], ◌∷◌, ◌++◌, append-nil}
use dts_net.Base.{if◌then◌else◌, Bool-cases, inl, inr, ◌∙◌, ap, sym, append_assoc}
use dts_net.Dblk.Defs.{Node, Chain, dblk_merge, merge_node, dblk_size, dblk_node_size}
use dts_net.Dblk.Contents.{contents, node_bytes}

-- A chain that is one block: `more` is set at each node but the last.
abbrev pub is_block : Chain → Bool
is_block [] = false
is_block (d ∷ []) = if d.more then false else true
is_block (d ∷ ds) = if d.more then is_block ds else false

module _ (d : Node) (ds : Chain) where
  contents-more : d.more ≡ true → contents (d ∷ ds) ≡ node_bytes d ++ contents ds
  contents-more h = ground arith

  contents-last : d.more ≡ false → contents (d ∷ ds) ≡ node_bytes d
  contents-last h = let e = append-nil (node_bytes d) in ground (arith, e)

  merge_goes_on : (n : Node) → d.more ≡ true → merge_node (d ∷ ds) n ≡ d ∷ merge_node ds n
  unfolding merge_node
  merge_goes_on n h = ground arith

  merge_ends :
      (n : Node) → d.more ≡ false → merge_node (d ∷ ds) n ≡ record d { more = true } ∷ n ∷ ds
  unfolding merge_node
  merge_ends n h = ground arith

  size-more : d.more ≡ true → dblk_size (d ∷ ds) ≡ dblk_node_size d + dblk_size ds
  unfolding dblk_size
  size-more h = ground arith

  size-last : d.more ≡ false → dblk_size (d ∷ ds) ≡ dblk_node_size d
  unfolding dblk_size
  size-last h = ground arith

is_block-rest :
    (d : Node) (ds : Chain) → d.more ≡ true → is_block (d ∷ ds) ≡ true → is_block ds ≡ true
is_block-rest d [] more h = ground arith
is_block-rest d (e ∷ es) more h = ground arith

-- What both cases of a merge come to: the node is the last of the block.
record IsMerged (b : Chain) (n : Node) (m : Chain) : Type 0 where
  bytes : contents m ≡ contents b ++ node_bytes n
  size : dblk_size m ≡ dblk_size b + dblk_node_size n

merge_node-IsMerged :
    (b : Chain) (n : Node) → is_block b ≡ true → n.more ≡ false → IsMerged b n (merge_node b n)
unfolding dblk_node_size
merge_node-IsMerged [] n h m = ground arith
merge_node-IsMerged (d ∷ ds) n h m = elim (Bool-cases d.more) [
  | inl more ↦
      let rest = merge_node-IsMerged ds n (is_block-rest d ds more h) m in
      rw (merge_goes_on d ds n more) (record {
        bytes =
            contents-more d (merge_node ds n) more
            ∙ ap (◌++◌ (node_bytes d)) rest.bytes
            ∙ sym (append_assoc (node_bytes d) (contents ds) (node_bytes n))
            ∙ ap (λ xs. xs ++ node_bytes n) (sym (contents-more d ds more));
        size = omega (arith, size-more d (merge_node ds n) more, size-more d ds more, rest.size);
      })
  | inr last ↦
      let d1 = record d { more = true } in
      rw (merge_ends d ds n last) (record {
        bytes =
            contents-more d1 (n ∷ ds) refl
            ∙ rw (contents-last n ds m, contents-last d ds last) refl;
        size = size-more d1 (n ∷ ds) refl ∙ rw (size-last n ds m, size-last d ds last) refl;
      })
]

-- Merging a node, that is a block of its own, into a block: the bytes of the block become its own
-- followed by those of the node, and the size becomes the sum.
pub dblk_merge-contents :
    (b : Chain) (n : Node) (ns : Chain)
    → is_block b ≡ true
    → n.more ≡ false
    → (contents (dblk_merge b (n ∷ ns)) ≡ contents b ++ contents (n ∷ ns))
      × (dblk_size (dblk_merge b (n ∷ ns)) ≡ dblk_size b + dblk_size (n ∷ ns))
unfolding dblk_merge
dblk_merge-contents b n ns h m =
    let merged = merge_node-IsMerged b n h m in
    rw (contents-last n ns m, size-last n ns m) (merged.bytes, merged.size)
