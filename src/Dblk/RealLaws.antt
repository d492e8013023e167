-- ===== src/Dblk/RealLaws.antt =====
-- Nodes in virtual-memory mode: copying them out, and `dblk_list_to_rmem_list`.
use dts_net.Endian.{Buffer}
use dts_net.Base.{
  zero, suc, replicate, ℕ, ◌-◌, ◌≡◌, ◌≤◌, ◌<◌, refl, arith, true, false, List, [], ◌∷◌, ◌++◌, ltb,
  ◌&&◌, ◌==◌, if◌then◌else◌, length,
}
use dts_net.Base.{
  take, drop, length-take, take-append_exact, drop-append_exact, ap, sym, ◌∙◌, dec_lt, Bool-cases,
  inl, inr, take-nil,
}
use dts_net.Dblk.Defs.{
  Node, Chain, Piece, memcpy, dblk_list_has_vmem_node, dblk_node_is_vmem_node, dblk_node_size,
}
use dts_net.Dblk.Alloc.{Heap, malloc}
use dts_net.Dblk.Copy.{
  to_rmem, dblk_list_to_rmem_list, dblk_node_to_rmem_node, dblk_node_copy_to, vmem_copy,
}
use dts_net.Dblk.Contents.{contents, node_bytes, piece_bytes, IsBacked}
use dts_net.Dblk.CopyLaws.{paste, memcpy-paste, paste-append, take_cut, take_then}

-- The memory of each piece is as large as it says.
abbrev pub ArePieces : List Piece → Type 0
ArePieces [] = Unit {0}
ArePieces (v ∷ vs) = (v.size ≤ length v.bytes) × ArePieces vs

-- A step of the walk: `n` bytes of `src`, and the rest of `remain` from what follows.
walk_on :
    (src ps mem : Buffer) (n remain : ℕ)
    → n ≤ length src
    → n ≤ remain
    → take n (memcpy mem src n) ++ paste (drop n (memcpy mem src n)) (take (remain - n) ps)
      ≡ paste mem (take remain (take n src ++ ps))
walk_on src ps mem n remain hs h =
    let l : length (take n src) ≡ n = omega (arith, length-take n src) in
    let whole = rw l at (paste-append mem (take n src) (take (remain - n) ps)) in
    rw
      (
        take-append_exact n (take n src) (drop n mem) l,
        drop-append_exact n (take n src) (drop n mem) l,
        take_then src ps n remain hs h,
      )
      whole

-- The step that ends the walk.
walk_ends :
    (src ps mem : Buffer) (n remain : ℕ)
    → n ≤ length src
    → remain ≤ n
    → memcpy mem src remain ≡ paste mem (take remain (take n src ++ ps))
walk_ends src ps mem n remain hs h =
    memcpy-paste mem src remain (omega arith)
    ∙ ap (λ bs. paste mem bs) (sym (take_cut src ps n remain hs h))

copies_none :
    (src mem : Buffer) (n : ℕ) → (if n == 0 then mem else memcpy mem src n) ≡ memcpy mem src n
copies_none src mem zero = refl
copies_none src mem (suc n) = let e : (suc n == 0) ≡ false = ground arith in rw e refl

vmem_copy-paste :
    (vs : List Piece) (mem : Buffer) (remain : ℕ)
    → ArePieces vs
    → vmem_copy vs mem remain ≡ paste mem (take remain (piece_bytes vs))
unfolding vmem_copy
vmem_copy-paste [] mem remain h = rw (take-nil remain) refl
vmem_copy-paste (v ∷ vs) mem remain h =
    let rest = vmem_copy-paste vs (drop v.size (memcpy mem v.bytes v.size)) (remain - v.size) h.1 in
    let on = walk_on v.bytes (piece_bytes vs) mem v.size remain h.0 in
    elim (dec_lt v.size remain) [
      | yes long ↦
          let nonzero : (remain == 0) ≡ false = ground arith in
          let t : ltb v.size remain ≡ true = ground arith in
          rw (nonzero, t, rest) (on (omega arith))
      | no short ↦
          let t : ltb v.size remain ≡ false = ground arith in
          rw t (
            copies_none v.bytes mem remain
            ∙ walk_ends v.bytes (piece_bytes vs) mem v.size remain h.0 (omega arith))
    ]

-- A node in either mode whose memory is there, copied out as a whole.
module _ (d : Node) (mem : Buffer) (v : 0 < d.vsize) (h : d.size ≤ length d.bytes)
    (ps : ArePieces d.vmem) where
  node_copy_to-vmem :
      dblk_node_copy_to d mem d.vsize
      ≡ (paste mem (take d.vsize (take d.size d.bytes ++ piece_bytes d.vmem)), d.vsize)
  unfolding dblk_node_copy_to
  node_copy_to-vmem =
      let is_vmem : (d.vsize == 0) ≡ false = ground arith in
      let all : ltb d.vsize d.vsize ≡ false = ground arith in
      let walk =
        vmem_copy-paste d.vmem (drop d.size (memcpy mem d.bytes d.size)) (d.vsize - d.size) ps in
      elim (dec_lt d.size d.vsize) [
        | yes spans ↦
            let t : ltb d.size d.vsize ≡ true = ground arith in
            rw (is_vmem, all, t, walk)
              (ap (λ m. (m, d.vsize))
                (walk_on d.bytes (piece_bytes d.vmem) mem d.size d.vsize h (omega arith)))
        | no within ↦
            let t : ltb d.size d.vsize ≡ false = ground arith in
            rw (is_vmem, all, t)
              (ap (λ m. (m, d.vsize))
                (walk_ends d.bytes (piece_bytes d.vmem) mem d.size d.vsize h (omega arith)))
      ]

-- The memory of a node and of its pieces is there.
abbrev pub IsWhole : Node → Type 0
IsWhole d = IsBacked d × ArePieces d.vmem

abbrev pub AreWhole : Chain → Type 0
AreWhole [] = Unit {0}
AreWhole (d ∷ ds) = IsWhole d × AreWhole ds

-- The bytes of a node in virtual-memory mode.
abbrev virtual_bytes : Node → Buffer
virtual_bytes d = take d.vsize (take d.size d.bytes ++ piece_bytes d.vmem)

-- What becomes of such a node.
abbrev made_real : Node → ℕ → Node
made_real d junk = record d {
  data_malloc = true;
  size = d.vsize;
  bytes = paste (replicate d.vsize junk) (virtual_bytes d);
  vsize = 0;
  vmem = [];
}

to_rmem-made_real :
    (d : Node) (junk : ℕ) → IsWhole d → 0 < d.vsize → to_rmem d junk ≡ made_real d junk
unfolding dblk_node_to_rmem_node dblk_node_is_vmem_node
to_rmem-made_real d junk w v =
    let d1 = record d { data_malloc = true } in
    let size : dblk_node_size d ≡ d.vsize = unfold dblk_node_size in ground arith in
    let is_vmem : ltb 0 d.vsize ≡ true = ground arith in
    let copy = node_copy_to-vmem d1 (replicate d.vsize junk) v w.0.0 w.1 in
    rw (size, is_vmem, copy) refl

made_real-bytes :
    (d : Node) (junk : ℕ) → IsWhole d → 0 < d.vsize → node_bytes (made_real d junk) ≡ node_bytes d
made_real-bytes d junk w v =
    let full = virtual_bytes d in
    let l : length full ≡ d.vsize =
      omega (arith, length-take d.vsize (take d.size d.bytes ++ piece_bytes d.vmem), w.0.1) in
    let is_vmem : (d.vsize == 0) ≡ false = ground arith in
    let same : node_bytes d ≡ full = rw is_vmem refl in
    take-append_exact d.vsize full (drop (length full) (replicate d.vsize junk)) l ∙ sym same

module _ (d d1 : Node) (ds ds1 : Chain) where
  contents-step :
      node_bytes d1 ≡ node_bytes d
      → d1.more ≡ d.more
      → contents ds1 ≡ contents ds
      → contents (d1 ∷ ds1) ≡ contents (d ∷ ds)
  contents-step b m rest = ground arith

-- Converting a list whose memory is all there changes no byte of its first block, also where it
-- breaks off because a request fails, and keeps the number of nodes. Where it succeeds, no node
-- is in virtual-memory mode any more.
pub dblk_list_to_rmem_list-contents :
    (ds : Chain) (h : Heap)
    → AreWhole ds
    → (contents (dblk_list_to_rmem_list ds h).0 ≡ contents ds)
      × (length (dblk_list_to_rmem_list ds h).0 ≡ length ds)
      × (((dblk_list_to_rmem_list ds h).2
            && dblk_list_has_vmem_node (dblk_list_to_rmem_list ds h).0)
          ≡ false)
unfolding dblk_list_to_rmem_list dblk_list_has_vmem_node dblk_node_is_vmem_node
dblk_list_to_rmem_list-contents [] h w = (refl, refl, refl)
dblk_list_to_rmem_list-contents (d ∷ ds) h w = elim (dec_lt 0 d.vsize) [
  | yes v ↦
      let rest = dblk_list_to_rmem_list-contents ds (malloc h).1 w.1 in
      let is_vmem : ltb 0 d.vsize ≡ true = ground arith in
      let made = to_rmem-made_real d h.junk w.0 v in
      let same = made_real-bytes d h.junk w.0 v in
      elim (Bool-cases (malloc h).0) [
        | inl got ↦
            rw (is_vmem, got, made)
              (
                contents-step d (made_real d h.junk) ds (dblk_list_to_rmem_list ds (malloc h).1).0
                    same refl rest.0,
                ap (λ n. suc n) rest.1,
                rest.2,
              )
        | inr refused ↦ rw (is_vmem, refused) (refl, refl, refl)
      ]
  | no r ↦
      let rest = dblk_list_to_rmem_list-contents ds h w.1 in
      let is_real : ltb 0 d.vsize ≡ false = ground arith in
      rw is_real (
        contents-step d d ds (dblk_list_to_rmem_list ds h).0 refl refl rest.0,
        ap (λ n. suc n) rest.1,
        rw is_real rest.2,
      )
]
