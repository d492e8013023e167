-- ===== src/Dblk/FragmentLaws.antt =====
-- `dblk_fragment` of a block of one node.
use dts_net.Base.{
  ℕ, zero, suc, ◌+◌, ◌-◌, ◌*◌, ◌%◌, ◌^◌, ◌≡◌, ◌≤◌, ◌<◌, refl, arith, true, false, [], ◌∷◌, ◌++◌,
}
use dts_net.Base.{ltb, ◌==◌, ◌∙◌, ap, append-nil, take, drop, replicate}
use dts_net.Base.{take-take_le, drop-drop, take-drop-split}
use dts_net.Endian.{Buffer}
use dts_net.Dblk.Defs.{Node, Chain, dblk_node_size, dblk_size}
use dts_net.Dblk.Fragment.{
  fragment_of, fragment_loop, fragment_count, dblk_fragment, spanning, blank,
}
use native.Mathlib.Nat.{div-add-mod', mod-lt}
use dts_net.Base.{dec_lt, ap₂}
use dts_net.Dblk.Contents.{contents, node_bytes}

-- The bytes of all fragments, one after the other.
abbrev pub all_bytes : Chain → Buffer
all_bytes [] = []
all_bytes (d ∷ ds) = node_bytes d ++ all_bytes ds

abbrev pub AreAtMost : ℕ → Chain → Type 0
AreAtMost n [] = Unit {0}
AreAtMost n (d ∷ ds) = (dblk_node_size d ≤ n) × AreAtMost n ds

all_bytes-blank : (n : ℕ) → all_bytes (replicate n blank) ≡ []
all_bytes-blank zero = refl
all_bytes-blank (suc n) = all_bytes-blank n

-- A node with no other memory behind it, of either mode.
node_bytes-take :
    (x : Node) → x.vmem ≡ [] → x.vsize ≤ x.size → node_bytes x ≡ take (dblk_node_size x) x.bytes
unfolding dblk_node_size
node_bytes-take x e h =
    let cut = take-take_le x.vsize x.size x.bytes h in
    let all = append-nil (take x.size x.bytes) in simp (e, all, cut) (ground arith)

module _ (d : Node) (offset fsize : ℕ) (f : 0 < fsize) (fb : fsize < 2 ^ 16) (db : d.size < 2 ^ 16)
    (o : offset ≤ d.size) where
  left : (d.size + 2 ^ 16 - offset % 2 ^ 16) % 2 ^ 16 ≡ d.size - offset
  left = omega arith

  -- A fragment inside the node.
  fragment_of-bytes :
      offset + fsize ≤ d.size
      → (node_bytes (fragment_of d offset fsize) ≡ take fsize (drop offset d.bytes))
        × (dblk_node_size (fragment_of d offset fsize) ≡ fsize)
  fragment_of-bytes h =
      let size : dblk_node_size (fragment_of d offset fsize) ≡ fsize =
        unfold dblk_node_size in ground (arith, left) in
      (
        node_bytes-take (fragment_of d offset fsize) refl (omega (arith, left))
            ∙ ap (λ n. take n (drop offset d.bytes)) size,
        size,
      )

  -- The last fragment, that the node ends.
  spanning-bytes :
      d.size < offset + fsize
      → (node_bytes (spanning d offset fsize [] ([], offset + fsize - d.size))
          ≡ take (d.size - offset) (drop offset d.bytes))
        × (dblk_node_size (spanning d offset fsize [] ([], offset + fsize - d.size)) ≤ fsize)
  spanning-bytes h =
      let x = spanning d offset fsize [] ([], offset + fsize - d.size) in
      let size : dblk_node_size x ≡ d.size - offset =
        unfold dblk_node_size in ground (arith, left) in
      (
        node_bytes-take x refl (omega (arith, left)) ∙ ap (λ n. take n (drop offset d.bytes)) size,
        omega (arith, size),
      )

blanks-IsCut : (n fsize : ℕ) → AreAtMost fsize (replicate n blank)
unfolding dblk_node_size
blanks-IsCut zero fsize = tt
blanks-IsCut (suc n) fsize = (omega arith, blanks-IsCut n fsize)

-- Fragments of at most `fsize` bytes that together are `bytes`.
IsCut : ℕ → Buffer → Chain → Type 0
IsCut fsize bytes ds = (all_bytes ds ≡ bytes) × AreAtMost fsize ds

past_end-IsCut : (n offset fsize : ℕ) → IsCut fsize [] (fragment_loop n [] offset fsize)
unfolding fragment_loop IsCut
past_end-IsCut zero offset fsize = (refl, tt)
past_end-IsCut (suc n) offset fsize = (all_bytes-blank (suc n), blanks-IsCut (suc n) fsize)

-- The loop on the only node of a block.
module _ (d : Node) (fsize : ℕ) (f : 0 < fsize) (fb : fsize < 2 ^ 16) (db : d.size < 2 ^ 16) where
  module _ (n offset : ℕ) where
    within :
        offset + fsize < d.size
        → fragment_loop (suc n) (d ∷ []) offset fsize
          ≡ fragment_of d offset fsize ∷ fragment_loop n (d ∷ []) (offset + fsize) fsize
    unfolding fragment_loop
    within h = let t : ltb (offset + fsize) d.size ≡ true = ground arith in rw t refl

    across :
        d.size < offset + fsize
        → fragment_loop (suc n) (d ∷ []) offset fsize
          ≡ spanning d offset fsize [] ([], offset + fsize - d.size)
            ∷ fragment_loop n [] (offset + fsize - d.size) fsize
    unfolding fragment_loop
    across h =
        let t : ltb (offset + fsize) d.size ≡ false = ground arith in
        let u : ltb d.size (offset + fsize) ≡ true = ground arith in rw (t, u) refl

    exact :
        d.size ≡ offset + fsize
        → fragment_loop (suc n) (d ∷ []) offset fsize
          ≡ fragment_of d offset fsize ∷ fragment_loop n [] 0 fsize
    unfolding fragment_loop
    exact h =
        let t : ltb (offset + fsize) d.size ≡ false = ground arith in
        let u : ltb d.size (offset + fsize) ≡ false = ground arith in rw (t, u) refl

  take_on :
      (offset : ℕ)
      → offset + fsize ≤ d.size
      → take fsize (drop offset d.bytes)
          ++ take (d.size - (offset + fsize)) (drop (offset + fsize) d.bytes)
        ≡ take (d.size - offset) (drop offset d.bytes)
  take_on offset h =
      let e : fsize + (d.size - (offset + fsize)) ≡ d.size - offset = omega arith in
      rw⁻¹ (drop-drop offset fsize d.bytes) (
        take-drop-split fsize (d.size - (offset + fsize)) (drop offset d.bytes)
        ∙ ap (λ k. take k (drop offset d.bytes)) e)

  fragment_loop-IsCut :
      (n offset : ℕ)
      → offset ≤ d.size
      → d.size ≤ offset + n * fsize
      → IsCut fsize
          (take (d.size - offset) (drop offset d.bytes))
          (fragment_loop n (d ∷ []) offset fsize)
  unfolding IsCut
  fragment_loop-IsCut zero offset o h =
      let e : d.size - offset ≡ 0 = omega arith in unfold fragment_loop in (rw e refl, tt)
  fragment_loop-IsCut (suc n) offset o h = elim (dec_lt (offset + fsize) d.size) [
    | yes inside ↦
        let one = fragment_of-bytes d offset fsize f fb db o (omega arith) in
        let rest = fragment_loop-IsCut n (offset + fsize) (omega arith) (omega arith) in
        rw (within n offset inside) (
          ap₂ (λ xs ys. xs ++ ys) one.0 rest.0 ∙ take_on offset (omega arith),
          (omega (arith, one.1), rest.1),
        )
    | no reached ↦ elim (dec_lt d.size (offset + fsize)) [
      | yes beyond ↦
          let one = spanning-bytes d offset fsize f fb db o beyond in
          let rest = past_end-IsCut n (offset + fsize - d.size) fsize in
          rw (across n offset beyond)
            (ap₂ (λ xs ys. xs ++ ys) one.0 rest.0 ∙ append-nil _, (one.1, rest.1))
      | no short ↦
          let one = fragment_of-bytes d offset fsize f fb db o (omega arith) in
          let rest = past_end-IsCut n 0 fsize in
          let e : fsize ≡ d.size - offset = omega arith in
          rw (exact n offset (omega arith)) (
            ap₂ (λ xs ys. xs ++ ys) one.0 rest.0
                ∙ append-nil _
                ∙ ap (λ k. take k (drop offset d.bytes)) e,
            (omega (arith, one.1), rest.1),
          )
    ]
  ]

  enough : d.size ≤ 0 + fragment_count d.size fsize * fsize
  unfolding fragment_count
  enough = grind (arith, div-add-mod' d.size fsize, mod-lt d.size {m = fsize} f)

-- A block of one node with something in it is cut into fragments of at most `fsize` bytes each,
-- that one after the other are the bytes of the node: nothing is lost, added or moved. `fsize` is
-- not 0 and fits 16 bits.
pub dblk_fragment-single :
    (d : Node) (fsize : ℕ)
    → d.more ≡ false
    → d.vsize ≡ 0
    → 0 < d.size
    → d.size < 2 ^ 16
    → 0 < fsize
    → fsize < 2 ^ 16
    → (all_bytes (dblk_fragment (d ∷ []) fsize) ≡ contents (d ∷ []))
      × AreAtMost fsize (dblk_fragment (d ∷ []) fsize)
unfolding dblk_fragment IsCut
dblk_fragment-single d fsize single real nonempty db f fb =
    let some_size : (d.size == 0) ≡ false = ground arith in
    let size : dblk_size (d ∷ []) ≡ d.size =
      unfold dblk_size in unfold dblk_node_size in ground arith in
    let bytes : contents (d ∷ []) ≡ take (d.size - 0) (drop 0 d.bytes) =
      let all = append-nil (take d.size d.bytes) in
      let same : d.size - 0 ≡ d.size = omega arith in ground (arith, all, same) in
    rw (some_size, size, bytes)
      (fragment_loop-IsCut d fsize f fb db (fragment_count d.size fsize) 0 (omega arith)
        (enough d fsize f fb db))
