-- ===== src/Dblk/CopyLaws.antt =====
-- `dblk_copy_to` and `dblk_copy_from` against `contents`.
use dts_net.Base.{ℕ, ◌+◌, ◌-◌, ◌≤◌, ◌<◌, min, true, false, [], ◌∷◌, ◌++◌, ◌≡◌, refl, arith}
use dts_net.Base.{Bool-cases, ◌⊎◌, inl, inr, ap, sym, ◌∙◌, if◌then◌else◌, ◌==◌, take, drop, length}
use dts_net.Base.{length-take, length-append, take-append_exact, drop-append_exact}
use dts_net.Base.{
  take-append_le, take-append_ge, take-nil, drop-drop, take-take_le, append-nil, append_assoc,
  take_all,
}
use dts_net.Base.{dec_lt}
use dts_net.Endian.{Buffer}
use dts_net.Dblk.Defs.{Node, Chain, memcpy}
use dts_net.Dblk.Copy.{dblk_node_copy_to, copy_to_loop, dblk_copy_to}
use dts_net.Dblk.Contents.{contents, AreReal}

-- The bytes of the first block of a chain of real nodes.
abbrev pub real_bytes : Chain → Buffer
real_bytes [] = []
real_bytes (d ∷ ds) = take d.size d.bytes ++ (if d.more then real_bytes ds else [])

pub contents-real_bytes : (ds : Chain) → AreReal ds → contents ds ≡ real_bytes ds
contents-real_bytes [] h = refl
contents-real_bytes (d ∷ ds) h = ground (arith, contents-real_bytes ds h.2)

-- Memory whose first bytes are overwritten by `bs`.
abbrev pub paste : Buffer → Buffer → Buffer
paste mem bs = bs ++ drop (length bs) mem

pub memcpy-paste :
    (mem src : Buffer) (n : ℕ) → n ≤ length src → memcpy mem src n ≡ paste mem (take n src)
memcpy-paste mem src n h =
    let e : length (take n src) ≡ n = omega (arith, length-take n src) in rw e

pub paste-append :
    (mem xs ys : Buffer) → xs ++ paste (drop (length xs) mem) ys ≡ paste mem (xs ++ ys)
paste-append mem xs ys = rw (drop-drop, length-append, append_assoc)

pub take_cut :
    (src cs : Buffer) (n size : ℕ)
    → n ≤ length src
    → size ≤ n
    → take size (take n src ++ cs) ≡ take size src
take_cut src cs n size hs h =
    take-append_le size (take n src) cs (omega (arith, length-take n src))
    ∙ take-take_le size n src h

pub take_then :
    (src cs : Buffer) (n size : ℕ)
    → n ≤ length src
    → n ≤ size
    → take size (take n src ++ cs) ≡ take n src ++ take (size - n) cs
take_then src cs n size hs h =
    let e : size ≡ n + (size - n) = omega arith in
    let l : length (take n src) ≡ n = omega (arith, length-take n src) in
    ap (λ k. take k (take n src ++ cs)) e ∙ take-append_ge n (size - n) (take n src) cs l

-- One round of the loop at a real node.
module _ (d : Node) (mem : Buffer) (size : ℕ) (v : d.vsize ≡ 0) (h : d.size ≤ length d.bytes) where
  pub node_copy_whole :
      d.size ≤ size → dblk_node_copy_to d mem size ≡ (paste mem (take d.size d.bytes), d.size)
  unfolding dblk_node_copy_to
  node_copy_whole fits = ground (arith, memcpy-paste mem d.bytes d.size h)

  pub node_copy_cut :
      size ≤ d.size → dblk_node_copy_to d mem size ≡ (paste mem (take size d.bytes), size)
  unfolding dblk_node_copy_to
  node_copy_cut fits = ground (arith, memcpy-paste mem d.bytes size (omega arith))

-- The two ways a round ends, with the rest of the loop left shut.
module _ (d : Node) (ds : Chain) (mem mem1 : Buffer) (size n : ℕ)
    (node : dblk_node_copy_to d mem size ≡ (mem1, n)) where
  copy_stops : (size ≤ n) ⊎ (d.more ≡ false) → copy_to_loop (d ∷ ds) mem size ≡ (mem1, size - n)
  unfolding copy_to_loop
  copy_stops (inl h) = let e : (size - n == 0) ≡ true = ground arith in rw (node, e)
  copy_stops (inr h) = rw (node, h) (ground arith)

  copy_goes_on :
      n < size
      → d.more ≡ true
      → copy_to_loop (d ∷ ds) mem size ≡ (
        take n mem1 ++ (copy_to_loop ds (drop n mem1) (size - n)).0,
        (copy_to_loop ds (drop n mem1) (size - n)).1,
      )
  unfolding copy_to_loop
  copy_goes_on h more = let e : (size - n == 0) ≡ false = ground arith in rw (node, e, more)

-- What the loop leaves: the memory, and the room not used.
abbrev copied : Buffer → Buffer → ℕ → Buffer × ℕ
copied mem bs size = (paste mem (take size bs), size - length bs)

copied_short :
    (mem src cs : Buffer) (n size : ℕ)
    → n ≤ length src
    → size ≤ n
    → copied mem (take n src ++ cs) size ≡ (paste mem (take size src), size - size)
copied_short mem src cs n size hs h =
    let l : size - length (take n src ++ cs) ≡ size - size =
      omega (arith, length-append (take n src) cs, length-take n src) in
    rw (l, take_cut src cs n size hs h)

copied_then :
    (mem src cs : Buffer) (n size : ℕ)
    → n ≤ length src
    → n ≤ size
    → copied mem (take n src ++ cs) size
      ≡ (take n src ++ (copied (drop n mem) cs (size - n)).0, (copied (drop n mem) cs (size - n)).1)
copied_then mem src cs n size hs h =
    let here : length (take n src) ≡ n = omega (arith, length-take n src) in
    let l : size - length (take n src ++ cs) ≡ size - n - length cs =
      omega (arith, length-append (take n src) cs) in
    let whole : paste mem (take n src ++ take (size - n) cs)
        ≡ take n src ++ paste (drop n mem) (take (size - n) cs) =
      sym (rw here at (paste-append mem (take n src) (take (size - n) cs))) in
    rw (l, take_then src cs n size hs h) (ap (λ m. (m, size - n - length cs)) whole)

copy_to_loop-real :
    (ds : Chain) (mem : Buffer) (size : ℕ)
    → AreReal ds
    → copy_to_loop ds mem size ≡ copied mem (real_bytes ds) size
copy_to_loop-real [] mem size h = unfold copy_to_loop in rw take-nil (ground arith)
copy_to_loop-real (d ∷ ds) mem size h = elim (dec_lt d.size size) [
  | yes fits ↦
      let src = take d.size d.bytes in
      let here : length src ≡ d.size = omega (arith, length-take d.size d.bytes) in
      let node = node_copy_whole d mem size h.0 h.1 (omega arith) in
      elim (Bool-cases d.more) [
        | inl more ↦
            rw
              (
                copy_goes_on d ds mem (paste mem src) size d.size node fits more,
                more,
                copied_then mem d.bytes (real_bytes ds) d.size size h.1 (omega arith),
              )
              (rw (
                take-append_exact d.size src (drop (length src) mem) here,
                drop-append_exact d.size src (drop (length src) mem) here,
                here,
                copy_to_loop-real ds (drop d.size mem) (size - d.size) h.2,
              ))
        | inr last ↦
            rw
              (
                copy_stops d ds mem (paste mem src) size d.size node (inr last),
                last,
                append-nil,
                take_all size src (omega arith),
              )
              (ap (λ k. (paste mem src, size - k)) (sym here))
      ]
  | no short ↦
      let node = node_copy_cut d mem size h.0 h.1 (omega arith) in
      copy_stops d ds mem _ size size node (inl (omega arith))
      ∙ sym (copied_short mem d.bytes _ d.size size h.1 (omega arith))
]

-- Copying a block of real nodes to memory writes its bytes in order, cut at `size`, leaves the
-- memory behind them alone, and returns the number of bytes written.
pub dblk_copy_to-contents :
    (ds : Chain) (mem : Buffer) (size : ℕ)
    → AreReal ds
    → dblk_copy_to ds mem size
      ≡ (paste mem (take size (contents ds)), min size (length (contents ds)))
unfolding dblk_copy_to
dblk_copy_to-contents ds mem size h =
    rw (copy_to_loop-real ds mem size h, contents-real_bytes ds h)
      (ap (λ k. (paste mem (take size (real_bytes ds)), k)) (omega arith))
