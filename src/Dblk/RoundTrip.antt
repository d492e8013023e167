-- ===== src/Dblk/RoundTrip.antt =====
-- `dblk_copy_from`, and what `dblk_copy_to` gives back of it.
use dts_net.Base.{ℕ, ◌+◌, ◌-◌, ◌≡◌, ◌≤◌, ◌<◌, refl, arith, true, false, [], ◌∷◌, ◌++◌, min}
use dts_net.Base.{
  if◌then◌else◌, ltb, Bool-cases, inl, inr, ◌∙◌, ap, sym, take, drop, length, length-take,
  length-append, length-drop,
}
use dts_net.Base.{
  dec_lt, append-nil, ap₂, take-append_le, take-append_ge, take-append_exact, take-take_le,
  take-drop-split,
}
use dts_net.Endian.{Buffer}
use dts_net.Dblk.Defs.{Node, Chain, memcpy}
use dts_net.Dblk.Copy.{copy_from_loop, dblk_copy_from, dblk_copy_to}
use dts_net.Dblk.Contents.{contents, node_bytes, AreReal}
use dts_net.Dblk.CopyLaws.{real_bytes, contents-real_bytes, paste, dblk_copy_to-contents}

length-memcpy :
    (dst src : Buffer) (n : ℕ)
    → n ≤ length src
    → n ≤ length dst
    → length (memcpy dst src n) ≡ length dst
length-memcpy dst src n hs hd =
    omega (arith, length-append (take n src) (drop n dst), length-take n src, length-drop n dst)

-- The node that a round leaves.
abbrev pub filled : Node → Buffer → ℕ → Node
filled d mem n = record d { bytes = memcpy d.bytes mem n }

-- The two ways a round ends, with the rest of the loop left shut.
module _ (d : Node) (ds : Chain) (mem : Buffer) (size : ℕ) where
  fills_short : size ≤ d.size → copy_from_loop (d ∷ ds) mem size ≡ (filled d mem size ∷ ds, 0)
  unfolding copy_from_loop
  fills_short h =
      let t : ltb d.size size ≡ false = ground arith in
      let u : size - size ≡ 0 = omega arith in rw (t, u) refl

  fills_last :
      d.size < size
      → d.more ≡ false
      → copy_from_loop (d ∷ ds) mem size ≡ (filled d mem d.size ∷ ds, size - d.size)
  unfolding copy_from_loop
  fills_last h last = ground arith

  fills_on :
      d.size < size
      → d.more ≡ true
      → copy_from_loop (d ∷ ds) mem size ≡ (
        filled d mem d.size ∷ (copy_from_loop ds (drop d.size mem) (size - d.size)).0,
        (copy_from_loop ds (drop d.size mem) (size - d.size)).1,
      )
  unfolding copy_from_loop
  fills_on h more = ground arith

module _ (d : Node) (ds : Chain) where
  real-more : d.more ≡ true → real_bytes (d ∷ ds) ≡ take d.size d.bytes ++ real_bytes ds
  real-more h = ground arith

  real-last : d.more ≡ false → real_bytes (d ∷ ds) ≡ take d.size d.bytes
  real-last h = let e = append-nil (take d.size d.bytes) in ground (arith, e)

pub memcpy-front :
    (dst src : Buffer) (n : ℕ) → n ≤ length src → take n (memcpy dst src n) ≡ take n src
memcpy-front dst src n h =
    take-append_exact n (take n src) (drop n dst) (omega (arith, length-take n src))

-- What the loop leaves: as many bytes as before, the first `k` of them from `mem`.
record IsFilled (ds : Chain) (mem : Buffer) (k : ℕ) (out : Chain) : Type 0 where
  real : AreReal out
  same : length (real_bytes out) ≡ length (real_bytes ds)
  starts : take k (real_bytes out) ≡ take k mem

module _ (d : Node) (mem : Buffer) (n : ℕ) (v : d.vsize ≡ 0) (h : d.size ≤ length d.bytes)
    (m : n ≤ length mem) (fits : n ≤ d.size) where
  filled-real : d.size ≤ length (filled d mem n).bytes
  filled-real = omega (arith, length-memcpy d.bytes mem n m (omega arith))

  filled-length : length (take d.size (filled d mem n).bytes) ≡ length (take d.size d.bytes)
  filled-length = omega (
    arith,
    length-take d.size (filled d mem n).bytes,
    length-take d.size d.bytes,
    length-memcpy d.bytes mem n m (omega arith),
  )

  filled-front : (rest : Buffer) → take n (take d.size (filled d mem n).bytes ++ rest) ≡ take n mem
  filled-front rest =
      let l = length-take d.size (filled d mem n).bytes in
      take-append_le n (take d.size (filled d mem n).bytes) rest (omega (arith, l, filled-real))
      ∙ take-take_le n d.size (filled d mem n).bytes fits
      ∙ memcpy-front d.bytes mem n m

  fill_here : (ds : Chain) → AreReal ds → IsFilled (d ∷ ds) mem n (filled d mem n ∷ ds)
  fill_here ds r = record {
    real = (v, filled-real, r);
    same = elim (Bool-cases d.more) [
      | inl more ↦
          rw (real-more (filled d mem n) ds more, real-more d ds more)
            (omega (
              arith,
              length-append (take d.size (filled d mem n).bytes) (real_bytes ds),
              length-append (take d.size d.bytes) (real_bytes ds),
              filled-length,
            ))
      | inr last ↦ rw (real-last (filled d mem n) ds last, real-last d ds last) filled-length
    ];
    starts = filled-front (if d.more then real_bytes ds else []);
  }

fill_on :
    (d : Node) (ds out : Chain) (mem : Buffer) (k : ℕ)
    → d.vsize ≡ 0
    → d.size ≤ length d.bytes
    → d.size ≤ length mem
    → d.more ≡ true
    → IsFilled ds (drop d.size mem) k out
    → IsFilled (d ∷ ds) mem (d.size + k) (filled d mem d.size ∷ out)
fill_on d ds out mem k v h m more rest =
    let f = filled d mem d.size in
    let front : take d.size f.bytes ≡ take d.size mem = memcpy-front d.bytes mem d.size m in
    let l = length-take d.size f.bytes in
    let whole = filled-real d mem d.size v h m (omega arith) in
    record {
      real = (v, whole, rest.real);
      same =
          rw (real-more f out more, real-more d ds more)
            (omega (
              arith,
              length-append (take d.size f.bytes) (real_bytes out),
              length-append (take d.size d.bytes) (real_bytes ds),
              filled-length d mem d.size v h m (omega arith),
              rest.same,
            ));
      starts = rw (real-more f out more) (
          take-append_ge d.size k (take d.size f.bytes) (real_bytes out) (omega (arith, l, whole))
          ∙ ap₂ (λ xs ys. xs ++ ys) front rest.starts
          ∙ take-drop-split d.size k mem);
    }

copy_from_loop-IsFilled :
    (ds : Chain) (mem : Buffer) (size : ℕ)
    → AreReal ds
    → size ≤ length mem
    → IsFilled ds mem (min size (length (real_bytes ds))) (copy_from_loop ds mem size).0
copy_from_loop-IsFilled [] mem size h m =
    let none_left : min size 0 ≡ 0 = omega arith in
    rw none_left (unfold copy_from_loop in (record { real = tt; same = refl; starts = refl }))
copy_from_loop-IsFilled (d ∷ ds) mem size h m =
    let l = length-take d.size d.bytes in
    let total = length-append (take d.size d.bytes) (real_bytes ds) in
    elim (dec_lt d.size size) [
      | no short ↦
          let here = fill_here d mem size h.0 h.1 m (omega arith) ds h.2 in
          let e : min size (length (real_bytes (d ∷ ds))) ≡ size = elim (Bool-cases d.more) [
            | inl more ↦ rw (real-more d ds more) (omega (arith, l, total, h.1))
            | inr last ↦ rw (real-last d ds last) (omega (arith, l, h.1))
          ] in
          rw (fills_short d ds mem size (omega arith), e) here
      | yes long ↦ elim (Bool-cases d.more) [
        | inl more ↦
            let e : min size (length (real_bytes (d ∷ ds)))
                ≡ d.size + min (size - d.size) (length (real_bytes ds)) =
              rw (real-more d ds more) (omega (arith, l, total, h.1)) in
            let rest =
              copy_from_loop-IsFilled ds (drop d.size mem) (size - d.size) h.2
                (omega (arith, length-drop d.size mem)) in
            rw (fills_on d ds mem size long more, e)
              (fill_on d ds _ mem _ h.0 h.1 (omega arith) more rest)
        | inr last ↦
            let e : min size (length (real_bytes (d ∷ ds))) ≡ d.size =
              rw (real-last d ds last) (omega (arith, l, h.1)) in
            rw (fills_last d ds mem size long last, e)
              (fill_here d mem d.size h.0 h.1 (omega arith) (omega arith) ds h.2)
      ]
    ]

-- Copying into a block of real nodes and out of it again gives back what was copied in, where the
-- block has room for it; the memory behind it stays as it is.
pub dblk_copy_to-copy_from :
    (ds : Chain) (mem out : Buffer) (size : ℕ)
    → AreReal ds
    → size ≤ length mem
    → size ≤ length (contents ds)
    → dblk_copy_to (dblk_copy_from ds mem size).0 out size ≡ (paste out (take size mem), size)
unfolding dblk_copy_from
dblk_copy_to-copy_from ds mem out size h m room =
    let back = (copy_from_loop ds mem size).0 in
    let done = copy_from_loop-IsFilled ds mem size h m in
    let before = contents-real_bytes ds h in
    let after = contents-real_bytes back done.real in
    let len : length (real_bytes ds) ≡ length (contents ds) = ap (λ b. length b) (sym before) in
    let k : min size (length (real_bytes ds)) ≡ size = omega (arith, len) in
    let starts : take size (real_bytes back) ≡ take size mem = rw k at done.starts in
    let full : min size (length (real_bytes back)) ≡ size = omega (arith, done.same, len) in
    dblk_copy_to-contents back out size done.real ∙ rw (after, starts, full) refl

-- A node with room takes all of it.
pub copy_from-single :
    (d : Node) (mem : Buffer) (size : ℕ)
    → size ≤ d.size
    → (dblk_copy_from (d ∷ []) mem size).0 ≡ filled d mem size ∷ []
unfolding dblk_copy_from
copy_from-single d mem size h = rw (fills_short d [] mem size h) refl

-- A node that is filled to its size holds what came in.
pub filled-bytes :
    (d : Node) (mem : Buffer) (n : ℕ)
    → d.vsize ≡ 0
    → d.size ≡ n
    → n ≤ length mem
    → node_bytes (filled d mem n) ≡ take n mem
filled-bytes d mem n v e m = let front = memcpy-front d.bytes mem n m in ground (arith, front)
