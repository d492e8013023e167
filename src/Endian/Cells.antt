-- ===== src/Endian/Cells.antt =====
-- What a read sees after a write, byte by byte.
use dts_net.Base.{ℕ, zero, suc, ◌+◌, ◌*◌, ◌/◌, ◌%◌, ◌^◌, ◌≤◌, ◌<◌, bit_and, ◌≡◌, refl, arith}
use dts_net.Base.{[], ◌∷◌, ◌==◌, if◌then◌else◌, length, set}
use dts_net.Base.{length-set, bit_or-shifted, bit_and-mask}
use dts_net.Endian.Defs.{Buffer, byte_at, ◌>>>◌, br16, bw16, br32, bw32}

-- One law for a read of any cell after a write of any cell inside the buffer.
pub byte_at-set :
    (buf : Buffer) (i j v : ℕ)
    → i < length buf
    → byte_at (set buf i v) j ≡ (if i == j then v else byte_at buf j)
byte_at-set [] i j v h = absurd (omega arith)
byte_at-set (x ∷ xs) zero zero v h = ground arith
byte_at-set (x ∷ xs) zero (suc j) v h = ground arith
byte_at-set (x ∷ xs) (suc i) zero v h = ground arith
byte_at-set (x ∷ xs) (suc i) (suc j) v h = ground (arith, byte_at-set xs i j v (omega arith))

pub length-bw16 : (v : ℕ) (buf : Buffer) (p : ℕ) → length (bw16 v buf p).0 ≡ length buf
unfolding bw16
length-bw16 v buf p = rw (length-set, length-set)

pub length-bw32 : (v : ℕ) (buf : Buffer) (p : ℕ) → length (bw32 v buf p).0 ≡ length buf
unfolding bw32
length-bw32 v buf p = simp length-set

-- The cells that a 16-bit big-endian write leaves.
pub byte_at-bw16 :
    (v : ℕ) (buf : Buffer) (p j : ℕ)
    → p + 2 ≤ length buf
    → byte_at (bw16 v buf p).0 j
      ≡ (if p == j then v / 256 % 256 else if p + 1 == j then v % 256 else byte_at buf j)
unfolding bw16
byte_at-bw16 v buf p j h =
    let inner = set buf (p + 1) (bit_and v 0xff) in
    ground (
      arith,
      length-set buf (p + 1) (bit_and v 0xff),
      byte_at-set inner p j (bit_and (v >>> 8) 0xff),
      byte_at-set buf (p + 1) j (bit_and v 0xff),
      bit_and-mask 8 v,
      bit_and-mask 8 (v / 256),
    )

pub br16-sum :
    (buf : Buffer) (p : ℕ)
    → byte_at buf (p + 1) < 256
    → br16 buf p ≡ byte_at buf p * 256 + byte_at buf (p + 1)
unfolding br16
br16-sum buf p h = bit_or-shifted 8 (byte_at buf p) (byte_at buf (p + 1)) h

-- The cells that a 32-bit big-endian write leaves.
pub byte_at-bw32 :
    (v : ℕ) (buf : Buffer) (p j : ℕ)
    → p + 4 ≤ length buf
    → byte_at (bw32 v buf p).0 j ≡ (
        if p == j
        then v / 2 ^ 24 % 256
        else if p + 1 == j
        then v / 2 ^ 16 % 256
        else if p + 2 == j
        then v / 256 % 256
        else if p + 3 == j
        then v % 256
        else byte_at buf j)
unfolding bw32
byte_at-bw32 v buf p j h =
    let b3 = set buf (p + 3) (bit_and v 0xff) in
    let b2 = set b3 (p + 2) (bit_and (v >>> 8) 0xff) in
    let b1 = set b2 (p + 1) (bit_and (v >>> 16) 0xff) in
    let l3 : length b3 ≡ length buf = length-set buf (p + 3) _ in
    let l2 : length b2 ≡ length b3 = length-set b3 (p + 2) _ in
    let l1 : length b1 ≡ length b2 = length-set b2 (p + 1) _ in
    rw
      (
        byte_at-set b1 p j (bit_and (v >>> 24) 0xff) (omega arith),
        byte_at-set b2 (p + 1) j (bit_and (v >>> 16) 0xff) (omega arith),
        byte_at-set b3 (p + 2) j (bit_and (v >>> 8) 0xff) (omega arith),
        byte_at-set buf (p + 3) j (bit_and v 0xff) (omega arith),
        bit_and-mask 8 (v >>> 24),
        bit_and-mask 8 (v >>> 16),
        bit_and-mask 8 (v >>> 8),
        bit_and-mask 8 v,
      )
      refl

pub br32-sum :
    (buf : Buffer) (p : ℕ)
    → byte_at buf (p + 1) < 256
    → byte_at buf (p + 2) < 256
    → byte_at buf (p + 3) < 256
    → br32 buf p
      ≡ byte_at buf p * 2 ^ 24
        + byte_at buf (p + 1) * 2 ^ 16
        + byte_at buf (p + 2) * 2 ^ 8
        + byte_at buf (p + 3)
unfolding br32
br32-sum buf p h1 h2 h3 =
    let a = byte_at buf p in
    let b = byte_at buf (p + 1) in
    let c = byte_at buf (p + 2) in
    ground (
      arith,
      bit_or-shifted 24 a (b * 2 ^ 16) (omega arith),
      bit_or-shifted 16 (a * 256 + b) (c * 2 ^ 8) (omega arith),
      bit_or-shifted 8 (a * 2 ^ 16 + b * 256 + c) (byte_at buf (p + 3)) h3,
    )
