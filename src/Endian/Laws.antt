-- ===== src/Endian/Laws.antt =====
-- Round trips of include/dts/net/endian.h.
use dts_net.Base.{ℕ, ◌+◌, ◌/◌, ◌%◌, ◌^◌, ◌≤◌, ◌≡◌, arith, length}
use dts_net.Endian.Defs.{Buffer, byte_at, br16, bw16, br32, bw32}
use dts_net.Endian.Cells.{byte_at-bw16, byte_at-bw32, br16-sum, br32-sum}

-- Reading back what `bw16` wrote gives the low 16 bits of the value, where both bytes lie inside
-- the buffer.
pub br16-bw16 :
    (v : ℕ) (buf : Buffer) (p : ℕ) → p + 2 ≤ length buf → br16 (bw16 v buf p).0 p ≡ v % 2 ^ 16
br16-bw16 v buf p h =
    ground
      (arith, br16-sum (bw16 v buf p).0 p, byte_at-bw16 v buf p p h, byte_at-bw16 v buf p (p + 1) h)

-- Reading back what `bw32` wrote gives the low 32 bits of the value, where the four bytes lie
-- inside the buffer.
pub br32-bw32 :
    (v : ℕ) (buf : Buffer) (p : ℕ) → p + 4 ≤ length buf → br32 (bw32 v buf p).0 p ≡ v % 2 ^ 32
br32-bw32 v buf p h =
    let at = byte_at-bw32 v buf p in
    let a0 : byte_at (bw32 v buf p).0 p ≡ v / 2 ^ 24 % 256 = ground (arith, at p h) in
    let a1 : byte_at (bw32 v buf p).0 (p + 1) ≡ v / 2 ^ 16 % 256 = ground (arith, at (p + 1) h) in
    let a2 : byte_at (bw32 v buf p).0 (p + 2) ≡ v / 256 % 256 = ground (arith, at (p + 2) h) in
    let a3 : byte_at (bw32 v buf p).0 (p + 3) ≡ v % 256 = ground (arith, at (p + 3) h) in
    let read =
      br32-sum (bw32 v buf p).0 p (rw a1 (omega arith)) (rw a2 (omega arith))
        (rw a3 (omega arith)) in
    omega (arith, read, a0, a1, a2, a3)

-- What `bw16` and `bw32` write, `br16` and `br32` read back, cut to their widths, where the bytes
-- lie inside the buffer.
pub br-bw :
    (v : ℕ) (buf : Buffer) (p : ℕ)
    → p + 4 ≤ length buf
    → (br16 (bw16 v buf p).0 p ≡ v % 2 ^ 16) × (br32 (bw32 v buf p).0 p ≡ v % 2 ^ 32)
br-bw v buf p h = (br16-bw16 v buf p (omega arith), br32-bw32 v buf p h)
