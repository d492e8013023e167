-- ===== src/Arp/Blocks.antt =====
-- The bytes that `arp_pack` leaves: the fixed part, and four blocks behind it.
use dts_net.Base.{ℕ, ◌+◌, ◌%◌, ◌^◌, ◌≡◌, ◌/◌, ◌==◌, if◌then◌else◌, ◌≤◌, ◌<◌, refl, arith, ◌∙◌, inl}
use dts_net.Base.{take, set, length, length-set}
use dts_net.Endian.{Buffer, byte_at, br16, bw16, byte_at-bw16, byte_at-set, length-bw16, br16-sum}
use dts_net.Bytes.{
  copy_at, slice, slice-copy_at, slice-copy_at_other, byte_at-copy_at_other, length-copy_at,
}
use dts_net.Arp.Defs.{ArpPacket, arp_size}

-- Four blocks behind each other, from 8 on.
module _ (b : Buffer) (h p : ℕ) (sha spa tha tpa : Buffer) (room : arp_size h p ≤ length b)
    (sha_fits : h ≤ length sha) (spa_fits : p ≤ length spa) (tha_fits : h ≤ length tha)
    (tpa_fits : p ≤ length tpa) where
  abbrev b1 : Buffer
  b1 = copy_at b 8 sha h

  abbrev b2 : Buffer
  b2 = copy_at b1 (8 + h) spa p

  abbrev b3 : Buffer
  b3 = copy_at b2 (8 + h + p) tha h

  abbrev pub b4 : Buffer
  b4 = copy_at b3 (8 + h + p + h) tpa p

  fits0 : 8 + h ≤ length b
  fits0 = omega arith

  fits1 : 8 + h + p ≤ length b1
  fits1 = omega (arith, length-copy_at b sha 8 h fits0 sha_fits)

  fits2 : 8 + h + p + h ≤ length b2
  fits2 = omega (
    arith,
    length-copy_at b sha 8 h fits0 sha_fits,
    length-copy_at b1 spa (8 + h) p fits1 spa_fits,
  )

  fits3 : 8 + h + p + h + p ≤ length b3
  fits3 = omega (
    arith,
    length-copy_at b sha 8 h fits0 sha_fits,
    length-copy_at b1 spa (8 + h) p fits1 spa_fits,
    length-copy_at b2 tha (8 + h + p) h fits2 tha_fits,
  )

  -- What lies before a block is not touched by those behind it.
  slice_before4 : (q n : ℕ) → q + n ≤ 8 + h + p + h → slice b4 q n ≡ slice b3 q n
  slice_before4 q n l =
      slice-copy_at_other b3 tpa (8 + h + p + h) p fits3 tpa_fits q n (omega (arith, fits3)) (inl l)

  slice_before3 : (q n : ℕ) → q + n ≤ 8 + h + p → slice b4 q n ≡ slice b2 q n
  slice_before3 q n l =
      slice_before4 q n (omega arith)
      ∙ slice-copy_at_other b2 tha (8 + h + p) h fits2 tha_fits q n (omega (arith, fits2)) (inl l)

  slice_before2 : (q n : ℕ) → q + n ≤ 8 + h → slice b4 q n ≡ slice b1 q n
  slice_before2 q n l =
      slice_before3 q n (omega arith)
      ∙ slice-copy_at_other b1 spa (8 + h) p fits1 spa_fits q n (omega (arith, fits1)) (inl l)

  pub sha_back : slice b4 8 h ≡ take h sha
  sha_back = slice_before2 8 h (omega arith) ∙ slice-copy_at b sha 8 h fits0 sha_fits

  pub spa_back : slice b4 (8 + h) p ≡ take p spa
  spa_back = slice_before3 (8 + h) p (omega arith) ∙ slice-copy_at b1 spa (8 + h) p fits1 spa_fits

  pub tha_back : slice b4 (8 + h + p) h ≡ take h tha
  tha_back =
      slice_before4 (8 + h + p) h (omega arith) ∙ slice-copy_at b2 tha (8 + h + p) h fits2 tha_fits

  pub tpa_back : slice b4 (8 + h + p + h) p ≡ take p tpa
  tpa_back = slice-copy_at b3 tpa (8 + h + p + h) p fits3 tpa_fits

  pub byte_fixed : (q : ℕ) → q < 8 → byte_at b4 q ≡ byte_at b q
  byte_fixed q l =
      byte_at-copy_at_other b3 tpa (8 + h + p + h) p fits3 tpa_fits q (inl (omega arith))
      ∙ (byte_at-copy_at_other b2 tha (8 + h + p) h fits2 tha_fits q (inl (omega arith))
          ∙ (byte_at-copy_at_other b1 spa (8 + h) p fits1 spa_fits q (inl (omega arith))
              ∙ byte_at-copy_at_other b sha 8 h fits0 sha_fits q (inl l)))

  pub br16_fixed : (q : ℕ) → q + 2 ≤ 8 → br16 b4 q ≡ br16 b q
  unfolding br16
  br16_fixed q l = ground (arith, byte_fixed q (omega arith), byte_fixed (q + 1) (omega arith))

-- The fixed part.
module _ (pkt : ArpPacket) (room : 8 ≤ length pkt.bytes) where
  abbrev pub fixed : Buffer
  fixed =
      let b = set (set (bw16 pkt.pro (bw16 pkt.hrd pkt.bytes 0).0 2).0 4 pkt.hln) 5 pkt.pln in
      (bw16 pkt.op b 6).0

  abbrev w1 : Buffer
  w1 = (bw16 pkt.hrd pkt.bytes 0).0

  abbrev w2 : Buffer
  w2 = (bw16 pkt.pro w1 2).0

  abbrev w3 : Buffer
  w3 = set w2 4 pkt.hln

  abbrev w4 : Buffer
  w4 = set w3 5 pkt.pln

  length-w1 : length w1 ≡ length pkt.bytes
  length-w1 = length-bw16 pkt.hrd pkt.bytes 0

  length-w2 : length w2 ≡ length pkt.bytes
  length-w2 = length-bw16 pkt.pro w1 2 ∙ length-w1

  length-w3 : length w3 ≡ length pkt.bytes
  length-w3 = length-set w2 4 pkt.hln ∙ length-w2

  length-w4 : length w4 ≡ length pkt.bytes
  length-w4 = length-set w3 5 pkt.pln ∙ length-w3

  pub length-fixed : length fixed ≡ length pkt.bytes
  length-fixed = length-bw16 pkt.op w4 6 ∙ length-w4

  byte_at-fixed :
      (q : ℕ)
      → byte_at fixed q ≡ (
          if 6 == q
          then pkt.op / 256 % 256
          else if 7 == q
          then pkt.op % 256
          else if 5 == q
          then pkt.pln
          else if 4 == q
          then pkt.hln
          else if 2 == q
          then pkt.pro / 256 % 256
          else if 3 == q
          then pkt.pro % 256
          else if 0 == q
          then pkt.hrd / 256 % 256
          else if 1 == q
          then pkt.hrd % 256
          else byte_at pkt.bytes q)
  byte_at-fixed q =
      rw
        (
          byte_at-bw16 pkt.op w4 6 q (omega (arith, length-w4)),
          byte_at-set w3 5 q pkt.pln (omega (arith, length-w3)),
          byte_at-set w2 4 q pkt.hln (omega (arith, length-w2)),
          byte_at-bw16 pkt.pro w1 2 q (omega (arith, length-w1)),
          byte_at-bw16 pkt.hrd pkt.bytes 0 q (omega arith),
        )
        refl

  fixed_head :
      {v : ℕ} (q : ℕ)
      → v < 2 ^ 16
      → byte_at fixed q ≡ v / 256 % 256
      → byte_at fixed (q + 1) ≡ v % 256
      → br16 fixed q ≡ v
  fixed_head q small hi lo = ground (arith, br16-sum fixed q (omega (arith, lo)), hi, lo)

  pub hrd_back : pkt.hrd < 2 ^ 16 → br16 fixed 0 ≡ pkt.hrd
  hrd_back l = fixed_head 0 l (byte_at-fixed 0) (byte_at-fixed 1)

  pub pro_back : pkt.pro < 2 ^ 16 → br16 fixed 2 ≡ pkt.pro
  pro_back l = fixed_head 2 l (byte_at-fixed 2) (byte_at-fixed 3)

  pub op_back : pkt.op < 2 ^ 16 → br16 fixed 6 ≡ pkt.op
  op_back l = fixed_head 6 l (byte_at-fixed 6) (byte_at-fixed 7)

  pub hln_back : byte_at fixed 4 ≡ pkt.hln
  hln_back = byte_at-fixed 4

  pub pln_back : byte_at fixed 5 ≡ pkt.pln
  pln_back = byte_at-fixed 5
