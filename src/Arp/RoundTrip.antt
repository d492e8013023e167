-- ===== src/Arp/RoundTrip.antt =====
-- What `arp_pack` writes, `arp_unpack` reads.
use dts_net.Base.{
  ℕ, ◌+◌, ◌^◌, ◌≡◌, ◌≤◌, ◌<◌, refl, arith, true, false, ◌∙◌, take, drop, length, ltb, drop-drop,
}
use dts_net.Endian.{byte_at, br16}
use dts_net.Arp.Defs.{ArpPacket, arp_size, arp_write, arp_pack, arp_unpack}
use dts_net.Arp.Blocks.{
  fixed, length-fixed, hrd_back, pro_back, op_back, hln_back, pln_back, b4, sha_back, spa_back,
  tha_back, tpa_back, byte_fixed, br16_fixed,
}

-- A packet whose fields fit their widths, with addresses of the lengths that it tells, and memory
-- for its bytes.
pub record IsPacket (pkt : ArpPacket) : Type 0 where
  pub hrd_fits : pkt.hrd < 2 ^ 16
  pub pro_fits : pkt.pro < 2 ^ 16
  pub op_fits : pkt.op < 2 ^ 16
  pub room : arp_size pkt.hln pkt.pln ≤ pkt.size
  pub memory : pkt.size ≤ length pkt.bytes
  pub sha_fits : pkt.hln ≤ length pkt.sha
  pub spa_fits : pkt.pln ≤ length pkt.spa
  pub tha_fits : pkt.hln ≤ length pkt.tha
  pub tpa_fits : pkt.pln ≤ length pkt.tpa

-- A packet tells the same as another one: the fields, and the addresses up to their lengths.
pub record IsCarried (pkt got : ArpPacket) : Type 0 where
  pub hrd_same : got.hrd ≡ pkt.hrd
  pub pro_same : got.pro ≡ pkt.pro
  pub hln_same : got.hln ≡ pkt.hln
  pub pln_same : got.pln ≡ pkt.pln
  pub op_same : got.op ≡ pkt.op
  pub sha_same : take pkt.hln got.sha ≡ take pkt.hln pkt.sha
  pub spa_same : take pkt.pln got.spa ≡ take pkt.pln pkt.spa
  pub tha_same : take pkt.hln got.tha ≡ take pkt.hln pkt.tha
  pub tpa_same : take pkt.pln got.tpa ≡ take pkt.pln pkt.tpa

-- What is read of a packet whose lengths are known.
abbrev read_packet : ArpPacket → ℕ → ℕ → ArpPacket
read_packet p h l = record p {
  hrd = br16 p.bytes 0;
  pro = br16 p.bytes 2;
  hln = h;
  pln = l;
  op = br16 p.bytes 6;
  sha = drop 8 p.bytes;
  spa = drop (8 + h) p.bytes;
  tha = drop (8 + h + l) p.bytes;
  tpa = drop (8 + h + l + h) p.bytes;
}

arp_unpack-read_packet :
    (p : ArpPacket) (h l : ℕ)
    → byte_at p.bytes 4 ≡ h
    → byte_at p.bytes 5 ≡ l
    → arp_size h l ≤ p.size
    → arp_unpack p ≡ (read_packet p h l, true)
unfolding arp_unpack
arp_unpack-read_packet p h l eh el fits =
    let some_size : ltb p.size 8 ≡ false = ground arith in
    let enough : ltb p.size (arp_size h l) ≡ false = ground arith in
    rw (eh, el, drop-drop, drop-drop, drop-drop, some_size, enough) refl

module _ (pkt : ArpPacket) (ok : IsPacket pkt) where
  memory : arp_size pkt.hln pkt.pln ≤ length pkt.bytes
  memory = omega (arith, ok.room, ok.memory)

  enough : 8 ≤ length pkt.bytes
  enough = omega (arith, memory)

  room : arp_size pkt.hln pkt.pln ≤ length (fixed pkt enough)
  room = omega (arith, length-fixed pkt enough, memory)

  abbrev packed : ArpPacket
  packed = record pkt {
    size = arp_size pkt.hln pkt.pln;
    bytes =
        b4 (fixed pkt enough) pkt.hln pkt.pln pkt.sha pkt.spa pkt.tha pkt.tpa room ok.sha_fits
          ok.spa_fits ok.tha_fits ok.tpa_fits;
  }

  arp_pack-packed : (arp_pack pkt).0 ≡ packed
  unfolding arp_pack arp_write
  arp_pack-packed =
      let fits : ltb pkt.size (arp_size pkt.hln pkt.pln) ≡ false = ground (arith, ok.room) in
      rw fits refl

  at_byte : (q : ℕ) → q < 8 → byte_at packed.bytes q ≡ byte_at (fixed pkt enough) q
  at_byte =
      byte_fixed (fixed pkt enough) pkt.hln pkt.pln pkt.sha pkt.spa pkt.tha pkt.tpa room ok.sha_fits
        ok.spa_fits ok.tha_fits ok.tpa_fits

  at_word : (q : ℕ) → q + 2 ≤ 8 → br16 packed.bytes q ≡ br16 (fixed pkt enough) q
  at_word =
      br16_fixed (fixed pkt enough) pkt.hln pkt.pln pkt.sha pkt.spa pkt.tha pkt.tpa room ok.sha_fits
        ok.spa_fits ok.tha_fits ok.tpa_fits

  read-IsCarried : IsCarried pkt (read_packet packed pkt.hln pkt.pln)
  read-IsCarried = record {
    hrd_same = at_word 0 (omega arith) ∙ hrd_back pkt enough ok.hrd_fits;
    pro_same = at_word 2 (omega arith) ∙ pro_back pkt enough ok.pro_fits;
    hln_same = refl;
    pln_same = refl;
    op_same = at_word 6 (omega arith) ∙ op_back pkt enough ok.op_fits;
    sha_same =
        sha_back (fixed pkt enough) pkt.hln pkt.pln pkt.sha pkt.spa pkt.tha pkt.tpa room ok.sha_fits
          ok.spa_fits ok.tha_fits ok.tpa_fits;
    spa_same =
        spa_back (fixed pkt enough) pkt.hln pkt.pln pkt.sha pkt.spa pkt.tha pkt.tpa room ok.sha_fits
          ok.spa_fits ok.tha_fits ok.tpa_fits;
    tha_same =
        tha_back (fixed pkt enough) pkt.hln pkt.pln pkt.sha pkt.spa pkt.tha pkt.tpa room ok.sha_fits
          ok.spa_fits ok.tha_fits ok.tpa_fits;
    tpa_same =
        tpa_back (fixed pkt enough) pkt.hln pkt.pln pkt.sha pkt.spa pkt.tha pkt.tpa room ok.sha_fits
          ok.spa_fits ok.tha_fits ok.tpa_fits;
  }

  arp_unpack-packed : arp_unpack packed ≡ (read_packet packed pkt.hln pkt.pln, true)
  arp_unpack-packed =
      arp_unpack-read_packet packed pkt.hln pkt.pln (at_byte 4 (omega arith) ∙ hln_back pkt enough)
        (at_byte 5 (omega arith) ∙ pln_back pkt enough) (omega arith)

-- A packet whose fields fit their widths, whose addresses have the lengths it tells and which has
-- room for its bytes is accepted by `arp_unpack` after `arp_pack`, with the same fields and the same
-- addresses up to their lengths.
pub arp_unpack-arp_pack :
    (pkt : ArpPacket)
    → IsPacket pkt
    → ((arp_unpack (arp_pack pkt).0).1 ≡ true) × IsCarried pkt (arp_unpack (arp_pack pkt).0).0
arp_unpack-arp_pack pkt ok =
    rw (arp_pack-packed pkt ok, arp_unpack-packed pkt ok) (refl, read-IsCarried pkt ok)
