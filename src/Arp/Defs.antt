-- ===== src/Arp/Defs.antt =====
-- `arp_packet_t`, `arp_pack` and `arp_unpack`. A pointer to an address is what lies behind it.
use dts_net.Base.{ℕ, ◌+◌, ◌*◌, Bool, true, false, if◌then◌else◌, ltb, set, drop}
use dts_net.Endian.{Buffer, byte_at, br16, bw16}
use dts_net.Bytes.{copy_at}

pub record ArpPacket : Type 0 where
  pub hrd : ℕ
  pub pro : ℕ
  pub hln : ℕ
  pub pln : ℕ
  pub op : ℕ
  pub sha : Buffer
  pub spa : Buffer
  pub tha : Buffer
  pub tpa : Buffer
  pub bytes : Buffer
  pub size : ℕ

abbrev pub arp_op_req : ℕ
arp_op_req = 1

abbrev pub arp_op_rpl : ℕ
arp_op_rpl = 2

-- `8+pkt->hln*2+pkt->pln*2`
abbrev pub arp_size : ℕ → ℕ → ℕ
arp_size hln pln = 8 + hln * 2 + pln * 2

-- The fixed part and the four addresses.
unfoldable pub arp_write : ArpPacket → Buffer → Buffer
arp_write pkt buf =
    let b = set (set (bw16 pkt.pro (bw16 pkt.hrd buf 0).0 2).0 4 pkt.hln) 5 pkt.pln in
    let b = (bw16 pkt.op b 6).0 in
    let b = copy_at b 8 pkt.sha pkt.hln in
    let b = copy_at b (8 + pkt.hln) pkt.spa pkt.pln in
    let b = copy_at b (8 + pkt.hln + pkt.pln) pkt.tha pkt.hln in
    copy_at b (8 + pkt.hln + pkt.pln + pkt.hln) pkt.tpa pkt.pln

-- The packet, and the number of bytes; 0 where they do not fit.
unfoldable pub arp_pack : ArpPacket → ArpPacket × ℕ
unfolding arp_write
arp_pack pkt =
    let n = arp_size pkt.hln pkt.pln in
    if ltb pkt.size n
    then (pkt, 0)
    else (record pkt { size = n; bytes = arp_write pkt pkt.bytes }, n)

-- The fixed part as it is read.
abbrev read_fixed : ArpPacket → ArpPacket
read_fixed pkt = record pkt {
  hrd = br16 pkt.bytes 0;
  pro = br16 pkt.bytes 2;
  hln = byte_at pkt.bytes 4;
  pln = byte_at pkt.bytes 5;
  op = br16 pkt.bytes 6;
}

unfoldable pub arp_unpack : ArpPacket → ArpPacket × Bool
arp_unpack pkt =
    let p = read_fixed pkt in
    let sha = drop 8 pkt.bytes in
    let spa = drop p.hln sha in
    let tha = drop p.pln spa in
    if ltb pkt.size 8
    then (pkt, false)
    else if ltb pkt.size (arp_size p.hln p.pln)
    then (p, false)
    else (record p { sha = sha; spa = spa; tha = tha; tpa = drop p.hln tha }, true)
