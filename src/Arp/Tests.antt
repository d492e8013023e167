-- ===== src/Arp/Tests.antt =====
-- A concrete packet that fits its widths.
use dts_net.Base.{arith, [], ◌∷◌, replicate}
use dts_net.Arp.Defs.{ArpPacket, arp_op_req}
use dts_net.Arp.RoundTrip.{IsPacket}

abbrev question : ArpPacket
question = record {
  hrd = 1;
  pro = 0x0800;
  hln = 6;
  pln = 4;
  op = arp_op_req;
  sha = 2 ∷ 0 ∷ 0 ∷ 0 ∷ 0 ∷ 7 ∷ [];
  spa = 10 ∷ 0 ∷ 0 ∷ 7 ∷ [];
  tha = replicate 6 0;
  tpa = 10 ∷ 0 ∷ 0 ∷ 1 ∷ [];
  bytes = replicate 32 0xcc;
  size = 32;
}

question-IsPacket : IsPacket question
question-IsPacket = record {
  hrd_fits = omega arith;
  pro_fits = omega arith;
  op_fits = omega arith;
  room = omega arith;
  memory = omega arith;
  sha_fits = omega arith;
  spa_fits = omega arith;
  tha_fits = omega arith;
  tpa_fits = omega arith;
}
