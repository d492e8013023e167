-- ===== src/EtherArp/Send.antt =====
-- Asking for an address, answering, and `ip_ether_send`. A result is `none` where C reads through
-- the NULL that `ether_arp_get_ip` gives for an interface that is not registered.
use dts_net.Base.{
  ℕ, zero, suc, ◌+◌, ◌-◌, ◌*◌, Bool, true, false, Option, none, some, List, [], ◌∷◌, replicate,
}
use dts_net.Base.{if◌then◌else◌, ◌==◌, ◌||◌, take, drop, length}
use dts_net.Endian.{Buffer}
use dts_net.Bytes.{clear}
use dts_net.Dblk.{Chain, Heap, malloc, free, dblk_node_init, dblk_delete}
use dts_net.Arp.{ArpPacket, arp_op_req, arp_op_rpl, arp_pack, arp_unpack}
use dts_net.Ether.{EtherFrame, Wire, ether_type_arp, ether_type_ip, ether_hl_send}
use dts_net.Ip.{Ip, IpAddr, ip_addr_broadcast, is_nil}
use dts_net.EtherArp.Defs.{FindLib, Ether, Nif, ArpItem}
use dts_net.EtherArp.Table.{matches, Clock, ArpTable, learn, nif_of_addr, ether_arp_get_ip}

abbrev pub broadcast_address : Buffer
broadcast_address = replicate 6 0xff

-- The target's hardware address points into the packet itself, where the zeros stand.
unfoldable pub ether_arp_ask_ip : ArpPacket → Buffer → Buffer → Buffer → ArpPacket × ℕ
ether_arp_ask_ip pkt source_mac source_ip target_ip =
    let b = clear pkt.bytes 28 in
    arp_pack (record pkt {
      hrd = 1;
      pro = ether_type_ip;
      hln = 6;
      pln = 4;
      op = arp_op_req;
      sha = source_mac;
      spa = source_ip;
      tha = drop 18 b;
      tpa = target_ip;
      bytes = b;
    })

-- A frame on the stack, of `size` bytes; `junk` is what they hold.
abbrev pub new_frame : ℕ → ℕ → Buffer → ℕ → Chain → EtherFrame
new_frame junk size dest kind payload = record {
  dest_mac_addr = dest;
  src_mac_addr = [];
  payload = payload;
  kind = kind;
  crc = 0;
  bytes = replicate size junk;
  size = size;
}

-- The packet of 32 bytes on the stack.
abbrev pub new_packet : ℕ → ArpPacket
new_packet junk = record {
  hrd = 0;
  pro = 0;
  hln = 0;
  pln = 0;
  op = 0;
  sha = [];
  spa = [];
  tha = [];
  tpa = [];
  bytes = replicate 32 junk;
  size = 32;
}

-- A packet in a frame of 64 bytes.
abbrev send_packet : ℕ → Ether → Buffer → ArpPacket × ℕ → Wire → Wire
send_packet junk eth dest (pkt, n) wire =
    (ether_hl_send eth.mac_address
      (new_frame junk 64 dest ether_type_arp (dblk_node_init pkt.bytes n ∷ [])) wire).1

ask : ℕ → Ether → Option Ip → Buffer → Wire → Option (Option Buffer × Wire)
ask junk eth none target wire = none
ask junk eth (some ip) target wire = some (
  none,
  send_packet junk eth broadcast_address
      (ether_arp_ask_ip (new_packet junk) eth.mac_address ip.addr.v4 target) wire,
)

unfoldable pub known_or_ask :
    ℕ → Ether → Option Ip → Buffer → Wire → Option ArpItem → Option (Option Buffer × Wire)
unfolding ask
known_or_ask junk eth ip target wire none = ask junk eth ip target wire
known_or_ask junk eth ip target wire (some item) = some (some item.mac, wire)

reply_from : ℕ → Ether → ArpPacket → Option Nif → Wire → Wire
reply_from junk eth p none wire = wire
reply_from junk eth p (some nif) wire =
    let answer = record p {
      op = arp_op_rpl;
      tha = p.sha;
      tpa = p.spa;
      sha = nif.eth.mac_address;
      spa = nif.ip.addr.v4;
      bytes = replicate 32 junk;
      size = 32;
    } in
    send_packet junk eth p.sha (arp_pack answer) wire

-- The table after a reply was learned.
abbrev pub with_wire : Wire → Option ArpTable → Option (ArpTable × Wire)
with_wire wire none = none
with_wire wire (some t) = some (t, wire)

-- What a loop of sends leaves: the chain not sent yet, the heap, and the interface.
pub record Sent : Type 0 where
  pub left : Chain
  pub heap : Heap
  pub wire : Wire

-- The loop of `ip_ether_send` in at most `fuel` rounds; `none` is out of rounds. The frame is the
-- one that the last round left.
unfoldable pub send_loop : ℕ → Ether → EtherFrame → ℕ → Heap → Wire → Option Sent
send_loop zero eth frame retry heap wire = none
send_loop (suc fuel) eth frame retry heap wire =
    let (f, w, taken) = ether_hl_send eth.mac_address frame wire in
    let (rest, h) = dblk_delete frame.payload heap in
    let onward =
      send_loop fuel eth (record f { payload = if taken then rest else frame.payload })
        (if taken then 3 else retry - 1) (if taken then h else heap) w in
    if is_nil frame.payload || retry == 0
    then some (record { left = frame.payload; heap = heap; wire = wire })
    else onward

-- The frame of 2048 bytes, where `malloc` gives it, in rounds enough for every block and its retries.
unfoldable pub send_to_mac : Ether → Buffer → Chain → Heap → Wire → Option (Sent × Bool)
unfolding send_loop
send_to_mac eth dest raw heap wire =
    let (got, h) = malloc heap in
    let frame = new_frame heap.junk 2048 dest ether_type_ip raw in
    let sent : Option (Sent × Bool) = elim (send_loop (length raw * 4 + 4) eth frame 3 h wire) [
      | none ↦ none
      | some s ↦ some (record s { heap = free s.heap }, true)
    ] in
    if got then sent else some (record { left = raw; heap = h; wire = wire }, false)

module _ (lib : FindLib) where
  open lib use {list_find}

  -- The address where it is known; else a request is sent, and the result is NULL.
  unfoldable pub ether_arp_get_mac_address :
      ℕ → List Nif → ArpTable → Ether → Buffer → Wire → Option (Option Buffer × Wire)
  ether_arp_get_mac_address junk nifs table eth target wire =
      known_or_ask junk eth (ether_arp_get_ip lib nifs eth) target wire
        (list_find ArpItem (matches target) table.items)

  -- `ether_arp_ether_recv`: the table and the interface after it.
  unfoldable pub ether_arp_ether_recv :
      ℕ → Clock → List Nif → ArpTable → Ether → ArpPacket → Wire → Option (ArpTable × Wire)
  unfolding learn reply_from
  ether_arp_ether_recv junk clock nifs table eth pkt wire =
      let (p, valid) = arp_unpack pkt in
      let target : IpAddr = record { version = 4; v4 = take 4 p.tpa; netmask = [] } in
      let learned = with_wire wire (learn lib clock table p) in
      let answered : ArpTable × Wire =
        (table, reply_from junk eth p (nif_of_addr lib nifs target) wire) in
      if valid
      then if p.op == arp_op_rpl
        then learned
        else if p.op == arp_op_req
        then some answered
        else some (table, wire)
      else some (table, wire)

  -- `ip_ether_send` of the block `raw`.
  unfoldable pub ip_ether_send :
      ℕ → List Nif → ArpTable → Ether → IpAddr → Chain → Heap → Wire → Option (Sent × Bool)
  unfolding send_to_mac
  ip_ether_send junk nifs table eth dest raw heap wire =
      let known : Option (Sent × Bool) =
        elim (ether_arp_get_mac_address junk nifs table eth dest.v4 wire) [
          | none ↦ none
          | some (none, w) ↦ some (record { left = raw; heap = heap; wire = w }, false)
          | some (some mac, w) ↦ send_to_mac eth mac raw heap w
        ] in
      if ip_addr_broadcast dest then send_to_mac eth broadcast_address raw heap wire else known
