-- ===== src/Tcp/Send.antt =====
-- Sending: `tcp_ip_send`, control segments, data segments, the FIN, and retransmission.
use dts_net.Base.{
  ℕ, ◌+◌, ◌%◌, ◌^◌, bit_or, Bool, true, false, Option, none, some, List, [], ◌∷◌, ◌++◌,
}
use dts_net.Base.{if◌then◌else◌, ltb, ◌==◌, ◌&&◌, take, replicate, length}
use dts_net.Endian.{Buffer}
use dts_net.Dblk.{Chain, Node, Heap, malloc, free, dblk_copy, dblk_delete, dblk_node_init}
use dts_net.Dblk.{dblk_node_new_with_buff, dblk_list_delete}
use dts_net.Ip.{IpAddr, IpDatagram, ip_protocol_tcp}
use dts_net.Tcp.Defs.{ListLib, Segment, Tcp, Net, Conn, stopped, started}
use dts_net.Tcp.Defs.{seg_flag_ack, seg_flag_fin, tcp_segment_length}
use dts_net.Tcp.Seq.{sncmp, ls, le}
use dts_net.Tcp.Wire.{tcp_pack}

-- A 32-bit sum.
abbrev pub add32 : ℕ → ℕ → ℕ
add32 a b = (a + b) % 2 ^ 32

-- `memset(seg, 0, sizeof(tcp_segment_t))`
abbrev pub zero_addr : IpAddr
zero_addr = record { version = 0; v4 = replicate 4 0; netmask = replicate 4 0 }

abbrev pub tcp_segment_init : Segment
tcp_segment_init = record {
  src_port = 0;
  dest_port = 0;
  seq = 0;
  ack = 0;
  data_offset = 0;
  flags = 0;
  win = 0;
  checksum = 0;
  urgent_ptr = 0;
  options = [];
  payload = [];
  raw_data = [];
  src = zero_addr;
}

-- The payload that `dblk_copy` hands over: NULL where it fails.
abbrev pub flat : Option Node → Buffer
flat none = []
flat (some d) = take d.size d.bytes

abbrev drop_copy : Option Node → Heap → Heap
drop_copy none h = h
drop_copy (some d) h = (dblk_delete (d ∷ []) h).1

abbrev pub datagram : Tcp → Buffer → IpDatagram
datagram tcp payload = record {
  ip = tcp.localhost;
  type_of_service = 0;
  protocol = ip_protocol_tcp;
  time_to_live = 0b00111100;
  dest = tcp.dest;
  payload = payload;
}

-- A copy of the packed segment goes to the IP layer; if that refuses, the copy is freed.
unfoldable pub tcp_ip_send : Tcp → Segment → Net → Net × Bool
tcp_ip_send tcp seg net =
    let (cpy, h1) = dblk_copy seg.raw_data net.heap in
    let sent = net.sent ++ datagram tcp (flat cpy) ∷ [] in
    if net.accept (length net.sent)
    then (record net { heap = h1; sent = sent }, true)
    else (record net { heap = drop_copy cpy h1; sent = sent }, false)

-- A segment of this connection, over the block `raw`.
abbrev pub segment_of : Tcp → ℕ → ℕ → ℕ → Chain → Chain → Segment
segment_of tcp seq ack flags payload raw = record tcp_segment_init {
  src_port = tcp.port % 2 ^ 16;
  dest_port = tcp.dest_port;
  seq = seq;
  ack = ack;
  data_offset = 5;
  flags = flags;
  win = tcp.rcv.wnd;
  payload = payload;
  raw_data = raw;
}

-- `tcp_pack` with the pseudo header of the connection.
abbrev pub pack_for : Tcp → Segment → Segment
pack_for tcp seg = (tcp_pack tcp.localhost.addr tcp.dest ip_protocol_tcp seg).0

-- `tcp->snd.nxt += tcp_segment_length(seg)`
abbrev pub advance : Segment → Tcp → Tcp
advance seg tcp = record tcp {
  snd = record tcp.snd { nxt = add32 tcp.snd.nxt (tcp_segment_length seg) };
}

-- The control segment that `tcp_send_ctrl_seg` packs into its 32 bytes on the stack.
unfoldable pub ctrl_seg : Tcp → ℕ → ℕ → ℕ → ℕ → Segment
ctrl_seg tcp junk seq ack flags =
    pack_for tcp (segment_of tcp seq ack flags [] (dblk_node_init (replicate 32 junk) 32 ∷ []))

unfoldable pub tcp_send_ctrl_seg : Conn → ℕ → ℕ → ℕ → Conn × Bool
tcp_send_ctrl_seg c seq ack flags =
    let seg = ctrl_seg c.tcp c.net.heap.junk seq ack flags in
    let (net1, done) = tcp_ip_send c.tcp seg c.net in
    if done
    then (record { tcp = advance seg c.tcp; net = net1 }, true)
    else (record { tcp = c.tcp; net = net1 }, false)

-- Sends the outstanding segment again, if there is one, and restarts the timer.
unfoldable pub tcp_retransmit : Conn → Conn
tcp_retransmit c = record {
  tcp = record c.tcp { tmr = started 5 };
  net = elim c.tcp.tx_seg [ none ↦ c.net | some seg ↦ (tcp_ip_send c.tcp seg c.net).0 ];
}

complete : Conn → Option Segment → Conn
complete c none = c
complete c (some seg) = record {
  tcp = record c.tcp { tx_seg = none; tmr = stopped };
  net = record c.net { heap = free (dblk_list_delete seg.raw_data c.net.heap) };
}

unfoldable pub tcp_tx_seg_complete : Conn → Conn
unfolding complete
tcp_tx_seg_complete c = complete c c.tcp.tx_seg

-- `dblk_node_new_with_buff(32)` as a block.
abbrev pub node_chain : Option Node → Chain
node_chain none = []
node_chain (some d) = d ∷ []

module _ (lib : ListLib) where
  open lib use {list_dequeue, list_length}

  -- The data segment for `tx`: packed, sent, and kept for retransmission.
  unfoldable pub send_data : Conn → Node → Conn
  send_data c tx =
      let (got, h1) = malloc c.net.heap in
      let (raw, h2) = dblk_node_new_with_buff 32 h1 in
      let seg =
        segment_of c.tcp c.tcp.snd.una c.tcp.rcv.nxt seg_flag_ack (tx ∷ []) (node_chain raw) in
      let packed = pack_for c.tcp seg in
      let tcp1 = record c.tcp { tx_seg = some packed } in
      let (net1, done) = tcp_ip_send tcp1 packed (record c.net { heap = h2 }) in
      if got
      then record { tcp = advance packed (record tcp1 { tmr = started 3 }); net = net1 }
      else record c { net = record c.net { heap = h1 } }

  send_next : Conn → Option Node × List Node → Conn
  send_next c (none, q) = c
  send_next c (some tx, q) = send_data (record c { tcp = record c.tcp { tx_data = q } }) tx

  -- Sends the next queued block, unless a segment is outstanding.
  unfoldable pub tcp_construct_data : Conn → Conn
  unfolding send_data send_next
  tcp_construct_data c = elim c.tcp.tx_seg [
    | some seg ↦ c
    | none ↦
        if ltb 0 (list_length Node c.tcp.tx_data)
        then send_next c (list_dequeue Node c.tcp.tx_data)
        else c
  ]

  accept_ack : Conn → ℕ → Conn
  accept_ack c ack = tcp_construct_data (
      tcp_tx_seg_complete
        (record c { tcp = record c.tcp { snd = record c.tcp.snd { una = ack } } }))

  -- Only an acknowledgment of everything sent has an effect.
  unfoldable pub tcp_handle_ack_of_data : Conn → Segment → Conn × Bool
  unfolding accept_ack
  tcp_handle_ack_of_data c ack = elim c.tcp.tx_seg [
    | none ↦ (c, false)
    | some seg ↦
        if sncmp c.tcp.snd.una ls ack.ack le c.tcp.snd.nxt && ack.ack == c.tcp.snd.nxt
        then (accept_ack c ack.ack, true)
        else (c, false)
  ]

  send_fin : Conn → Conn
  send_fin c =
      let (got, h1) = malloc c.net.heap in
      let (raw, h2) = dblk_node_new_with_buff 32 h1 in
      let flags = bit_or seg_flag_fin seg_flag_ack in
      let seg = segment_of c.tcp c.tcp.snd.una c.tcp.rcv.nxt flags [] (node_chain raw) in
      let packed = pack_for c.tcp seg in
      if got
      then record {
        tcp = advance packed (record c.tcp { tx_seg = some packed; tmr = started 1 });
        net = record c.net { heap = h2 };
      }
      else record c { net = record c.net { heap = h1 } }

  -- Prepares the FIN once no data is queued or outstanding; the timer will send it.
  unfoldable pub tcp_contruct_fin_ack : Conn → Conn
  unfolding send_fin
  tcp_contruct_fin_ack c =
      if list_length Node c.tcp.tx_data == 0
      then elim c.tcp.tx_seg [ some seg ↦ c | none ↦ send_fin c ]
      else c

-- Is `ack` the acknowledgment of the outstanding FIN?
unfoldable pub tcp_handle_ack_of_fin_ack : Conn → Segment → Conn × Bool
tcp_handle_ack_of_fin_ack c ack = elim c.tcp.tx_seg [
  | none ↦ (c, false)
  | some seg ↦ if add32 seg.seq 1 == ack.ack then (tcp_tx_seg_complete c, true) else (c, false)
]
