-- ===== src/Tcp/Tests.antt =====
-- TCP on a concrete list library, network and connection.
use dts_net.Base.{ℕ, ◌≡◌, refl, arith, true, false, Option, none, some, List, [], ◌∷◌, ◌++◌}
use dts_net.Base.{length}
use dts_net.Endian.{lr32}
use dts_net.Dblk.{Node, dblk_node_init, dblk_size}
use dts_net.Ip.{Ip, IpAddr, ip_addr_equals}
use dts_net.Tcp.Defs.{ListLib, State, listen, syn_sent, established, fin_wait_1, fin_wait_2}
use dts_net.Tcp.Defs.{
  Segment, Tcp, Net, Conn, stopped, started, tcp_segment_length, seg_ctrl_a, seg_ctrl_s, seg_ctrl_r,
  seg_ctrl_f,
}
use dts_net.Tcp.Seq.{sncmp, ls, le, sncmp_round_opposite}
use dts_net.Tcp.Send.{tcp_segment_init, tcp_handle_ack_of_data}
use dts_net.Tcp.Receive.{listen_seg, syn_sent_seg, process_received_seq, fin_seg, in_rcv_window}
use dts_net.Tcp.Receive.{syn_received_seg}
use dts_net.Base.{◌⊎◌, ◌≤◌}
use dts_net.Tcp.Recv.{recv_loop-ends}
use dts_net.Tcp.Events.{
  Received, recv_loop, tcp_received, handle, deliver, tcp_timeout, tcp_close, tcp_send, tcp_recv,
}
use dts_net.Tcp.Connections.{find_tcp}
use dts_net.Tcp.Transitions.{rfc_arrow, arrival_arrow, tcp_received-arrow, user_arrows}
use dts_net.Dblk.Contents.{node_bytes}
use dts_net.Tcp.Receive.{tcp_handle_data}
use dts_net.Tcp.Text.{tcp_handle_data-in_order}
use dts_net.Tcp.Acceptance.{process_received_seq-rfc}
use dts_net.Tcp.Meeting.{handshake}
use dts_net.Tcp.Exchange.{IsSynchronized}
use dts_net.Tcp.Heard.{last_heard}
use dts_net.Tcp.Acks.{tcp_handle_ack_of_data-last, fin_seg-ack_of_fin}
use dts_net.Tcp.Faults.{is_fault, tcp_received-is_fault, established_idle_faults}
use dts_net.Endian.{Buffer}
use dts_net.Base.{Bool}
use dts_net.Dblk.Contents.{contents}
use dts_net.Tcp.Wire.{tcp_pack, tcp_unpack}
use dts_net.Tcp.Packed.{fresh_segment}
use dts_net.Tcp.RoundTrip.{IsSame, tcp_unpack-tcp_pack}
use dts_net.Tcp.Demux.{find_tcp-first_match}

abbrev first : {A : Type 0} → List A → Option A × List A
first [] = (none, [])
first (x ∷ xs) = (some x, xs)

abbrev fifo : ListLib
fifo = record {
  list_enqueue = λ A q x. q ++ x ∷ [];
  list_dequeue = λ A q. first q;
  list_length = λ A q. length q;
  enqueue_at_end = λ A q x. refl;
  dequeue_empty = λ A. refl;
  dequeue_front = λ A x q. refl;
  length_counts = λ A q. refl;
}

abbrev here : IpAddr
here = record { version = 4; v4 = 192 ∷ 168 ∷ 0 ∷ 1 ∷ []; netmask = 255 ∷ 255 ∷ 255 ∷ 0 ∷ [] }

abbrev there : IpAddr
there = record { version = 4; v4 = 192 ∷ 168 ∷ 0 ∷ 2 ∷ []; netmask = 255 ∷ 255 ∷ 255 ∷ 0 ∷ [] }

abbrev host : Ip
host = record { id = 1; addr = here }

abbrev net : Net
net = record {
  heap = record { grant = λ n. true; asked = 0; live = 0; junk = 0xcc };
  sent = [];
  accept = λ n. true;
  tick_s = 9;
}

-- A connection with nothing outstanding, that expects number 500.
abbrev tcp_in : State → Tcp
tcp_in s = record {
  passive = false;
  dest = there;
  dest_port = 80;
  localhost = host;
  port = 4000;
  state = s;
  rx_segs = [];
  tx_data = [];
  rx_data = [];
  tx_seg = none;
  snd = record { una = 100; nxt = 101; iss = 100 };
  rcv = record { nxt = 500; irs = 499; wnd = 1500 };
  tmr = stopped;
  time_wait_seconds = 120;
}

abbrev conn_in : State → Conn
conn_in s = record { tcp = tcp_in s; net = net }

-- A segment of the peer with these numbers and flags.
abbrev seg_with : ℕ → ℕ → ℕ → Segment
seg_with seq ack flags = record tcp_segment_init {
  src_port = 80;
  dest_port = 4000;
  seq = seq;
  ack = ack;
  flags = flags;
  win = 1500;
  src = there;
}

-- The same connection with the segment `tx` outstanding.
abbrev waiting_in : State → Segment → Conn
waiting_in s tx = record {
  tcp = record (tcp_in s) { tx_seg = some tx; tmr = started 1 };
  net = net;
}

abbrev syn : Segment
syn = seg_with 499 0 2

abbrev sent_syn : Segment
sent_syn = record (seg_with 100 0 2) { src_port = 4000; dest_port = 80 }

abbrev sent_fin : Segment
sent_fin = record (seg_with 100 500 17) { src_port = 4000; dest_port = 80 }

abbrev queued_syn : Conn
queued_syn = record (conn_in listen) { tcp = record (tcp_in listen) { rx_segs = syn ∷ [] } }

tcp_received-arrow_example :
    (rfc_arrow listen (listen_seg fifo (conn_in listen) syn).tcp.state ≡ true)
    × (arrival_arrow listen (listen_seg fifo (conn_in listen) syn).tcp.state ≡ true)
unfolding tcp_received handle
tcp_received-arrow_example =
    tcp_received-arrow fifo queued_syn (listen_seg fifo (conn_in listen) syn) refl

user_arrows_example :
    ((tcp_timeout (conn_in established)).tcp.state ≡ established)
    × ((tcp_close fifo (conn_in established)).tcp.state ≡ fin_wait_1)
    × ((tcp_send fifo (conn_in established) (1 ∷ 2 ∷ []) 2).0.tcp.state ≡ established)
    × ((r : Conn × Buffer × ℕ) × (tcp_recv fifo (conn_in established) (0 ∷ 0 ∷ []) 2 ≡ some r)
        × (r.0.tcp.state ≡ established))
user_arrows_example = user_arrows fifo (conn_in established) (1 ∷ 2 ∷ []) (0 ∷ 0 ∷ []) 2 2

-- An ACK past the window of 1500 numbers from 500 on.
process_received_seq-rfc_example :
    ((process_received_seq (conn_in established) (seg_with 2000 101 16)).1 ≡ false)
    × ((process_received_seq (conn_in established) (seg_with 2000 101 16)).0.tcp
        ≡ tcp_in established)
    × (length (process_received_seq (conn_in established) (seg_with 2000 101 16)).0.net.sent ≡ 1)
unfolding tcp_segment_length seg_ctrl_s seg_ctrl_f seg_ctrl_r dblk_size
process_received_seq-rfc_example =
    process_received_seq-rfc (conn_in established) (seg_with 2000 101 16) (omega arith)
      (omega arith) (omega arith) (omega arith)

-- A window of 15 numbers round 2 ^ 32: the code refuses a number in it.
sncmp_round_opposite_example : sncmp 0xffff_fffa le 3 ls 9 ≡ false
sncmp_round_opposite_example =
    sncmp_round_opposite le ls 0xffff_fffa 3 9 refl (omega arith) (omega arith) (omega arith)

-- A connection that waits for its peer.
abbrev listener : Conn
listener = record (conn_in listen) {
  tcp = record (tcp_in listen) {
    snd = record { una = 300; nxt = 300; iss = 300 };
    rcv = record { nxt = 0; irs = 0; wnd = 1500 };
  };
}

abbrev opener : Conn
opener = waiting_in syn_sent sent_syn

abbrev heard_syn : Conn
heard_syn = listen_seg fifo listener (seg_with 100 0 2)

handshake_example :
    (syn_ack : Segment) × (last_heard heard_syn ≡ some syn_ack)
    × (ack : Segment) × (last_heard (syn_sent_seg fifo opener syn_ack) ≡ some ack)
    × IsSynchronized (syn_sent_seg fifo opener syn_ack) (syn_received_seg fifo heard_syn ack)
    × ((syn_sent_seg fifo opener syn_ack).tcp.tx_seg ≡ none)
unfolding dblk_size
handshake_example =
    handshake fifo listener opener sent_syn (seg_with 100 0 2)
      (record {
        una = refl;
        room = omega arith;
        window = omega arith;
        port = omega arith;
        memory = λ n. refl;
        sends = refl;
      })
      (record {
        una = refl;
        room = omega arith;
        window = omega arith;
        port = omega arith;
        memory = λ n. refl;
        sends = refl;
      })
      refl refl refl (omega arith) (omega arith)
      (record { seq = refl; ack = refl; flags = refl; no_text = refl }) (omega arith)

tcp_handle_ack_of_data-last_example :
    ((tcp_handle_ack_of_data fifo (waiting_in established sent_syn) (seg_with 500 101 16)).1 ≡ true)
    × ((tcp_handle_ack_of_data fifo (waiting_in established sent_syn) (seg_with 500 101 16)).0.tcp
        ≡ record (tcp_in established) { snd = record { una = 101; nxt = 101; iss = 100 } })
tcp_handle_ack_of_data-last_example =
    tcp_handle_ack_of_data-last fifo (waiting_in established sent_syn) (seg_with 500 101 16)
      sent_syn refl refl (omega arith)

fin_seg-ack_of_fin_example :
    (c : Conn) × (fin_seg fifo fin_wait_2 (waiting_in fin_wait_1 sent_fin) (seg_with 500 101 16)
      ≡ some c)
    × (c.tcp ≡ tcp_in fin_wait_2)
unfolding seg_ctrl_a seg_ctrl_f
fin_seg-ack_of_fin_example =
    fin_seg-ack_of_fin fifo fin_wait_2 (waiting_in fin_wait_1 sent_fin) (seg_with 500 101 16)
      sent_fin refl refl refl

abbrev block : Node
block = dblk_node_init (1 ∷ 2 ∷ 3 ∷ []) 3

abbrev with_data : Conn
with_data = record (conn_in established) {
  tcp = record (tcp_in established) { tx_data = block ∷ [] };
}

tcp_received-is_fault_example : is_fault (tcp_received fifo queued_syn) ≡ false
tcp_received-is_fault_example = tcp_received-is_fault fifo queued_syn refl

established_idle_faults_example : deliver fifo (conn_in established) (seg_with 500 101 16) ≡ none
unfolding process_received_seq in_rcv_window tcp_segment_length seg_ctrl_a seg_ctrl_s seg_ctrl_r
    seg_ctrl_f sncmp dblk_size
established_idle_faults_example =
    established_idle_faults fifo (conn_in established) (seg_with 500 101 16) refl refl refl refl
      refl refl

-- A passive connection before an active one.
abbrev two_tcps : List Tcp
two_tcps = record (tcp_in listen) { passive = true; dest_port = 0 } ∷ tcp_in established ∷ []

find_tcp-first_match_example : find_tcp two_tcps host syn 0 none ≡ some 1
unfolding ip_addr_equals lr32
find_tcp-first_match_example = find_tcp-first_match two_tcps host syn 0 none

-- Two bytes at the number that is expected next.
abbrev text : Segment
text = record (seg_with 500 101 16) { payload = dblk_node_init (6 ∷ 7 ∷ []) 2 ∷ [] }

tcp_handle_data-in_order_example :
    ((tcp_handle_data fifo (conn_in established) text).1 ≡ true)
    × ((rx : Node) × ((tcp_handle_data fifo (conn_in established) text).0.tcp.rx_data ≡ rx ∷ [])
        × (node_bytes rx ≡ 6 ∷ 7 ∷ []))
    × ((tcp_handle_data fifo (conn_in established) text).0.tcp.rcv
        ≡ record { nxt = 502; irs = 499; wnd = 1500 })
    × ((tcp_handle_data fifo (conn_in established) text).0.tcp.snd
        ≡ record { una = 100; nxt = 101; iss = 100 })
unfolding dblk_node_init seg_ctrl_s seg_ctrl_f
tcp_handle_data-in_order_example =
    tcp_handle_data-in_order fifo (conn_in established) text (dblk_node_init (6 ∷ 7 ∷ []) 2)
      (refl, refl, refl, omega arith, refl, refl) refl (omega arith) (omega arith) (omega arith)
      (omega arith) (λ _. refl)

-- Two blocks queued, and rounds to spare.
recv_loop-ends_example :
    (r : Received) × (recv_loop fifo 3 (block ∷ block ∷ []) net.heap (0 ∷ 0 ∷ 0 ∷ []) 100 0
      ≡ some r)
    × ((r.0 ≡ []) ⊎ (100 ≤ r.3))
recv_loop-ends_example =
    recv_loop-ends fifo (block ∷ block ∷ []) 3 net.heap (0 ∷ 0 ∷ 0 ∷ []) 100 0 (omega arith)

-- A segment with two bytes of text there and back.
abbrev parsed : Segment × Bool
parsed =
    let sent =
      (tcp_pack here there 6 (fresh_segment (seg_with 500 101 24) 0xcc (some (6 ∷ 7 ∷ [])))).0 in
    tcp_unpack here there 6
      (record tcp_segment_init { raw_data = dblk_node_init (contents sent.raw_data) 22 ∷ [] })

tcp_unpack-tcp_pack_example : (parsed.1 ≡ true) × IsSame (seg_with 500 101 24) parsed.0 (6 ∷ 7 ∷ [])
tcp_unpack-tcp_pack_example =
    tcp_unpack-tcp_pack here there 6 0xcc (seg_with 500 101 24) tcp_segment_init (some (6 ∷ 7 ∷ []))
      (record {
        src_port = omega arith;
        dest_port = omega arith;
        seq = omega arith;
        ack = omega arith;
        flags = omega arith;
        win = omega arith;
        urgent_ptr = omega arith;
      })
      refl (omega arith)
