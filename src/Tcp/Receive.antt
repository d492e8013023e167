-- ===== src/Tcp/Receive.antt =====
-- Segment arrival: the acceptance test, the text, the FIN, and one handler for each state.
use dts_net.Base.{
  ℕ, ◌+◌, ◌-◌, ◌%◌, ◌^◌, bit_or, Bool, true, false, Option, none, some, List, [], ◌∷◌,
}
use dts_net.Base.{if◌then◌else◌, ltb, ◌==◌, ◌&&◌, ◌||◌, not}
use dts_net.Endian.{Buffer}
use dts_net.Dblk.{Chain, Node, Heap, dblk_node_new_with_buff, dblk_copy_from}
use dts_net.Tcp.Defs.{ListLib, Segment, Tcp, Conn, started, tcp_segment_length}
use dts_net.Tcp.Defs.{State, listen, syn_received, established}
use dts_net.Tcp.Defs.{time_wait, close_wait, closed}
use dts_net.Tcp.Defs.{seg_flag_ack, seg_flag_rst, seg_flag_syn}
use dts_net.Tcp.Defs.{seg_ctrl_a, seg_ctrl_s, seg_ctrl_r, seg_ctrl_f, seg_ctrl_af}
use dts_net.Tcp.Seq.{sncmp, ls, le}
use dts_net.Tcp.Send.{add32, tcp_send_ctrl_seg, tcp_tx_seg_complete}
use dts_net.Tcp.Send.{tcp_handle_ack_of_data, tcp_handle_ack_of_fin_ack}

abbrev pub set_state : State → Conn → Conn
set_state s c = record c { tcp = record c.tcp { state = s } }

abbrev pub set_una : ℕ → Conn → Conn
set_una ack c = record c { tcp = record c.tcp { snd = record c.tcp.snd { una = ack } } }

abbrev pub set_rcv_nxt : ℕ → Conn → Conn
set_rcv_nxt seq c = record c { tcp = record c.tcp { rcv = record c.tcp.rcv { nxt = seq } } }

-- An unacceptable segment is answered by an ACK, unless it is a reset.
unfoldable pub seg_unacceptable : Conn → Segment → Conn
seg_unacceptable c seg =
    if seg_ctrl_r seg then c else (tcp_send_ctrl_seg c c.tcp.snd.nxt c.tcp.rcv.nxt seg_flag_ack).0

-- Does `seq` lie in the receive window?
unfoldable pub in_rcv_window : Tcp → ℕ → Bool
in_rcv_window tcp seq = sncmp tcp.rcv.nxt le seq ls (add32 tcp.rcv.nxt tcp.rcv.wnd)

-- `process_received_seq`
unfoldable pub process_received_seq : Conn → Segment → Conn × Bool
process_received_seq c seg =
    let seg_len = tcp_segment_length seg in
    let seg_end = (seg.seq + seg_len + 2 ^ 32 - 1) % 2 ^ 32 in
    let acceptable =
      if seg_len == 0
      then in_rcv_window c.tcp seg.seq
      else in_rcv_window c.tcp seg.seq || in_rcv_window c.tcp seg_end in
    if c.tcp.rcv.wnd == 0
    then (if seg_len == 0 then (c, false) else (seg_unacceptable c seg, false))
    else if acceptable
    then (c, true)
    else (seg_unacceptable c seg, false)

-- `tcp_handle_fin_ack`
unfoldable pub tcp_handle_fin_ack : Conn → Segment → Conn × Bool
tcp_handle_fin_ack c seg =
    let c1 = set_rcv_nxt (add32 seg.seq 1) (set_una seg.ack c) in
    if sncmp c.tcp.snd.una ls seg.ack le c.tcp.snd.nxt
    then tcp_send_ctrl_seg c1 c1.tcp.snd.una c1.tcp.rcv.nxt seg_flag_ack
    else (c, false)

-- What lies behind `seg->payload->data`.
abbrev pub payload_bytes : Chain → Buffer
payload_bytes [] = []
payload_bytes (d ∷ ds) = d.bytes

abbrev pub min_size : ℕ → ℕ → ℕ
min_size a b = if ltb b a then b else a

module _ (lib : ListLib) where
  open lib use {list_enqueue, list_dequeue}

  -- The new receive position is told by the outstanding segment, or by an ACK of its own.
  unfoldable pub acknowledge : Conn → Conn
  acknowledge c = elim c.tcp.tx_seg [
    | some tx ↦ record c {
      tcp = record c.tcp { tx_seg = some (record tx { ack = c.tcp.rcv.nxt }) };
    }
    | none ↦ (tcp_send_ctrl_seg c c.tcp.snd.una c.tcp.rcv.nxt seg_flag_ack).0
  ]

  -- Queues a block of one node.
  unfoldable pub enqueue_block : List Node → Chain → List Node
  enqueue_block q [] = q
  enqueue_block q (d ∷ ds) = list_enqueue Node q d

  unfoldable pub store : Conn → Segment → ℕ → Option Node × Heap → Conn × Bool
  store c dat seg_len (none, h) = (record c { net = record c.net { heap = h } }, false)
  store c dat seg_len (some rx, h) =
      let (filled, n) = dblk_copy_from (rx ∷ []) (payload_bytes dat.payload) seg_len in
      let queue = enqueue_block c.tcp.rx_data filled in
      let rcv1 = record c.tcp.rcv { nxt = add32 c.tcp.rcv.nxt seg_len } in
      let c1 : Conn = record {
        tcp = record c.tcp { rx_data = queue; rcv = rcv1 };
        net = record c.net { heap = h };
      } in
      (acknowledge c1, true)

  -- `tcp_handle_data`: the text that starts where the receive window does.
  unfoldable pub tcp_handle_data : Conn → Segment → Conn × Bool
  unfolding store acknowledge
  tcp_handle_data c dat =
      let seg_len = tcp_segment_length dat in
      let n = min_size seg_len c.tcp.rcv.wnd in
      if dat.seq == c.tcp.rcv.nxt && ltb 0 seg_len
      then store c dat n (dblk_node_new_with_buff n c.net.heap)
      else (c, false)

  -- The reset of a bad acknowledgment in LISTEN, after which the handler goes on.
  unfoldable pub listen_seg : Conn → Segment → Conn
  listen_seg c seg =
      let c1 = if seg_ctrl_a seg then (tcp_send_ctrl_seg c seg.ack 0 seg_flag_rst).0 else c in
      let rcv1 = record c1.tcp.rcv { nxt = add32 seg.seq 1; irs = seg.seq } in
      let c2 = record c1 {
        tcp = record c1.tcp { rcv = rcv1; dest_port = seg.src_port; dest = seg.src };
      } in
      let (c3, done) =
        tcp_send_ctrl_seg c2 c2.tcp.snd.iss c2.tcp.rcv.nxt (bit_or seg_flag_syn seg_flag_ack) in
      if seg_ctrl_r seg
      then c
      else if seg_ctrl_s seg
      then (if done then set_state syn_received c3 else c3)
      else c1

  -- The SYN,ACK of the peer, in a segment with an acceptable acknowledgment.
  unfoldable pub syn_sent_accept : Conn → Segment → Conn
  syn_sent_accept c seg =
      let rcv1 = record c.tcp.rcv { nxt = add32 seg.seq 1; irs = seg.seq } in
      let c1 = set_una seg.ack (record c { tcp = record c.tcp { rcv = rcv1 } }) in
      let (c2, done) = tcp_send_ctrl_seg c1 c1.tcp.snd.una c1.tcp.rcv.nxt seg_flag_ack in
      if seg_ctrl_r seg
      then set_state closed c
      else if seg_ctrl_s seg
      then (if ltb c1.tcp.snd.iss c1.tcp.snd.una
          then (if done then tcp_tx_seg_complete (set_state established c2) else c2)
          else c1)
      else c

  unfoldable pub syn_sent_seg : Conn → Segment → Conn
  syn_sent_seg c seg =
      let bad_ack = not (sncmp c.tcp.snd.iss ls seg.ack le c.tcp.snd.nxt) in
      if not (seg_ctrl_a seg)
      then c
      else if bad_ack && not (seg_ctrl_r seg)
      then (tcp_send_ctrl_seg c seg.ack seg.seq seg_flag_rst).0
      else if sncmp c.tcp.snd.una le seg.ack le c.tcp.snd.nxt
      then syn_sent_accept c seg
      else c

  -- Steps 5 and 8 of SYN-RECEIVED.
  unfoldable pub syn_received_ack : Conn → Segment → Conn
  syn_received_ack c seg =
      let c1 =
        if sncmp c.tcp.snd.una le seg.ack le c.tcp.snd.nxt
        then set_state established (set_una seg.ack c)
        else (tcp_send_ctrl_seg c seg.ack 0 seg_flag_rst).0 in
      if not (seg_ctrl_a seg) then c else if seg_ctrl_f seg then set_state close_wait c1 else c1

  unfoldable pub syn_received_seg : Conn → Segment → Conn
  syn_received_seg c seg =
      let (c1, acceptable) = process_received_seq c seg in
      if not acceptable
      then c1
      else if seg_ctrl_r seg
      then set_state (if c1.tcp.passive then listen else closed) c1
      else syn_received_ack c1 seg

  -- Steps 7 and 8 of ESTABLISHED.
  unfoldable pub established_text : Conn → Segment → Conn
  established_text c seg =
      let c1 = (tcp_handle_data c seg).0 in
      if seg_ctrl_f seg then set_state close_wait (tcp_handle_fin_ack c1 seg).0 else c1

  -- Step 5 reads the flags of the outstanding segment through a pointer that may be NULL.
  unfoldable pub established_ack : Conn → Segment → Option Conn
  established_ack c seg = elim c.tcp.tx_seg [
    | none ↦ none
    | some tx ↦
        some
          (established_text (if seg_ctrl_f tx then c else (tcp_handle_ack_of_data lib c seg).0) seg)
  ]

  unfoldable pub established_seg : Conn → Segment → Option Conn
  established_seg c seg =
      let (c1, acceptable) = process_received_seq c seg in
      if not acceptable
      then some c1
      else if seg_ctrl_r seg
      then some c1
      else if seg_ctrl_a seg
      then established_ack c1 seg
      else some c1

  -- FIN-WAIT-1 and LAST-ACK: the acknowledgment of data, or of the FIN, which leads to `next`.
  unfoldable pub fin_seg : State → Conn → Segment → Option Conn
  fin_seg next c seg =
      let (c1, done) = tcp_handle_ack_of_fin_ack c seg in
      let on_ack = elim c.tcp.tx_seg as (λ _. Option Conn) [
        | none ↦ none
        | some tx ↦
            if seg_ctrl_f tx
            then some (if done then set_state next c1 else c1)
            else some (tcp_handle_ack_of_data lib c seg).0
      ] in
      if seg_ctrl_a seg then on_ack else some c

  unfoldable pub fin_wait_2_seg : Conn → Segment → Conn
  fin_wait_2_seg c seg =
      let tcp1 = record c.tcp { state = time_wait; tmr = started c.tcp.time_wait_seconds } in
      if seg_ctrl_af seg then (tcp_handle_fin_ack (record c { tcp = tcp1 }) seg).0 else c

  -- TIME-WAIT and CLOSE-WAIT: a FIN,ACK that comes again.
  unfoldable pub fin_again_seg : Conn → Segment → Conn
  fin_again_seg c seg = if seg_ctrl_af seg then (tcp_handle_fin_ack c seg).0 else c
