-- ===== src/Tcp/Acks.antt =====
-- Acknowledgments of data and of the FIN: one segment outstanding at a time.
use dts_net.Base.{ℕ, ◌+◌, ◌≡◌, ◌<◌, refl, arith, true, false}
use dts_net.Base.{if◌then◌else◌, ltb, ◌==◌, Bool-cases, inl, inr, ◌∙◌, length, List, [], ◌∷◌, ap}
use dts_net.Base.{none, some}
use dts_net.Dblk.{Node, malloc, dblk_node_new_with_buff}
use dts_net.Tcp.Defs.{Net}
use dts_net.Tcp.Defs.{
  ListLib, Segment, Tcp, Conn, State, tcp_segment_length, seg_ctrl_a, seg_ctrl_s,
}
use dts_net.Tcp.Defs.{started, stopped, seg_ctrl_f}
use dts_net.Tcp.Send.{
  tcp_construct_data, add32, tcp_tx_seg_complete, tcp_handle_ack_of_data, tcp_handle_ack_of_fin_ack,
}
use dts_net.Tcp.Receive.{fin_seg}
use dts_net.Base.{length-append}
use dts_net.Dblk.{Chain, dblk_node_size, dblk_size}
use dts_net.Tcp.Handshake.{complete-tcp, sncmp_all}
use dts_net.Tcp.Lengths.{length-tcp_pack}
use dts_net.Tcp.Send.{send_data, node_chain, tcp_ip_send, pack_for, segment_of}
use dts_net.Tcp.Receive.{set_state}
use dts_net.Tcp.Faults.{has_tx_seg}

module _ (lib : ListLib) where
  idle-construct_data : (c : Conn) → c.tcp.tx_data ≡ [] → tcp_construct_data lib c ≡ c
  unfolding tcp_construct_data
  idle-construct_data c h =
      let e : lib.list_length Node [] ≡ 0 = lib.length_counts Node [] in ground arith

  acked-tcp :
      (c : Conn) (tx : Segment)
      → c.tcp.tx_seg ≡ some tx
      → c.tcp.tx_data ≡ []
      → (tcp_construct_data lib (tcp_tx_seg_complete c)).tcp
        ≡ record c.tcp { tx_seg = none; tmr = stopped }
  acked-tcp c tx out empty =
      let done = complete-tcp c tx out in
      ap (λ (d : Conn). d.tcp)
        (idle-construct_data (tcp_tx_seg_complete c) (ap (λ (t : Tcp). t.tx_data) done ∙ empty))
      ∙ done

  -- With a segment outstanding and no data queued, only the acknowledgment of everything sent has
  -- an effect: the send window closes, nothing is outstanding and the timer is stopped. Any other
  -- acknowledgment, also of a part of the segment, leaves the connection as it was. The
  -- outstanding numbers do not go round 2 ^ 32.
  pub tcp_handle_ack_of_data-last :
      (c : Conn) (seg tx : Segment)
      → c.tcp.tx_seg ≡ some tx
      → c.tcp.tx_data ≡ []
      → c.tcp.snd.una < c.tcp.snd.nxt
      → ((tcp_handle_ack_of_data lib c seg).1 ≡ (seg.ack == c.tcp.snd.nxt))
        × ((tcp_handle_ack_of_data lib c seg).0.tcp ≡ (
            if seg.ack == c.tcp.snd.nxt
            then record c.tcp {
              tx_seg = none;
              tmr = stopped;
              snd = record c.tcp.snd { una = c.tcp.snd.nxt };
            }
            else c.tcp))
  unfolding tcp_handle_ack_of_data
  tcp_handle_ack_of_data-last c seg tx out empty up =
      let new = (sncmp_all c.tcp.snd.una c.tcp.snd.nxt up).0 in
      let c1 : Conn = record c {
        tcp = record c.tcp { snd = record c.tcp.snd { una = c.tcp.snd.nxt } };
      } in
      let done = acked-tcp c1 tx out empty in ground (arith, new, done)

  -- In FIN-WAIT-1 and in LAST-ACK with the FIN outstanding, exactly the acknowledgment of the FIN,
  -- one past its number, leads on to the next state; nothing is outstanding then and the timer is
  -- stopped. Any other acknowledgment leaves the connection as it was.
  pub fin_seg-ack_of_fin :
      (next : State) (c : Conn) (seg tx : Segment)
      → c.tcp.tx_seg ≡ some tx
      → seg_ctrl_f tx ≡ true
      → seg_ctrl_a seg ≡ true
      → (c' : Conn) × (fin_seg lib next c seg ≡ some c')
        × (c'.tcp ≡ (
            if add32 tx.seq 1 == seg.ack
            then record c.tcp { state = next; tx_seg = none; tmr = stopped }
            else c.tcp))
  unfolding fin_seg tcp_handle_ack_of_fin_ack
  fin_seg-ack_of_fin next c seg tx out fin ack =
      let done = complete-tcp c tx out in
      elim (Bool-cases (add32 tx.seq 1 == seg.ack)) [
        | inl acked ↦ (set_state next (tcp_tx_seg_complete c), ground arith, ground (arith, done))
        | inr other ↦ (c, ground arith, ground arith)
      ]

packed-length :
    (t : Tcp) (d : Node) (raw : Chain) (seq ack : ℕ)
    → d.more ≡ false
    → tcp_segment_length (pack_for t (segment_of t seq ack 16 (d ∷ []) raw)) ≡ dblk_node_size d
unfolding tcp_segment_length dblk_size seg_ctrl_s seg_ctrl_f
packed-length t d raw seq ack h =
    length-tcp_pack t.localhost.addr t.dest 6 _ ∙ (simp h (ground arith))

sent-tcp_ip_send :
    (t : Tcp) (seg : Segment) (net : Net)
    → length (tcp_ip_send t seg net).0.sent ≡ length net.sent + 1
unfolding tcp_ip_send
sent-tcp_ip_send t seg net = grind (arith, length-append)

module _ (lib : ListLib) where
  send_data-fields :
      (c : Conn) (d : Node)
      → d.more ≡ false
      → (malloc c.net.heap).0 ≡ true
      → (has_tx_seg (send_data lib c d) ≡ true)
        × ((send_data lib c d).tcp.tx_data ≡ c.tcp.tx_data)
        × ((send_data lib c d).tcp.snd
            ≡ record c.tcp.snd { nxt = add32 c.tcp.snd.nxt (dblk_node_size d) })
        × ((send_data lib c d).tcp.tmr ≡ started 3)
        × (length (send_data lib c d).net.sent ≡ length c.net.sent + 1)
  unfolding send_data
  send_data-fields c d single granted =
      let h1 = (malloc c.net.heap).1 in
      let (raw, h2) = dblk_node_new_with_buff 32 h1 in
      let seg = segment_of c.tcp c.tcp.snd.una c.tcp.rcv.nxt 16 (d ∷ []) (node_chain raw) in
      let packed = pack_for c.tcp seg in
      let len = packed-length c.tcp d (node_chain raw) c.tcp.snd.una c.tcp.rcv.nxt single in
      let sent =
        sent-tcp_ip_send (record c.tcp { tx_seg = some packed }) packed
          (record c.net { heap = h2 }) in
      (
        rw granted refl,
        rw granted refl,
        rw granted (ap (λ n. record c.tcp.snd { nxt = add32 c.tcp.snd.nxt n }) len),
        rw granted refl,
        rw granted sent,
      )

  dequeue : (d : Node) (q : List Node) → lib.list_dequeue Node (d ∷ q) ≡ (some d, q)
  dequeue d q = lib.dequeue_front Node d q

  construct_data-send_data :
      (c : Conn) (d : Node) (q : List Node)
      → c.tcp.tx_seg ≡ none
      → c.tcp.tx_data ≡ d ∷ q
      → tcp_construct_data lib c ≡ send_data lib (record c { tcp = record c.tcp { tx_data = q } }) d
  unfolding tcp_construct_data
  construct_data-send_data c d q idle queued =
      let more : ltb 0 (lib.list_length Node c.tcp.tx_data) ≡ true =
        rw (queued, lib.length_counts Node (d ∷ q)) (ground arith) in
      let front : lib.list_dequeue Node c.tcp.tx_data ≡ (some d, q) = rw queued (dequeue d q) in
      ground (arith, more, front)

  -- With nothing outstanding, the first queued block, of one node, becomes the outstanding segment,
  -- where memory for the segment is granted: it leaves the queue, its size is added to `snd.nxt`,
  -- the timer is started, and one datagram is handed over.
  pub tcp_construct_data-next :
      (c : Conn) (d : Node) (q : List Node)
      → c.tcp.tx_seg ≡ none
      → c.tcp.tx_data ≡ d ∷ q
      → d.more ≡ false
      → (malloc c.net.heap).0 ≡ true
      → (has_tx_seg (tcp_construct_data lib c) ≡ true)
        × ((tcp_construct_data lib c).tcp.tx_data ≡ q)
        × ((tcp_construct_data lib c).tcp.snd
            ≡ record c.tcp.snd { nxt = add32 c.tcp.snd.nxt (dblk_node_size d) })
        × ((tcp_construct_data lib c).tcp.tmr ≡ started 3)
        × (length (tcp_construct_data lib c).net.sent ≡ length c.net.sent + 1)
  tcp_construct_data-next c d q idle queued single granted =
      rw (construct_data-send_data c d q idle queued)
        (send_data-fields (record c { tcp = record c.tcp { tx_data = q } }) d single granted)
