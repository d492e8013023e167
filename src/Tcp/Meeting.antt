-- ===== src/Tcp/Meeting.antt =====
-- The three-way handshake of two connections, over the handlers of dts_net_tcp.c.
use dts_net.Base.{◌+◌, ◌^◌, ◌≡◌, ◌<◌, sym, ap, ◌∙◌, arith}
use dts_net.Base.{none, some, subst}
use dts_net.Tcp.Defs.{ListLib, Segment, Tcp, Net, Conn}
use dts_net.Tcp.Receive.{listen_seg, syn_sent_seg, syn_received_seg}
use dts_net.Tcp.Handshake.{listen_seg-syn, listen_seg-net, syn_sent_seg-syn_ack, syn_sent_seg-sent}
use dts_net.Tcp.Handshake.{answering, confirming}
use dts_net.Tcp.Heard.{IsControl, heard, newest, last_heard, send_ctrl_seg-heard}
use dts_net.Tcp.Send.{add32}
use dts_net.Tcp.Exchange.{IsReady, IsSynchronized, syn-flags, syn_ack-flags, meets}

module _ (lib : ListLib) (server client : Conn) (tx syn : Segment) (s : IsReady server)
    (c : IsReady client) (fresh : server.tcp.snd.nxt ≡ server.tcp.snd.iss)
    (counted : client.tcp.snd.nxt ≡ client.tcp.snd.iss + 1) (out : client.tcp.tx_seg ≡ some tx)
    (open_window : 0 < server.tcp.rcv.wnd)
    (room : client.tcp.snd.iss + 1 + server.tcp.rcv.wnd < 2 ^ 32)
    (first : IsControl client.tcp.snd.iss 0 2 syn) (from : syn.src_port < 2 ^ 16) where
  abbrev listening : Conn
  listening = listen_seg lib server syn

  -- The SYN,ACK as it arrives.
  answers :
      (syn_ack : Segment) × (last_heard listening ≡ some syn_ack)
      × IsControl server.tcp.snd.iss (client.tcp.snd.iss + 1) 18 syn_ack
  answers =
      let (reset, no_ack, is_syn) = syn-flags syn first.flags in
      let next : add32 syn.seq 1 ≡ client.tcp.snd.iss + 1 =
        rw (first.seq) (omega (arith, c.room)) in
      let (seg, e, control) =
        send_ctrl_seg-heard (answering server syn) server.tcp.snd.iss (add32 syn.seq 1) 18 s.memory
          (omega (arith, s.room)) (omega (arith, next, c.room)) (omega arith) from s.window in
      (
        seg,
        ap (λ (n : Net). heard (newest n.sent))
              (listen_seg-net lib server syn reset no_ack is_syn s.sends)
            ∙ e,
        subst (λ n. IsControl server.tcp.snd.iss n 18 seg) next control,
      )

  -- And the ACK.
  confirms :
      (syn_ack : Segment)
      → IsControl server.tcp.snd.iss (client.tcp.snd.iss + 1) 18 syn_ack
      → (ack : Segment) × (last_heard (syn_sent_seg lib client syn_ack) ≡ some ack)
        × IsControl (client.tcp.snd.iss + 1) (add32 syn_ack.seq 1) 16 ack
  confirms syn_ack second =
      let (reset, is_ack, is_syn) = syn_ack-flags syn_ack second.flags in
      let (seg, e, control) =
        send_ctrl_seg-heard (confirming client syn_ack) syn_ack.ack (add32 syn_ack.seq 1) 16
          c.memory (omega (arith, second.ack, c.room)) (omega arith) (omega arith) c.port
          c.window in
      (
        seg,
        ap (λ ds. heard (newest ds))
              (syn_sent_seg-sent lib client syn_ack c.una (omega (arith, counted))
                (second.ack ∙ sym counted) reset is_ack is_syn c.sends)
            ∙ e,
        subst (λ n. IsControl n (add32 syn_ack.seq 1) 16 seg) (second.ack) control,
      )

  -- A LISTEN connection that has used no number and has an open receive window, and one in SYN-SENT
  -- with its SYN outstanding and counted. A SYN with the client's initial number is handled in LISTEN,
  -- the segment that the server's last datagram then holds in SYN-SENT, and the one that the client's
  -- last datagram holds in SYN-RECEIVED: both are accepted by `tcp_unpack`. Where memory is granted, the
  -- IP layers take what is sent, and neither the numbers nor the server's window go round 2 ^ 32, both
  -- ends are ESTABLISHED, each expects the number that the other one sends next, both have everything
  -- acknowledged, and the SYN is not outstanding any more. Ports and windows have 16 bits.
  pub handshake :
      (syn_ack : Segment) × (last_heard listening ≡ some syn_ack)
      × (ack : Segment) × (last_heard (syn_sent_seg lib client syn_ack) ≡ some ack)
      × IsSynchronized (syn_sent_seg lib client syn_ack) (syn_received_seg lib listening ack)
      × ((syn_sent_seg lib client syn_ack).tcp.tx_seg ≡ none)
  handshake =
      let (reset, no_ack, is_syn) = syn-flags syn first.flags in
      let (syn_ack, sent, second) = answers in
      let (reset2, is_ack, is_syn2) = syn_ack-flags syn_ack second.flags in
      let (ack, sent2, third) = confirms syn_ack second in
      let s1 = listen_seg-syn lib server syn reset no_ack is_syn s.sends in
      let c1 =
        syn_sent_seg-syn_ack lib client syn_ack tx out c.una (omega (arith, counted))
          (omega (arith, counted, c.room)) (second.ack ∙ sym counted) reset2 is_ack is_syn2
          c.sends in
      let next : listening.tcp.rcv.nxt ≡ client.tcp.snd.iss + 1 =
        rw (s1, first.seq) (omega (arith, c.room)) in
      let (both, done) =
        meets lib server client tx syn syn_ack ack s c fresh counted out open_window room first
          (record {
            seq = second.seq ∙ sym (ap (λ (t : Tcp). t.snd.iss) s1);
            ack = second.ack ∙ sym next;
            flags = second.flags;
            no_text = second.no_text;
          })
          (record {
            seq = third.seq ∙ (sym counted ∙ sym (ap (λ (t : Tcp). t.snd.una) c1));
            ack = third.ack ∙ sym (ap (λ (t : Tcp). t.rcv.nxt) c1);
            flags = third.flags;
            no_text = third.no_text;
          }) in
      (syn_ack, sent, ack, sent2, both, done)
