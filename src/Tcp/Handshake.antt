-- ===== src/Tcp/Handshake.antt =====
-- The three-way handshake at both ends.
use dts_net.Base.{ℕ, ◌≡◌, ◌<◌, ◌^◌, refl, arith, Bool, true, false}
use dts_net.Base.{ltb, ◌∙◌, length, ap}
use dts_net.Base.{none, some}
use dts_net.Tcp.Defs.{ListLib, Segment, Tcp, Conn, seg_ctrl_r, seg_ctrl_a, seg_ctrl_s}
use dts_net.Tcp.Defs.{established, syn_received, stopped}
use dts_net.Tcp.Seq.{sncmp, ls, le}
use dts_net.Tcp.Send.{tcp_send_ctrl_seg, tcp_ip_send, add32, tcp_tx_seg_complete}
use dts_net.Tcp.Receive.{listen_seg, syn_sent_seg, syn_sent_accept}
use dts_net.Tcp.Frame.{tcp-send_ctrl_seg}
use dts_net.Tcp.Lengths.{length-ctrl_seg}
use dts_net.Tcp.Acceptance.{send_ack-tcp}

-- Whether the IP layer takes the next datagram.
abbrev pub will_send : Conn → Bool
will_send c = c.net.accept (length c.net.sent)

send_ctrl_seg-went :
    (c : Conn) (seq ack flags : ℕ) → (tcp_send_ctrl_seg c seq ack flags).1 ≡ will_send c
unfolding tcp_send_ctrl_seg tcp_ip_send
send_ctrl_seg-went c seq ack flags = ground arith

-- A SYN,ACK that goes out takes one sequence number.
syn_ack-nxt :
    (c : Conn) (seq ack : ℕ)
    → will_send c ≡ true
    → (tcp_send_ctrl_seg c seq ack 18).0.tcp
      ≡ record c.tcp { snd = record c.tcp.snd { nxt = add32 c.tcp.snd.nxt 1 } }
syn_ack-nxt c seq ack h =
    let went = send_ctrl_seg-went c seq ack 18 ∙ h in
    let len = length-ctrl_seg c.tcp c.net.heap.junk seq ack 18 in
    tcp-send_ctrl_seg c seq ack 18 ∙ (rw (went, len) refl)

-- The connection that answers a SYN, and the one that answers a SYN,ACK.
abbrev pub answering : Conn → Segment → Conn
answering c seg = record c {
  tcp = record c.tcp {
    rcv = record c.tcp.rcv { nxt = add32 seg.seq 1; irs = seg.seq };
    dest_port = seg.src_port;
    dest = seg.src;
  };
}

abbrev pub confirming : Conn → Segment → Conn
confirming c seg = record c {
  tcp = record c.tcp {
    rcv = record c.tcp.rcv { nxt = add32 seg.seq 1; irs = seg.seq };
    snd = record c.tcp.snd { una = seg.ack };
  };
}

-- A LISTEN connection that gets a SYN, with no acknowledgment and no reset, takes the sender as
-- its peer, expects the number after the SYN, and is in SYN-RECEIVED with its own SYN counted,
-- where the IP layer takes the SYN,ACK.
pub listen_seg-syn :
    (lib : ListLib) (c : Conn) (seg : Segment)
    → seg_ctrl_r seg ≡ false
    → seg_ctrl_a seg ≡ false
    → seg_ctrl_s seg ≡ true
    → will_send c ≡ true
    → (listen_seg lib c seg).tcp ≡ record c.tcp {
      state = syn_received;
      dest = seg.src;
      dest_port = seg.src_port;
      rcv = record c.tcp.rcv { nxt = add32 seg.seq 1; irs = seg.seq };
      snd = record c.tcp.snd { nxt = add32 c.tcp.snd.nxt 1 };
    }
unfolding listen_seg
listen_seg-syn lib c seg reset ack syn ready =
    let rcv1 = record c.tcp.rcv { nxt = add32 seg.seq 1; irs = seg.seq } in
    let c2 : Conn = record c {
      tcp = record c.tcp { rcv = rcv1; dest_port = seg.src_port; dest = seg.src };
    } in
    let went = send_ctrl_seg-went c2 c2.tcp.snd.iss c2.tcp.rcv.nxt 18 ∙ ready in
    rw (reset, ack, syn, went)
      (ap (λ (t : Tcp). record t { state = syn_received })
        (syn_ack-nxt c2 c2.tcp.snd.iss c2.tcp.rcv.nxt ready))

-- It handed down what `tcp_send_ctrl_seg` made of its own first number and of the one after the SYN.
pub listen_seg-net :
    (lib : ListLib) (c : Conn) (seg : Segment)
    → seg_ctrl_r seg ≡ false
    → seg_ctrl_a seg ≡ false
    → seg_ctrl_s seg ≡ true
    → will_send c ≡ true
    → (listen_seg lib c seg).net
      ≡ (tcp_send_ctrl_seg (answering c seg) c.tcp.snd.iss (add32 seg.seq 1) 18).0.net
unfolding listen_seg
listen_seg-net lib c seg reset ack syn ready =
    let went = send_ctrl_seg-went (answering c seg) c.tcp.snd.iss (add32 seg.seq 1) 18 ∙ ready in
    rw (reset, ack, syn, went) refl

pub complete-tcp :
    (c : Conn) (tx : Segment)
    → c.tcp.tx_seg ≡ some tx
    → (tcp_tx_seg_complete c).tcp ≡ record c.tcp { tx_seg = none; tmr = stopped }
unfolding tcp_tx_seg_complete
complete-tcp c tx h = ground arith

pub sncmp_all : (a b : ℕ) → a < b → (sncmp a ls b le b ≡ true) × (sncmp a le b le b ≡ true)
unfolding sncmp
sncmp_all a b h = (ground arith, ground arith)

-- What an acceptable SYN,ACK makes of the connection.
accept-tcp :
    (lib : ListLib) (c : Conn) (seg tx : Segment)
    → c.tcp.tx_seg ≡ some tx
    → c.tcp.snd.iss < seg.ack
    → c.tcp.snd.nxt < 2 ^ 32
    → seg_ctrl_r seg ≡ false
    → seg_ctrl_s seg ≡ true
    → will_send c ≡ true
    → (syn_sent_accept lib c seg).tcp ≡ record c.tcp {
      state = established;
      tx_seg = none;
      tmr = stopped;
      rcv = record c.tcp.rcv { nxt = add32 seg.seq 1; irs = seg.seq };
      snd = record c.tcp.snd { una = seg.ack };
    }
unfolding syn_sent_accept
accept-tcp lib c seg tx out up b reset syn ready =
    let rcv1 = record c.tcp.rcv { nxt = add32 seg.seq 1; irs = seg.seq } in
    let snd1 = record c.tcp.snd { una = seg.ack } in
    let c1 : Conn = record c { tcp = record c.tcp { rcv = rcv1; snd = snd1 } } in
    let went = send_ctrl_seg-went c1 seg.ack (add32 seg.seq 1) 16 ∙ ready in
    let sent = send_ack-tcp c1 seg.ack (add32 seg.seq 1) b in
    let c2 = (tcp_send_ctrl_seg c1 seg.ack (add32 seg.seq 1) 16).0 in
    let c3 : Conn = record c2 { tcp = record c2.tcp { state = established } } in
    let later : ltb c.tcp.snd.iss seg.ack ≡ true = ground arith in
    rw (reset, syn, later, went)
      (complete-tcp c3 tx (ap (λ (t : Tcp). t.tx_seg) sent ∙ out)
        ∙ ap (λ (t : Tcp). record t { state = established; tx_seg = none; tmr = stopped }) sent)

-- A SYN-SENT connection whose SYN is acknowledged by a SYN,ACK, no reset, is ESTABLISHED: it
-- expects the number after the SYN, nothing is outstanding and its timer is stopped, where the
-- IP layer takes the ACK. `iss < nxt`, so its own SYN does not go round 2 ^ 32.
pub syn_sent_seg-syn_ack :
    (lib : ListLib) (c : Conn) (seg tx : Segment)
    → c.tcp.tx_seg ≡ some tx
    → c.tcp.snd.una ≡ c.tcp.snd.iss
    → c.tcp.snd.iss < c.tcp.snd.nxt
    → c.tcp.snd.nxt < 2 ^ 32
    → seg.ack ≡ c.tcp.snd.nxt
    → seg_ctrl_r seg ≡ false
    → seg_ctrl_a seg ≡ true
    → seg_ctrl_s seg ≡ true
    → will_send c ≡ true
    → (syn_sent_seg lib c seg).tcp ≡ record c.tcp {
      state = established;
      tx_seg = none;
      tmr = stopped;
      rcv = record c.tcp.rcv { nxt = add32 seg.seq 1; irs = seg.seq };
      snd = record c.tcp.snd { una = c.tcp.snd.nxt };
    }
unfolding syn_sent_seg
syn_sent_seg-syn_ack lib c seg tx out start up b acked reset ack syn ready =
    let (new, any) = sncmp_all c.tcp.snd.iss c.tcp.snd.nxt up in
    let accepted = accept-tcp lib c seg tx out (rw acked up) b reset syn ready in
    ground (arith, new, any, accepted)

complete-sent : (c : Conn) → (tcp_tx_seg_complete c).net.sent ≡ c.net.sent
unfolding tcp_tx_seg_complete
complete-sent c = ground arith

accept-sent :
    (lib : ListLib) (c : Conn) (seg : Segment)
    → c.tcp.snd.iss < seg.ack
    → seg_ctrl_r seg ≡ false
    → seg_ctrl_s seg ≡ true
    → will_send c ≡ true
    → (syn_sent_accept lib c seg).net.sent
      ≡ (tcp_send_ctrl_seg (confirming c seg) seg.ack (add32 seg.seq 1) 16).0.net.sent
unfolding syn_sent_accept
accept-sent lib c seg up reset syn ready =
    let c2 = (tcp_send_ctrl_seg (confirming c seg) seg.ack (add32 seg.seq 1) 16).0 in
    let went = send_ctrl_seg-went (confirming c seg) seg.ack (add32 seg.seq 1) 16 ∙ ready in
    let later : ltb c.tcp.snd.iss seg.ack ≡ true = ground arith in
    rw (reset, syn, later, went)
      (complete-sent (record c2 { tcp = record c2.tcp { state = established } }))

-- Such a SYN-SENT connection handed down what `tcp_send_ctrl_seg` made of the number that was
-- acknowledged and of the one after the peer's SYN.
pub syn_sent_seg-sent :
    (lib : ListLib) (c : Conn) (seg : Segment)
    → c.tcp.snd.una ≡ c.tcp.snd.iss
    → c.tcp.snd.iss < c.tcp.snd.nxt
    → seg.ack ≡ c.tcp.snd.nxt
    → seg_ctrl_r seg ≡ false
    → seg_ctrl_a seg ≡ true
    → seg_ctrl_s seg ≡ true
    → will_send c ≡ true
    → (syn_sent_seg lib c seg).net.sent
      ≡ (tcp_send_ctrl_seg (confirming c seg) seg.ack (add32 seg.seq 1) 16).0.net.sent
unfolding syn_sent_seg
syn_sent_seg-sent lib c seg start up acked reset ack syn ready =
    let (new, any) = sncmp_all c.tcp.snd.iss c.tcp.snd.nxt up in
    let sent = accept-sent lib c seg (rw acked up) reset syn ready in
    let newer : sncmp c.tcp.snd.iss ls seg.ack le c.tcp.snd.nxt ≡ true = rw acked new in
    let again : sncmp c.tcp.snd.una le seg.ack le c.tcp.snd.nxt ≡ true = rw (acked, start) any in
    rw (ack, newer, again) sent
