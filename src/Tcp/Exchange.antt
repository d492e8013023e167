-- ===== src/Tcp/Exchange.antt =====
-- A LISTEN and a SYN-SENT connection of dts_net_tcp.c that handle three segments with fitting numbers.
use dts_net.Base.{ℕ, ◌+◌, ◌-◌, ◌%◌, ◌^◌, ◌≡◌, ◌<◌, refl, sym, ap, ◌∙◌, arith, true, false}
use dts_net.Base.{none, some, ltb}
use dts_net.Tcp.Defs.{ListLib, Segment, Tcp, Conn, established}
use dts_net.Tcp.Defs.{seg_ctrl_a, seg_ctrl_s, seg_ctrl_r, seg_ctrl_f}
use dts_net.Tcp.Receive.{listen_seg, syn_sent_seg, syn_received_seg, syn_received_ack}
use dts_net.Tcp.Receive.{process_received_seq}
use dts_net.Tcp.Acceptance.{process_received_seq-rfc}
use dts_net.Tcp.Handshake.{will_send, listen_seg-syn, syn_sent_seg-syn_ack, sncmp_all}
use dts_net.Tcp.Heard.{IsControl}

-- Nothing is acknowledged yet, the number after the initial one does not go round 2 ^ 32, the receive
-- window and the peer's port have 16 bits, memory is granted, and the IP layer takes the next
-- datagram.
pub record IsReady (c : Conn) : Type 0 where
  pub una : c.tcp.snd.una ≡ c.tcp.snd.iss
  pub room : c.tcp.snd.iss + 1 < 2 ^ 32
  pub window : c.tcp.rcv.wnd < 2 ^ 16
  pub port : c.tcp.dest_port < 2 ^ 16
  pub memory : (n : ℕ) → c.net.heap.grant n ≡ true
  pub sends : will_send c ≡ true

-- Both ends are ESTABLISHED, each expects the number that the other one sends next, and no number
-- is left to acknowledge.
pub record IsSynchronized (a b : Conn) : Type 0 where
  pub a_state : a.tcp.state ≡ established
  pub b_state : b.tcp.state ≡ established
  pub a_to_b : a.tcp.snd.nxt ≡ b.tcp.rcv.nxt
  pub b_to_a : b.tcp.snd.nxt ≡ a.tcp.rcv.nxt
  pub a_acked : a.tcp.snd.una ≡ a.tcp.snd.nxt
  pub b_acked : b.tcp.snd.una ≡ b.tcp.snd.nxt

-- An ACK of everything sent completes a connection in SYN-RECEIVED.
syn_received_ack-all :
    (lib : ListLib) (c : Conn) (seg : Segment)
    → c.tcp.snd.una < c.tcp.snd.nxt
    → seg.ack ≡ c.tcp.snd.nxt
    → seg.flags ≡ 16
    → (syn_received_ack lib c seg).tcp
      ≡ record c.tcp { state = established; snd = record c.tcp.snd { una = c.tcp.snd.nxt } }
unfolding syn_received_ack seg_ctrl_a seg_ctrl_f
syn_received_ack-all lib c seg up acked flags =
    rw (flags, acked, (sncmp_all c.tcp.snd.una c.tcp.snd.nxt up).1) refl

syn_received_seg-ack :
    (lib : ListLib) (c : Conn) (seg : Segment)
    → 0 < c.tcp.rcv.wnd
    → c.tcp.rcv.nxt + c.tcp.rcv.wnd < 2 ^ 32
    → c.tcp.snd.una < c.tcp.snd.nxt
    → c.tcp.snd.nxt < 2 ^ 32
    → IsControl c.tcp.rcv.nxt c.tcp.snd.nxt 16 seg
    → (syn_received_seg lib c seg).tcp
      ≡ record c.tcp { state = established; snd = record c.tcp.snd { una = c.tcp.snd.nxt } }
unfolding syn_received_seg
syn_received_seg-ack lib c seg w b up n is =
    let no_reset : seg_ctrl_r seg ≡ false = unfold seg_ctrl_r in rw (is.flags) refl in
    let start : ltb ((seg.seq + 2 ^ 32 - c.tcp.rcv.nxt) % 2 ^ 32) c.tcp.rcv.wnd ≡ true =
      rw (is.seq) (ground arith) in
    let (accepted, same, _) = process_received_seq-rfc c seg w b n (omega (arith, is.seq)) in
    let c1 = (process_received_seq c seg).0 in
    let up1 : c1.tcp.snd.una < c1.tcp.snd.nxt = rw same up in
    let acked : seg.ack ≡ c1.tcp.snd.nxt = rw same (is.ack) in
    rw (accepted, start, no_reset)
      (syn_received_ack-all lib c1 seg up1 acked is.flags
        ∙ ap (λ (t : Tcp). record t { state = established; snd = record t.snd { una = t.snd.nxt } })
            same)

pub syn-flags :
    (seg : Segment)
    → seg.flags ≡ 2
    → (seg_ctrl_r seg ≡ false) × (seg_ctrl_a seg ≡ false) × (seg_ctrl_s seg ≡ true)
unfolding seg_ctrl_r seg_ctrl_a seg_ctrl_s
syn-flags seg h = rw h (refl, refl, refl)

pub syn_ack-flags :
    (seg : Segment)
    → seg.flags ≡ 18
    → (seg_ctrl_r seg ≡ false) × (seg_ctrl_a seg ≡ true) × (seg_ctrl_s seg ≡ true)
unfolding seg_ctrl_r seg_ctrl_a seg_ctrl_s
syn_ack-flags seg h = rw h (refl, refl, refl)

module _ (lib : ListLib) (server client : Conn) (tx syn syn_ack ack : Segment) (s : IsReady server)
    (c : IsReady client) (fresh : server.tcp.snd.nxt ≡ server.tcp.snd.iss)
    (counted : client.tcp.snd.nxt ≡ client.tcp.snd.iss + 1) (out : client.tcp.tx_seg ≡ some tx)
    (open_window : 0 < server.tcp.rcv.wnd)
    (room : client.tcp.snd.iss + 1 + server.tcp.rcv.wnd < 2 ^ 32)
    (first : IsControl client.tcp.snd.iss 0 2 syn) where
  abbrev server1 : Conn
  server1 = listen_seg lib server syn

  abbrev client1 : Conn
  client1 = syn_sent_seg lib client syn_ack

  abbrev server2 : Conn
  server2 = syn_received_seg lib server1 ack

  -- With the SYN,ACK and the ACK that have the numbers of the handlers.
  pub meets :
      IsControl server1.tcp.snd.iss server1.tcp.rcv.nxt 18 syn_ack
      → IsControl client1.tcp.snd.una client1.tcp.rcv.nxt 16 ack
      → IsSynchronized client1 server2 × (client1.tcp.tx_seg ≡ none)
  meets second third =
      let (reset, no_ack, is_syn) = syn-flags syn first.flags in
      let (reset2, is_ack, is_syn2) = syn_ack-flags syn_ack second.flags in
      let s1 = listen_seg-syn lib server syn reset no_ack is_syn s.sends in
      let acked : syn_ack.ack ≡ client.tcp.snd.nxt =
        second.ack ∙ (rw (s1, first.seq, counted) (omega (arith, c.room))) in
      let c1 =
        syn_sent_seg-syn_ack lib client syn_ack tx out c.una (omega (arith, counted))
          (omega (arith, counted, c.room)) acked reset2 is_ack is_syn2 c.sends in
      let nxt1 : server1.tcp.snd.nxt ≡ server.tcp.snd.iss + 1 =
        rw (s1, fresh) (omega (arith, s.room)) in
      let rcv1 : server1.tcp.rcv.nxt ≡ client.tcp.snd.iss + 1 =
        rw (s1, first.seq) (omega (arith, c.room)) in
      let una1 : server1.tcp.snd.una ≡ server.tcp.snd.iss = rw s1 s.una in
      let wnd1 : server1.tcp.rcv.wnd ≡ server.tcp.rcv.wnd = ap (λ (t : Tcp). t.rcv.wnd) s1 in
      let starts : syn_ack.seq ≡ server.tcp.snd.iss = second.seq ∙ ap (λ (t : Tcp). t.snd.iss) s1 in
      let heard : client1.tcp.rcv.nxt ≡ server1.tcp.snd.nxt =
        rw (c1, nxt1, starts) (omega (arith, s.room)) in
      let in_order : ack.seq ≡ server1.tcp.rcv.nxt = third.seq ∙ (rw (c1, rcv1) counted) in
      let completes : IsControl server1.tcp.rcv.nxt server1.tcp.snd.nxt 16 ack = record {
        seq = in_order;
        ack = third.ack ∙ heard;
        flags = third.flags;
        no_text = third.no_text;
      } in
      let s2 =
        syn_received_seg-ack lib server1 ack (rw wnd1 open_window) (rw (rcv1, wnd1) room)
          (omega (arith, una1, nxt1)) (omega (arith, nxt1, s.room)) completes in
      let sent1 : client1.tcp.snd.nxt ≡ client.tcp.snd.iss + 1 = rw c1 counted in
      (
        record {
          a_state = ap (λ (t : Tcp). t.state) c1;
          b_state = ap (λ (t : Tcp). t.state) s2;
          a_to_b = sent1 ∙ (rw s2 (sym rcv1));
          b_to_a = rw s2 (sym heard);
          a_acked = rw c1 refl;
          b_acked = rw s2 refl;
        },
        ap (λ (t : Tcp). t.tx_seg) c1,
      )
