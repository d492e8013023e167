-- ===== src/Tcp/Transitions.antt =====
-- The state machine: which states the events of dts_net_tcp.c lead to.
use dts_net.Base.{ℕ, ◌≡◌, refl, arith, Bool, true, false, Option, none, some, ◌⊎◌, sym, ap, ◌∙◌}
use dts_net.Base.{if◌then◌else◌}
use dts_net.Tcp.Defs.{ListLib, Segment, Conn, State, listen, syn_sent, syn_received, established}
use dts_net.Tcp.Defs.{fin_wait_1, fin_wait_2, time_wait, close_wait, last_ack, closing, closed}
use dts_net.Tcp.Events.{handle, map_conn, tcp_received, tcp_timeout, tcp_close, fin_pending}
use dts_net.Tcp.Receive.{fin_seg}
use dts_net.Tcp.Events.{tcp_send, send_when_established, tcp_recv}
use dts_net.Endian.{Buffer}
use dts_net.Base.{suc}
use dts_net.Dblk.{Node}
use dts_net.Tcp.Recv.{recv_loop-ends}
use dts_net.Tcp.Events.{Received, recv_loop}
use dts_net.Tcp.Frame.{state-retransmit, state-construct_data}
use dts_net.Tcp.Handlers.{
  listen_seg-state, syn_sent_seg-state, syn_received_seg-state, fin_seg-state,
}
use dts_net.Tcp.Handlers.{established_seg-state, fin_wait_2_seg-state, fin_again_seg-state}
use dts_net.Tcp.Handlers.{fin_pending-state}

-- The changes of state in SEGMENT ARRIVES of RFC 793, section 3.9, which the comments of the code cite.
abbrev pub rfc_arrow : State → State → Bool
rfc_arrow listen listen = true
rfc_arrow listen syn_received = true
rfc_arrow syn_sent syn_sent = true
rfc_arrow syn_sent syn_received = true
rfc_arrow syn_sent established = true
rfc_arrow syn_sent closed = true
rfc_arrow syn_received syn_received = true
rfc_arrow syn_received established = true
rfc_arrow syn_received close_wait = true
rfc_arrow syn_received listen = true
rfc_arrow syn_received closed = true
rfc_arrow established established = true
rfc_arrow established close_wait = true
rfc_arrow established closed = true
rfc_arrow fin_wait_1 fin_wait_1 = true
rfc_arrow fin_wait_1 fin_wait_2 = true
rfc_arrow fin_wait_1 closing = true
rfc_arrow fin_wait_1 time_wait = true
rfc_arrow fin_wait_1 closed = true
rfc_arrow fin_wait_2 fin_wait_2 = true
rfc_arrow fin_wait_2 time_wait = true
rfc_arrow fin_wait_2 closed = true
rfc_arrow time_wait time_wait = true
rfc_arrow time_wait closed = true
rfc_arrow close_wait close_wait = true
rfc_arrow close_wait closed = true
rfc_arrow last_ack last_ack = true
rfc_arrow last_ack closed = true
rfc_arrow closing closing = true
rfc_arrow closing time_wait = true
rfc_arrow closing closed = true
rfc_arrow closed closed = true
rfc_arrow _ _ = false

-- Those of them that the code follows.
abbrev pub arrival_arrow : State → State → Bool
arrival_arrow listen listen = true
arrival_arrow listen syn_received = true
arrival_arrow syn_sent syn_sent = true
arrival_arrow syn_sent established = true
arrival_arrow syn_sent closed = true
arrival_arrow syn_received syn_received = true
arrival_arrow syn_received established = true
arrival_arrow syn_received close_wait = true
arrival_arrow syn_received listen = true
arrival_arrow syn_received closed = true
arrival_arrow established established = true
arrival_arrow established close_wait = true
arrival_arrow fin_wait_1 fin_wait_1 = true
arrival_arrow fin_wait_1 fin_wait_2 = true
arrival_arrow fin_wait_2 fin_wait_2 = true
arrival_arrow fin_wait_2 time_wait = true
arrival_arrow time_wait time_wait = true
arrival_arrow close_wait close_wait = true
arrival_arrow last_ack last_ack = true
arrival_arrow last_ack closed = true
arrival_arrow closing closing = true
arrival_arrow closed closed = true
arrival_arrow _ _ = false

abbrev pub is_time_wait : State → Bool
is_time_wait time_wait = true
is_time_wait _ = false

-- Where a close leads.
abbrev pub close_target : State → State
close_target established = fin_wait_1
close_target close_wait = last_ack
close_target s = s

arrival_arrow-rfc_arrow : (s next : State) → arrival_arrow s next ≡ true → rfc_arrow s next ≡ true
arrival_arrow-rfc_arrow s next e = ground arith

arrival_arrow_self : (s : State) → arrival_arrow s s ≡ true
arrival_arrow_self s = ground arith

module _ (lib : ListLib) where
  -- The FIN that is prepared behind the segment leaves the state alone.
  pending-state :
      (s : State) (before : Option Conn) (c' : Conn)
      → map_conn (fin_pending lib s) before ≡ some c'
      → (c : Conn) × (before ≡ some c) × (c'.tcp.state ≡ c.tcp.state)
  pending-state s none c' h = cc
  pending-state s (some c) c' h =
      let same : fin_pending lib s c ≡ c' = cc in
      (c, refl, sym (ap (λ d. d.tcp.state) same) ∙ fin_pending-state lib s c)

  fin-state :
      (s next : State) (c : Conn) (seg : Segment) (c' : Conn)
      → map_conn (fin_pending lib s) (fin_seg lib next c seg) ≡ some c'
      → (c'.tcp.state ≡ c.tcp.state) ⊎ (c'.tcp.state ≡ next)
  fin-state s next c seg c' h =
      let (d, e, same) = pending-state s (fin_seg lib next c seg) c' h in
      ground (arith, fin_seg-state lib c seg next {c' = d} e)

  handle-arrow :
      (s : State) (c : Conn) (seg : Option Segment) {c' : Conn}
      → c.tcp.state ≡ s
      → handle lib s c seg ≡ some c'
      → arrival_arrow s c'.tcp.state ≡ true
  unfolding handle
  handle-arrow listen c (some seg) {c'} e h = ground (arith, listen_seg-state lib c seg)
  handle-arrow syn_sent c (some seg) {c'} e h = ground (arith, syn_sent_seg-state lib c seg)
  handle-arrow syn_received c (some seg) {c'} e h = ground (arith, syn_received_seg-state lib c seg)
  handle-arrow established c (some seg) {c'} e h = ground (arith, established_seg-state lib c seg h)
  handle-arrow fin_wait_1 c (some seg) {c'} e h =
      ground (arith, fin-state fin_wait_1 fin_wait_2 c seg c' h)
  handle-arrow fin_wait_2 c (some seg) {c'} e h = ground (arith, fin_wait_2_seg-state lib c seg)
  handle-arrow time_wait c (some seg) {c'} e h = ground (arith, fin_again_seg-state lib c seg)
  handle-arrow close_wait c (some seg) {c'} e h = ground (arith, fin_again_seg-state lib c seg)
  handle-arrow last_ack c (some seg) {c'} e h = ground (arith, fin-state last_ack closed c seg c' h)
  handle-arrow fin_wait_1 c none {c'} e h = ground (arith, fin_pending-state lib fin_wait_1 c)
  handle-arrow last_ack c none {c'} e h = ground (arith, fin_pending-state lib last_ack c)
  handle-arrow _ c (some seg) {c'} e h = ground arith
  handle-arrow _ c none {c'} e h = ground arith

  received-arrow :
      (c c' : Conn) → tcp_received lib c ≡ some c' → arrival_arrow c.tcp.state c'.tcp.state ≡ true
  unfolding tcp_received
  received-arrow c c' h =
      let (seg, q) = lib.list_dequeue Segment c.tcp.rx_segs in
      let queued = record c { tcp = record c.tcp { rx_segs = q } } in
      ground
        (arith, handle-arrow c.tcp.state queued seg {c' = c'} refl, arrival_arrow_self c.tcp.state)

  -- Whatever segment is handled, in whatever condition the connection is, the change of state is one
  -- that RFC 793 has for the arrival of a segment, and one of those that the code follows
  -- (`arrival_arrow`), unless the handler reads through NULL. Among these none leads from ESTABLISHED,
  -- FIN-WAIT-1, FIN-WAIT-2, TIME-WAIT or CLOSE-WAIT to CLOSED: a reset or a SYN in the window does not
  -- close such a connection, though the comments of `received_when_established` say that it does.
  pub tcp_received-arrow :
      (c c' : Conn)
      → tcp_received lib c ≡ some c'
      → (rfc_arrow c.tcp.state c'.tcp.state ≡ true)
        × (arrival_arrow c.tcp.state c'.tcp.state ≡ true)
  tcp_received-arrow c c' h =
      let follows = received-arrow c c' h in
      (arrival_arrow-rfc_arrow c.tcp.state c'.tcp.state follows, follows)

  timeout-state :
      (c : Conn)
      → (tcp_timeout c).tcp.state ≡ (if is_time_wait c.tcp.state then closed else c.tcp.state)
  unfolding tcp_timeout
  timeout-state c = grind (arith, state-retransmit)

  close-state : (c : Conn) → (tcp_close lib c).tcp.state ≡ close_target c.tcp.state
  unfolding tcp_close
  close-state c = grind arith

  send-state :
      (c : Conn) (bytes : Buffer) (n : ℕ) → (tcp_send lib c bytes n).0.tcp.state ≡ c.tcp.state
  unfolding tcp_send send_when_established
  send-state c bytes n = grind (arith, state-construct_data)

  recv-with_state :
      (s : State) (c : Conn) (mem : Buffer) (m : ℕ) (r : Received)
      → c.tcp.state ≡ s
      → recv_loop lib (suc (lib.list_length Node c.tcp.rx_data)) c.tcp.rx_data c.net.heap mem m 0
        ≡ some r
      → (x : Conn × Buffer × ℕ) × (tcp_recv lib c mem m ≡ some x) × (x.0.tcp.state ≡ c.tcp.state)
  unfolding tcp_recv
  recv-with_state established c mem m r e received = (
    (record { tcp = record c.tcp { rx_data = r.0 }; net = record c.net { heap = r.1 } }, r.2, r.3),
    rw (e, received) refl,
    refl,
  )
  recv-with_state _ c mem m r e received = ((c, mem, 0), rw e refl, refl)

  -- Receiving ends, and keeps the state.
  recv-state :
      (c : Conn) (mem : Buffer) (m : ℕ)
      → (r : Conn × Buffer × ℕ) × (tcp_recv lib c mem m ≡ some r) × (r.0.tcp.state ≡ c.tcp.state)
  recv-state c mem m =
      let q = c.tcp.rx_data in
      let (r, e, _) =
        recv_loop-ends lib q (suc (lib.list_length Node q)) c.net.heap mem m 0
          (omega (arith, lib.length_counts Node q)) in
      recv-with_state c.tcp.state c mem m r refl e

  -- What the user and the timer do, for a connection in any condition: only TIME-WAIT times out
  -- to CLOSED; a close leads from ESTABLISHED to FIN-WAIT-1 and from CLOSE-WAIT to LAST-ACK, and
  -- keeps any other state; sending keeps the state, and receiving ends and keeps it.
  pub user_arrows :
      (c : Conn) (bytes mem : Buffer) (n m : ℕ)
      → ((tcp_timeout c).tcp.state ≡ (if is_time_wait c.tcp.state then closed else c.tcp.state))
        × ((tcp_close lib c).tcp.state ≡ close_target c.tcp.state)
        × ((tcp_send lib c bytes n).0.tcp.state ≡ c.tcp.state)
        × ((r : Conn × Buffer × ℕ) × (tcp_recv lib c mem m ≡ some r)
            × (r.0.tcp.state ≡ c.tcp.state))
  user_arrows c bytes mem n m =
      (timeout-state c, close-state c, send-state c bytes n, recv-state c mem m)
