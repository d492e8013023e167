-- ===== src/Tcp/Connections.antt =====
-- `tcp_list`: demultiplexing of segments, opening, and the periodic loop. The list is the sequence
-- of its connections, and a connection is named by its position.
use dts_net.Base.{
  ℕ, zero, suc, ◌+◌, ◌%◌, ◌^◌, Bool, true, false, not, Option, none, some, List, [], ◌∷◌,
}
use dts_net.Base.{if◌then◌else◌, ◌==◌, ◌&&◌, ◌||◌, get_or, set, drop}
use dts_net.Dblk.{Node, malloc, free}
use dts_net.Ip.{Ip, IpAddr, ip_addr_equals, ip_protocol_tcp}
use dts_net.Tcp.Defs.{ListLib, Segment, Tcp, Net, Conn, inited, stopped}
use dts_net.Tcp.Defs.{State, closed}
use dts_net.Tcp.Wire.{tcp_unpack}
use dts_net.Tcp.Send.{tcp_segment_init, zero_addr}
use dts_net.Tcp.Events.{open_when_closed, deliver, tcp_timeout}

-- All connections, and what surrounds them.
pub record Table : Type 0 where
  pub tcps : List Tcp
  pub net : Net

-- Is the segment for this connection's address and port?
abbrev pub is_bound : Ip → ℕ → Tcp → Bool
is_bound ip port t = t.localhost.id == ip.id && t.port == port

-- The search of `tcp_ip_recv` from position `i` on: a connection that was opened actively, or a
-- passive one whose peer is the sender, ends it; any other passive one is the best so far.
unfoldable pub find_tcp : List Tcp → Ip → Segment → ℕ → Option ℕ → Option ℕ
find_tcp [] ip seg i best = best
find_tcp (t ∷ ts) ip seg i best =
    let is_peer = ip_addr_equals t.dest seg.src && t.dest_port == seg.src_port in
    let best1 = if is_bound ip seg.dest_port t then some i else best in
    let rest = find_tcp ts ip seg (i + 1) best1 in
    if is_bound ip seg.dest_port t && (not t.passive || is_peer) then some i else rest

abbrev pub nth_tcp : List Tcp → ℕ → Option Tcp
nth_tcp [] i = none
nth_tcp (t ∷ ts) zero = some t
nth_tcp (t ∷ ts) (suc i) = nth_tcp ts i

-- Puts a connection back after its handler ran.
abbrev put_back : Table → ℕ → Option Conn → Option Table
put_back tb i none = none
put_back tb i (some c) = some (record { tcps = set tb.tcps i c.tcp; net = c.net })

module _ (lib : ListLib) where
  open lib use {list_enqueue}

  give : Table → Segment → ℕ → Option Tcp → Option Table
  give tb seg i none = some tb
  give tb seg i (some t) = put_back tb i (deliver lib (record { tcp = t; net = tb.net }) seg)

  give_best : Table → Segment → Option ℕ → Option Table
  give_best tb seg none = some tb
  give_best tb seg (some i) = give tb seg i (nth_tcp tb.tcps i)

  -- `tcp_ip_recv` of a datagram from `src` to `dest` whose payload is the node `raw`.
  unfoldable pub tcp_ip_recv : Table → Ip → IpAddr → IpAddr → Node → Option Table
  unfolding give give_best
  tcp_ip_recv tb ip src dest raw =
      let seg = record tcp_segment_init { raw_data = raw ∷ []; src = src } in
      let (seg1, valid) = tcp_unpack src dest ip_protocol_tcp seg in
      if valid then give_best tb seg1 (find_tcp tb.tcps ip seg1 0 none) else some tb

  -- A port is taken while a connection opened actively is bound to it.
  unfoldable pub port_in_use : List Tcp → Ip → ℕ → Bool
  port_in_use [] ip port = false
  port_in_use (t ∷ ts) ip port =
      if is_bound ip port t && not t.passive then true else port_in_use ts ip port

  -- `memset` and the settings of `tcp_open`; `dest` is none for a passive open.
  abbrev pub new_tcp : Ip → ℕ → Option IpAddr → ℕ → Tcp
  new_tcp ip port dest dest_port = record {
    passive = elim dest [ none ↦ true | some _ ↦ false ];
    dest = elim dest [ none ↦ zero_addr | some d ↦ d ];
    dest_port = dest_port % 2 ^ 16;
    localhost = ip;
    port = port;
    state = closed;
    rx_segs = [];
    tx_data = [];
    rx_data = [];
    tx_seg = none;
    snd = record { una = 0; nxt = 0; iss = 0 };
    rcv = record { nxt = 0; irs = 0; wnd = 1500 };
    tmr = inited;
    time_wait_seconds = 0;
  }

  add_opened : Table → Option Conn → Option (Table × Bool)
  add_opened tb none = none
  add_opened tb (some c) =
      some (record { tcps = list_enqueue Tcp tb.tcps c.tcp; net = c.net }, true)

  -- `tcp_open`: `ip` is what `ip_find_netif(local)` gave. The flag says that a connection was
  -- opened; the outer `none` is the fault of `open_when_closed`.
  unfoldable pub tcp_open : Table → Option Ip → ℕ → Option IpAddr → ℕ → Option (Table × Bool)
  unfolding add_opened
  tcp_open tb none port dest dest_port = some (tb, false)
  tcp_open tb (some ip) port dest dest_port =
      let (got, h1) = malloc tb.net.heap in
      let c : Conn = record {
        tcp = new_tcp ip port dest dest_port;
        net = record tb.net { heap = h1 };
      } in
      if port_in_use tb.tcps ip port
      then some (tb, false)
      else if got
      then add_opened tb (open_when_closed c)
      else some (record tb { net = record tb.net { heap = h1 } }, false)

-- `tcp_loop`: `expired` answers `timer_expired` for each connection in turn. A closed connection
-- is taken off the list and freed.
unfoldable pub loop_one : Bool → Conn → Conn
loop_one expired c =
    if expired then tcp_timeout (record c { tcp = record c.tcp { tmr = stopped } }) else c

abbrev pub is_closed : State → Bool
is_closed closed = true
is_closed _ = false

unfoldable pub tcp_loop : List Tcp → List Bool → Net → Table
tcp_loop [] expired net = record { tcps = []; net = net }
tcp_loop (t ∷ ts) expired net =
    let c = loop_one (get_or expired 0 false) (record { tcp = t; net = net }) in
    let expired1 = drop 1 expired in
    let net1 = if is_closed c.tcp.state then record c.net { heap = free c.net.heap } else c.net in
    let rest = tcp_loop ts expired1 net1 in
    if is_closed c.tcp.state then rest else record rest { tcps = c.tcp ∷ rest.tcps }
