-- ===== src/Socket/Stream.antt =====
-- The TCP half of socket/socket.c: `listen`, `accept`, `connect`, `close`, and the branches of `sendto`
-- and `recvfrom`. `none` is a read through NULL. The position in `tcp` holds as long as `tcp_loop`
-- takes no connection off the list.
use dts_net.Base.{ℕ, zero, suc, ◌+◌, bit_and, Bool, true, false, Option, none, some, List}
use dts_net.Base.{if◌then◌else◌, ltb, ◌==◌, length, set, get_or, drop}
use dts_net.Endian.{Buffer}
use dts_net.Ip.{Ip, IpAddr}
use dts_net.Mem.{list_free}
use dts_net.EtherArp.{FindLib, Nif, ip_find_netif}
use dts_net.Tcp.{ListLib, Tcp, Conn, Table, tcp_open, tcp_close, tcp_send, tcp_recv, nth_tcp}
use dts_net.Tcp.{State, listen, syn_sent, syn_received, established, fin_wait_1, fin_wait_2}
use dts_net.Tcp.{time_wait, close_wait, last_ack, closing, closed}
use dts_net.Inet.{htons}
use dts_net.Socket.Defs.{Sockets, Answer, value, errno, is_tcp_sock, put, socket, nacv}
use dts_net.Socket.Defs.{einval}

-- The place of a state in the enumeration of include/dts_net_tcp.h.
unfoldable pub state_number : State → ℕ
state_number listen = 0
state_number syn_sent = 1
state_number syn_received = 2
state_number established = 3
state_number fin_wait_1 = 4
state_number fin_wait_2 = 5
state_number time_wait = 6
state_number close_wait = 7
state_number last_ack = 8
state_number closing = 9
state_number closed = 10

-- What the pointer points to.
abbrev pub tcp_at : List Tcp → Option ℕ → Option Tcp
tcp_at ts none = none
tcp_at ts (some i) = nth_tcp ts i

-- `tcp_status`
unfoldable pub tcp_status : Option Tcp → State
tcp_status none = closed
tcp_status (some t) = t.state

-- What the calls of a TCP socket work on.
pub record Streams : Type 0 where
  pub sockets : Sockets
  pub table : Table

abbrev pub status_of : Streams → ℕ → State
status_of w fd = tcp_status (tcp_at w.table.tcps (w.sockets.item fd).tcp)

-- The connection at a position after a call on it.
abbrev pub store_conn : Streams → ℕ → Conn → Streams
store_conn w i c = record w { table = record { tcps = set w.table.tcps i c.tcp; net = c.net } }

-- What `tcp_open` returns is stored in the socket; a new connection is the last of `tcp_list`.
unfoldable pub store_opened : Streams → ℕ → Option (Table × Bool) → Option (Streams × Bool)
store_opened w fd none = none
store_opened w fd (some (tb, opened)) =
    let sk = record (w.sockets.item fd) {
      tcp = if opened then some (length w.table.tcps) else none;
    } in
    some (record { sockets = put w.sockets fd sk; table = tb }, opened)

-- `close` of a TCP connection, which then waits one second in TIME-WAIT.
abbrev close_conn : ListLib → Streams → ℕ → Option Tcp → Streams
close_conn lib w i none = w
close_conn lib w i (some t) =
    store_conn w i
      (tcp_close lib (record { tcp = record t { time_wait_seconds = 1 }; net = w.table.net }))

close_tcp : ListLib → Streams → Option ℕ → Streams
close_tcp lib w none = w
close_tcp lib w (some i) = close_conn lib w i (nth_tcp w.table.tcps i)

-- `close`
unfoldable pub close : ListLib → Streams → ℕ → Streams × Answer
unfolding close_tcp
close lib w fd =
    let sk = w.sockets.item fd in
    let w1 = if is_tcp_sock sk then close_tcp lib w sk.tcp else w in
    (record w1 { sockets = record w1.sockets { pool = list_free w1.sockets.pool fd } }, value 0)

send_on : ListLib → Streams → ℕ → Buffer → ℕ → Option Tcp → Streams × ℕ
send_on lib w i buf len none = (w, 0)
send_on lib w i buf len (some t) =
    let (c, n) = tcp_send lib (record { tcp = t; net = w.table.net }) buf len in
    (store_conn w i c, n)

-- `sendto`, and so `send`, of a TCP socket.
unfoldable pub sendto_tcp : ListLib → Streams → ℕ → Buffer → ℕ → Streams × Answer
unfolding send_on
sendto_tcp lib w fd buf len = elim (w.sockets.item fd).tcp as (λ _. Streams × Answer) [
  | none ↦ (w, errno einval)
  | some i ↦
      (let (w1, n) = send_on lib w i buf len (nth_tcp w.table.tcps i) in
        if state_number (status_of w fd) == state_number established
        then (w1, value n)
        else (w, value 0))
]

after_tcp_recv : Streams → ℕ → Option (Conn × Buffer × ℕ) → Option (Streams × Buffer × ℕ)
after_tcp_recv w i none = none
after_tcp_recv w i (some (c, mem, n)) = some (store_conn w i c, mem, n)

recv_on : ListLib → Streams → Option ℕ → Buffer → ℕ → Option Tcp → Option (Streams × Buffer × ℕ)
unfolding after_tcp_recv
recv_on lib w none buf len t = some (w, buf, 0)
recv_on lib w (some i) buf len none = some (w, buf, 0)
recv_on lib w (some i) buf len (some t) =
    after_tcp_recv w i (tcp_recv lib (record { tcp = t; net = w.table.net }) buf len)

with_value : Option (Streams × Buffer × ℕ) → Option (Streams × Buffer × Answer)
with_value none = none
with_value (some (w, mem, n)) = some (w, mem, value n)

-- `recvfrom`, and so `recv`, of a TCP socket; `errno 1` is -1, and `none` is out of rounds.
unfoldable pub recvfrom_tcp :
    ListLib → Streams → ℕ → Buffer → ℕ → Option (Streams × Buffer × Answer)
unfolding recv_on with_value
recvfrom_tcp lib w fd buf len =
    let at = (w.sockets.item fd).tcp in
    let received = with_value (recv_on lib w at buf len (tcp_at w.table.tcps at)) in
    let status = state_number (status_of w fd) in
    if status == state_number established
    then received
    else if ltb (state_number established) status
    then some (w, buf, errno 1)
    else some (w, buf, value 0)

-- The port of a try of `connect`.
unfoldable pub local_port : ℕ → ℕ
local_port rand = bit_and rand 0xfbff + 1024

-- What follows a try: the result where a connection was opened, else what is left to do.
unfoldable pub next_try :
    (Streams → Option (Streams × Answer)) → Option (Streams × Bool) → Option (Streams × Answer)
next_try again none = none
next_try again (some (w, true)) = some (w, value 0)
next_try again (some (w, false)) = again w

module _ (lib : ListLib) (flib : FindLib) (nifs : List Nif) where
  -- NULL is read where the socket was never bound.
  unfoldable pub open_on : Streams → ℕ → Option Ip → Option (Streams × Bool)
  open_on w fd none = none
  open_on w fd (some ip) =
      store_opened w fd
        (tcp_open lib w.table (ip_find_netif flib nifs ip.addr) (w.sockets.item fd).port none 0)

  -- The passive open of `listen` and `accept`, on the interface and the port that `bind` stored.
  unfoldable pub open_passive : Streams → ℕ → Option (Streams × Bool)
  open_passive w fd = open_on w fd (w.sockets.item fd).ip

  listen_answer : Option (Streams × Bool) → Option (Streams × Answer)
  listen_answer none = none
  listen_answer (some (w, opened)) = some (w, if opened then value 0 else errno 1)

  -- `listen`; the C name is the one of a state here.
  unfoldable pub listen_on : Streams → ℕ → Option (Streams × Answer)
  unfolding listen_answer
  listen_on w fd =
      if is_tcp_sock (w.sockets.item fd)
      then listen_answer (open_passive w fd)
      else some (w, errno 1)

  with_answer : Answer → Option (Streams × Bool) → Option (Streams × Answer)
  with_answer a none = none
  with_answer a (some (w, opened)) = some (w, a)

  -- The new socket takes over the connection, and the old one listens again. The address of an
  -- item is positive.
  unfoldable pub accept_into : Table → ℕ → Sockets × Answer → Option (Streams × Answer)
  unfolding with_answer
  accept_into tb fd (ss, errno e) = some (record { sockets = ss; table = tb }, errno e)
  accept_into tb fd (ss, value c) =
      let ss1 = put ss c (record (ss.item c) { tcp = (ss.item fd).tcp }) in
      with_answer (value c) (open_passive (record { sockets = ss1; table = tb }) fd)

  -- `accept`
  unfoldable pub accept : Streams → ℕ → Option (Streams × Answer)
  accept w fd =
      let sk = w.sockets.item fd in
      let handed = accept_into w.table fd (socket sk.domain sk.kind sk.protocol w.sockets) in
      if is_tcp_sock sk
      then if state_number (status_of w fd) == state_number established
        then handed
        else some (w, errno 1)
      else some (w, errno 1)

  -- The tries that are left: `rand` gives the answers of `rand()`, the first one first.
  unfoldable pub connect_tries :
      ℕ → List ℕ → Ip → IpAddr → ℕ → ℕ → Streams → Option (Streams × Answer)
  connect_tries zero rand ip dest port fd w = some (w, errno 1)
  connect_tries (suc tries) rand ip dest port fd w =
      next_try (connect_tries tries (drop 1 rand) ip dest port fd) (
        store_opened w fd (
          tcp_open lib w.table (ip_find_netif flib nifs ip.addr) (local_port (get_or rand 0 0))
            (some dest) port))

  connect_to : List ℕ → Option Ip → IpAddr → ℕ → ℕ → Streams → Option (Streams × Answer)
  connect_to rand none dest port fd w = some (w, errno 1)
  connect_to rand (some ip) dest port fd w = connect_tries 3 rand ip dest port fd w

  -- `connect`
  unfoldable pub connect : List ℕ → ℕ → ℕ → ℕ → Streams → Option (Streams × Answer)
  unfolding connect_to
  connect rand s_addr sin_port fd w =
      let dest = nacv s_addr in
      if is_tcp_sock (w.sockets.item fd)
      then connect_to rand (ip_find_netif flib nifs dest) dest (htons sin_port) fd w
      else some (w, errno 1)
