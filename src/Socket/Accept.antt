-- ===== src/Socket/Accept.antt =====
-- `accept` hands the established connection over and listens again.
use dts_net.Base.{
  ==-same, ℕ, ◌≡◌, ◌≢◌, refl, sym, ap, ap₂, ◌∙◌, arith, true, false, none, some, List, ◌∷◌, length,
  ◌==◌,
}
use dts_net.Ip.{Ip}
use dts_net.Mem.{list_alloc}
use dts_net.EtherArp.{FindLib, Nif, ip_find_netif}
use dts_net.Tcp.{ListLib, Tcp, Table, established, port_in_use, tcp_open}
use dts_net.Tcp.Open.{IsOpened, tcp_open-IsOpened}
use dts_net.Socket.Defs.{Socket, Sockets, value, is_tcp_sock, put, socket}
use dts_net.Socket.Stream.{
  Streams, status_of, state_number, open_on, open_passive, accept_into, accept,
}
use dts_net.Socket.Stream.{store_opened}

-- What an `accept` of the socket `fd` that gave the socket `c` leaves.
pub record IsAccepted (lib : ListLib) (fd c : ℕ) (ip : Ip) (w w1 : Streams) : Type 0 where
  pub handed_over : (w1.sockets.item c).tcp ≡ (w.sockets.item fd).tcp
  pub is_stream : is_tcp_sock (w1.sockets.item c) ≡ true
  pub listens : (w1.sockets.item fd).tcp ≡ some (length w.table.tcps)
  pub opened : (t : Tcp) × IsOpened none ip (w.sockets.item fd).port 0 w.table w1.table t

record IsTcpSock (sk : Socket) : Type 0 where
  inet : sk.domain ≡ 2
  stream : sk.kind ≡ 1
  default : sk.protocol ≡ 0

is_tcp_sock-IsTcpSock : (sk : Socket) → is_tcp_sock sk ≡ true → IsTcpSock sk
is_tcp_sock-IsTcpSock sk h = record {
  inet = ground arith;
  stream = ground arith;
  default = ground arith;
}

==-other : (c fd : ℕ) → c ≢ fd → c == fd ≡ false
==-other c fd other = ground arith

-- The socket that the pool gives has the type that was asked for, and the other ones stay.
socket-stream :
    (sk : Socket) (ss : Sockets) (c : ℕ) (pool : List ℕ)
    → IsTcpSock sk
    → ss.inited ≡ true
    → ss.pool ≡ c ∷ pool
    → socket sk.domain sk.kind sk.protocol ss ≡ (
      put
          (record ss { pool = pool; inited = true })
          c
          (record (ss.item c) { domain = 2; kind = 1; protocol = 0 }),
      value c,
    )
unfolding socket list_alloc
socket-stream sk ss c pool is inited free = rw (is.inet, is.stream, is.default, inited, free) refl

pub item-put_self : (ss : Sockets) (i : ℕ) (sk : Socket) → (put ss i sk).item i ≡ sk
unfolding put
item-put_self ss i sk = rw (==-same i) refl

item-put_other : (ss : Sockets) (i j : ℕ) (sk : Socket) → j ≢ i → (put ss i sk).item j ≡ ss.item j
unfolding put
item-put_other ss i j sk other = rw (==-other j i other) refl

module _ (lib : ListLib) (flib : FindLib) (nifs : List Nif) where
  -- What the passive open of a bound socket `sk` leaves: it points to a new connection.
  abbrev opening : Streams → ℕ → Socket → Table → Streams
  opening w fd sk tb1 = record {
    sockets = put w.sockets fd (record sk { tcp = some (length w.table.tcps) });
    table = tb1;
  }

  open_passive-IsOpened :
      (w : Streams) (fd : ℕ) (sk : Socket) (bound ip : Ip)
      → w.sockets.item fd ≡ sk
      → sk.ip ≡ some bound
      → ip_find_netif flib nifs bound.addr ≡ some ip
      → port_in_use lib w.table.tcps ip sk.port ≡ false
      → ((n : ℕ) → w.table.net.heap.grant n ≡ true)
      → (tb1 : Table) × (open_passive lib flib nifs w fd ≡ some (opening w fd sk tb1, true))
        × ((t : Tcp) × IsOpened none ip sk.port 0 w.table tb1 t)
  unfolding open_passive open_on store_opened
  open_passive-IsOpened w fd sk bound ip here on found unused all =
      let (tb1, e, opened) = tcp_open-IsOpened lib w.table ip sk.port 0 all unused none in
      (
        tb1,
        ap (open_on lib flib nifs w fd) (ap (λ s. s.ip) here ∙ on)
            ∙ (ap (λ x. store_opened w fd (tcp_open lib w.table x (w.sockets.item fd).port none 0))
                  found
                ∙ (ap (λ s. store_opened w fd (tcp_open lib w.table (some ip) s.port none 0)) here
                    ∙ (ap (store_opened w fd) e ∙ ap (λ s. some (opening w fd s tb1, true)) here))),
        opened,
      )

  -- For a bound TCP socket whose connection is ESTABLISHED, where the pool has another socket,
  -- memory is granted and no active connection has the port, `accept` returns the other socket: a TCP
  -- socket that points to the connection. The first one points to a new connection in LISTEN on its
  -- port, the last of `tcp_list`, whose others stay as they were.
  pub accept-IsAccepted :
      (w : Streams) (fd c : ℕ) (pool : List ℕ) (bound ip : Ip)
      → is_tcp_sock (w.sockets.item fd) ≡ true
      → status_of w fd ≡ established
      → w.sockets.inited ≡ true
      → w.sockets.pool ≡ c ∷ pool
      → c ≢ fd
      → (w.sockets.item fd).ip ≡ some bound
      → ip_find_netif flib nifs bound.addr ≡ some ip
      → port_in_use lib w.table.tcps ip (w.sockets.item fd).port ≡ false
      → ((n : ℕ) → w.table.net.heap.grant n ≡ true)
      → (w1 : Streams) × (accept lib flib nifs w fd ≡ some (w1, value c))
        × IsAccepted lib fd c ip w w1
  unfolding accept accept_into state_number
  accept-IsAccepted w fd c pool bound ip tcp_sock up inited free other on found unused all =
      let sk = w.sockets.item fd in
      let not_c : fd ≢ c = λ x. other (sym x) in
      let new : Socket = record (w.sockets.item c) { domain = 2; kind = 1; protocol = 0 } in
      let ss1 = put (record w.sockets { pool = pool; inited = true }) c new in
      let ss2 = put ss1 c (record (ss1.item c) { tcp = (ss1.item fd).tcp }) in
      let w2 : Streams = record { sockets = ss2; table = w.table } in
      let same1 : ss1.item fd ≡ sk = item-put_other _ c fd new not_c in
      let same2 : ss2.item fd ≡ sk = item-put_other ss1 c fd _ not_c ∙ same1 in
      let (tb1, e, opened) = open_passive-IsOpened w2 fd sk bound ip same2 on found unused all in
      let taken =
        socket-stream sk w.sockets c pool (is_tcp_sock-IsTcpSock sk tcp_sock) inited free in
      let sk1 : Socket = record sk { tcp = some (length w.table.tcps) } in
      let at_c : (put ss2 fd sk1).item c ≡ record new { tcp = sk.tcp } =
        item-put_other ss2 fd c sk1 other
        ∙ (item-put_self ss1 c _
            ∙ ap₂ {A = Socket} (λ s t. record s { tcp = t }) (item-put_self _ c new)
                (ap (λ s. s.tcp) same1)) in
      (
        opening w2 fd sk tb1,
        rw (tcp_sock, up, taken, e) refl,
        record {
          handed_over = ap (λ s. s.tcp) at_c;
          is_stream = ap is_tcp_sock at_c;
          listens = ap (λ s. s.tcp) (item-put_self ss2 fd sk1);
          opened = opened;
        },
      )
