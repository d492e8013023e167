-- ===== src/Socket/Defs.antt =====
-- The sockets of socket/socket.c: the pool of descriptors, binding, and datagrams. A descriptor, the
-- address of an item, is the item's index here.
use dts_net.Base.{ℕ, suc, ◌/◌, ◌%◌, ◌^◌, bit_and, Bool, true, Option, none, some, List, [], ◌∷◌}
use dts_net.Base.{if◌then◌else◌, ◌==◌, ◌&&◌, ◌||◌}
use dts_net.Endian.{Buffer}
use dts_net.Dblk.{Node, Heap, dblk_node_new_with_buff, dblk_copy_from}
use dts_net.Ip.{Ip, IpAddr, IpHeader, Lower}
use dts_net.Udp.{Udp, udp_bind, udp_sendto}
use dts_net.Mem.{list_alloc, list_init}
use dts_net.EtherArp.{FindLib, Nif, ip_find_netif}
use dts_net.Tcp.{ListLib, enqueue_block, Received, recv_loop}
use dts_net.Inet.{htons}

-- `tcp` is the pointer `module.tcp`: the position in `tcp_list` of what it points to, none of NULL.
pub record Socket : Type 0 where
  pub domain : ℕ
  pub kind : ℕ
  pub protocol : ℕ
  pub ip : Option Ip
  pub port : ℕ
  pub tcp : Option ℕ
  pub rx_queue : List Node

-- The items, those that are free, and whether the pool was filled.
pub record Sockets : Type 0 where
  pub item : ℕ → Socket
  pub pool : List ℕ
  pub inited : Bool

-- A result of 0 or more, or the negative of an error's number.
pub data Answer : Type 0 where
  value errno : ℕ → Answer

abbrev pub einval : ℕ
einval = 22

abbrev pub enomem : ℕ
enomem = 12

abbrev pub is_udp_sock : Socket → Bool
is_udp_sock sk = sk.domain == 2 && sk.kind == 2 && sk.protocol == 0

abbrev pub is_tcp_sock : Socket → Bool
is_tcp_sock sk = sk.domain == 2 && sk.kind == 1 && sk.protocol == 0

-- The item `fd` becomes `sk`.
unfoldable pub put : Sockets → ℕ → Socket → Sockets
put ss fd sk = record ss { item = λ i. if i == fd then sk else ss.item i }

-- The ten sockets are put into the pool on the first call.
abbrev filled_pool : Sockets → List ℕ
filled_pool ss = if ss.inited then ss.pool else list_init 10 0 ss.pool

take_socket : Sockets → List ℕ × Option ℕ → ℕ → ℕ → ℕ → Sockets × Answer
take_socket ss (pool, none) domain kind protocol = (record ss { pool = pool }, errno enomem)
take_socket ss (pool, some fd) domain kind protocol = (
  put (record ss { pool = pool }) fd
      (record (ss.item fd) { domain = domain; kind = kind; protocol = protocol }),
  value fd,
)

unfoldable pub socket : ℕ → ℕ → ℕ → Sockets → Sockets × Answer
unfolding take_socket
socket domain kind protocol ss =
    let pool = filled_pool ss in
    let ready : Sockets = record ss { pool = pool; inited = true } in
    if domain == 2 && protocol == 0
    then if kind == 2 || kind == 1
      then take_socket ready (list_alloc pool) domain kind protocol
      else (ready, errno einval)
    else (ready, errno einval)

-- `nacv`: the four bytes of `s_addr`, the highest first.
unfoldable pub nacv : ℕ → IpAddr
nacv s_addr = record {
  version = 4;
  v4 = s_addr / 2 ^ 24 % 256 ∷ s_addr / 2 ^ 16 % 256 ∷ s_addr / 2 ^ 8 % 256 ∷ s_addr % 256 ∷ [];
  netmask = [];
}

-- The name of the callback `udp_recv`.
abbrev pub udp_recv_name : ℕ
udp_recv_name = 0

bind_udp :
    (List Udp → Udp → List Udp)
    → Bool
    → ℕ
    → Ip
    → ℕ
    → Sockets
    → List Udp
    → Sockets × List Udp × Answer
bind_udp list_add granted fd ip port ss us =
    let (us1, is_bound) = udp_bind list_add granted us ip port (some udp_recv_name) fd in
    (
      put ss fd (record (ss.item fd) { rx_queue = [] }),
      us1,
      if is_bound then value 0 else errno einval,
    )

bind_to :
    (List Udp → Udp → List Udp)
    → Bool
    → ℕ
    → Option Ip
    → ℕ
    → Sockets
    → List Udp
    → Sockets × List Udp × Answer
bind_to list_add granted fd none port ss us = (ss, us, errno einval)
bind_to list_add granted fd (some ip) port ss us =
    let sk = ss.item fd in
    if is_udp_sock sk
    then bind_udp list_add granted fd ip port ss us
    else if is_tcp_sock sk
    then (put ss fd (record sk { ip = some ip; port = port }), us, value 0)
    else (ss, us, errno einval)

-- `bind` to the address and port of a `sockaddr_in`; `granted` is the answer of the pool of ports.
unfoldable pub bind :
    FindLib → List Nif → Bool → ℕ → ℕ → ℕ → Sockets → List Udp → Sockets × List Udp × Answer
unfolding bind_to bind_udp
bind lib nifs granted fd s_addr sin_port ss us =
    bind_to (lib.list_add Udp) granted fd (ip_find_netif lib nifs (nacv s_addr)) (htons sin_port) ss
      us

-- `sendto` of a datagram; `found` is what `ip_find_netif` gives for the destination, `hdr` the IP
-- header on the stack.
unfoldable pub sendto_udp :
    FindLib → List Nif → IpHeader → ℕ → ℕ → Buffer → ℕ → Lower → Lower × Answer
sendto_udp lib nifs hdr s_addr sin_port buf len low =
    let dest = nacv s_addr in
    let (low1, sent) =
      udp_sendto (ip_find_netif lib nifs dest) hdr dest (htons sin_port) buf (len % 2 ^ 16) low in
    (low1, value (if sent then len else 0))

abbrev pub after_receive : Sockets → ℕ → Option Received → Option (Sockets × Heap × Buffer × Answer)
after_receive ss fd none = none
after_receive ss fd (some (q, h, buf, n)) =
    some (put ss fd (record (ss.item fd) { rx_queue = q }), h, buf, value n)

module _ (lib : ListLib) where
  pub queue_copy : Sockets → ℕ → Buffer → ℕ → Option Node × Heap → Sockets × Heap
  queue_copy ss fd bytes size (none, h) = (ss, h)
  queue_copy ss fd bytes size (some rx, h) =
      let (copy, n) = dblk_copy_from (rx ∷ []) bytes size in
      let sk = ss.item fd in
      (put ss fd (record sk { rx_queue = enqueue_block lib sk.rx_queue copy }), h)

  -- The callback `udp_recv`: the datagram is copied into a node and queued, where memory is granted.
  unfoldable pub udp_recv : ℕ → Buffer → ℕ → Sockets → Heap → Sockets × Heap
  unfolding queue_copy
  udp_recv fd bytes size ss heap = queue_copy ss fd bytes size (dblk_node_new_with_buff size heap)

  -- `recvfrom` of a UDP socket: the memory of the user, and the number of bytes. Its loop is, word
  -- for word, the one of `recv_when_established` in dts_net_tcp.c; `none` is out of rounds.
  unfoldable pub recvfrom_udp :
      ℕ → Buffer → ℕ → ℕ → Sockets → Heap → Option (Sockets × Heap × Buffer × Answer)
  recvfrom_udp fd buf len flags ss heap =
      let sk = ss.item fd in
      let fuel = suc (lib.list_length Node sk.rx_queue) in
      let received = after_receive ss fd (recv_loop lib fuel sk.rx_queue heap buf len 0) in
      if bit_and flags 0x40 == 0 then some (ss, heap, buf, errno einval) else received
