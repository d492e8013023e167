-- ===== src/Socket/Tests.antt =====
-- A UDP socket on a concrete queue and heap, and TCP sockets on a concrete connection.
use dts_net.Base.{ℕ, ◌⊎◌, sym, Bool, append-nil, if◌then◌else◌}
use dts_net.Endian.{lr32}
use dts_net.Ip.{Ip, ip_addr_same_lan}
use dts_net.EtherArp.{FindLib, Nif, ip_find_netif, ether_arp_get_ip_by_addr}
use dts_net.Tcp.{Tcp, Net, established, inited, port_in_use}
use dts_net.Inet.{htons}
use dts_net.Socket.Stream.{Streams, tcp_status, accept, connect, close}
use dts_net.Socket.Accept.{IsAccepted, accept-IsAccepted}
use dts_net.Socket.Connect.{IsConnected, IsCrowded, connect-outcome}
use dts_net.Socket.Reuse.{socket-close}
use dts_net.Base.{
  ◌≡◌, refl, arith, true, false, Option, none, some, List, [], ◌∷◌, ◌++◌, length, take, replicate,
}
use dts_net.Endian.{Buffer}
use dts_net.Dblk.{Heap}
use dts_net.Tcp.{ListLib}
use dts_net.Mem.{list_alloc, list_init, list_free}
use dts_net.Socket.Defs.{
  Socket, Sockets, Answer, value, errno, socket, einval, nacv, udp_recv, recvfrom_udp,
}
use dts_net.Socket.Datagram.{recvfrom_udp-udp_recv}

abbrev first : {A : Type 0} → List A → Option A × List A
first [] = (none, [])
first (x ∷ q) = (some x, q)

abbrev fifo : ListLib
fifo = record {
  list_enqueue = λ A q x. q ++ x ∷ [];
  list_dequeue = λ A q. first q;
  list_length = λ A q. length q;
  enqueue_at_end = λ A q x. refl;
  dequeue_empty = λ A. refl;
  dequeue_front = λ A x q. refl;
  length_counts = λ A q. refl;
}

abbrev idle_socket : Socket
idle_socket = record {
  domain = 2;
  kind = 2;
  protocol = 0;
  ip = none;
  port = 0;
  tcp = none;
  rx_queue = [];
}

abbrev table : Sockets
table = record { item = λ i. idle_socket; pool = []; inited = false }

abbrev heap : Heap
heap = record { grant = λ n. true; asked = 0; live = 0; junk = 0xcc }

socket_first : (socket 2 2 0 table).1 ≡ value 0
unfolding socket list_init list_alloc list_free
socket_first = refl

socket_of_no_type : (socket 2 3 0 table).1 ≡ errno einval
unfolding socket
socket_of_no_type = refl

nacv_order : (nacv 0x0a000007).v4 ≡ 10 ∷ 0 ∷ 0 ∷ 7 ∷ []
unfolding nacv
nacv_order = refl

abbrev text : Buffer
text = 1 ∷ 2 ∷ 3 ∷ []

abbrev reading : Option (Sockets × Heap × Buffer × Answer)
reading =
    let (ss, h) = udp_recv fifo 0 text 3 table heap in
    recvfrom_udp fifo 0 (replicate 8 0) 8 0x40 ss h

recvfrom_udp-udp_recv_example :
    (r : Sockets × Heap × Buffer × Answer) × (reading ≡ some r)
    × (r.3 ≡ value 3)
    × (take 3 r.2 ≡ text)
    × ((r.0.item 0).rx_queue ≡ [])
recvfrom_udp-udp_recv_example =
    recvfrom_udp-udp_recv fifo 0 text 3 table heap (replicate 8 0) 8 0x40 (λ n. refl) refl
      (omega arith) (omega arith) (omega arith) refl

-- The first element that matches.
abbrev first_match : (A : Type 0) → (A → Bool) → List A → Option A
first_match A p [] = none
first_match A p (x ∷ q) = let rest = first_match A p q in if p x then some x else rest

-- A list library that puts elements at the end.
abbrev plain : FindLib
plain = record {
  list_add = λ A q x. q ++ (x ∷ []);
  list_find = first_match;
  before = λ A q. q;
  after = λ A q. [];
  splits = λ A q. sym (append-nil q);
  adds = λ A q x. refl;
  find_nil = λ A p. refl;
  find_cons = λ A p x q. refl;
}

abbrev host : Ip
host = record {
  id = 1;
  addr = record { version = 4; v4 = 10 ∷ 0 ∷ 0 ∷ 7 ∷ []; netmask = 255 ∷ 0 ∷ 0 ∷ 0 ∷ [] };
}

abbrev nifs : List Nif
nifs = record { ip = host; eth = record { id = 1; mac_address = replicate 6 2 } } ∷ []

-- A passive connection on port 80 that a peer has established.
abbrev peer : Tcp
peer = record {
  passive = true;
  dest = record { version = 4; v4 = 10 ∷ 0 ∷ 0 ∷ 9 ∷ []; netmask = [] };
  dest_port = 4000;
  localhost = host;
  port = 80;
  state = established;
  rx_segs = [];
  tx_data = [];
  rx_data = [];
  tx_seg = none;
  snd = record { una = 100; nxt = 100; iss = 99 };
  rcv = record { nxt = 500; irs = 499; wnd = 1500 };
  tmr = inited;
  time_wait_seconds = 120;
}

abbrev stream : Socket
stream = record idle_socket { kind = 1; ip = some host; port = 80; tcp = some 0 }

abbrev around : Net
around = record { heap = heap; sent = []; accept = λ n. true; tick_s = 9 }

-- Socket 0 points to the connection; the pool is `pool`.
abbrev streams : List ℕ → Streams
streams pool = record {
  sockets = record { item = λ i. stream; pool = pool; inited = true };
  table = record { tcps = peer ∷ []; net = around };
}

accept-IsAccepted_example :
    (w1 : Streams) × (accept fifo plain nifs (streams (1 ∷ 2 ∷ [])) 0 ≡ some (w1, value 1))
    × IsAccepted fifo 0 1 host (streams (1 ∷ 2 ∷ [])) w1
unfolding tcp_status ip_find_netif ether_arp_get_ip_by_addr ip_addr_same_lan lr32 port_in_use
accept-IsAccepted_example =
    accept-IsAccepted fifo plain nifs (streams (1 ∷ 2 ∷ [])) 0 1 (2 ∷ []) host host refl refl refl
      refl (λ e. omega (arith, e)) refl refl refl (λ n. refl)

connect-outcome_example :
    (w1 : Streams) × (a : Answer) × (connect fifo plain nifs
        (7 ∷ 8 ∷ 9 ∷ [])
        0x0a000009
        80
        0
        (streams [])
      ≡ some (w1, a))
    × (((a ≡ value 0) × IsConnected host (nacv 0x0a000009) (htons 80) 0 (streams []).table w1)
        ⊎ ((a ≡ errno 1)
            × IsCrowded fifo host
                (7 ∷ 8 ∷ 9 ∷ [])
                3
                0
                ((streams []).sockets.item 0).tcp
                (streams []).table
                w1))
unfolding ip_find_netif ether_arp_get_ip_by_addr ip_addr_same_lan lr32 nacv
connect-outcome_example =
    connect-outcome fifo plain nifs (7 ∷ 8 ∷ 9 ∷ []) 0x0a000009 80 0 (streams []) host host refl
      refl refl (λ n. refl)

socket-close_example :
    let (ss, a) = socket 2 1 0 (close fifo (streams []) 0).0.sockets in
    (a ≡ value 0) × ((ss.item 0).tcp ≡ some 0)
socket-close_example = socket-close fifo (streams []) 0 refl refl
