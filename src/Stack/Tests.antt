-- ===== src/Stack/Tests.antt =====
-- A host with one interface and one bound port, a datagram for it, a frame of a type of no layer, and
-- two hosts that resolve an address.
use dts_net.Base.{
  ◌≡◌, refl, arith, sym, Bool, true, false, Option, none, some, List, [], ◌∷◌, ◌++◌, replicate,
}
use dts_net.Base.{append-nil, if◌then◌else◌, length}
use dts_net.Endian.{Buffer, br16}
use dts_net.Dblk.{Heap}
use dts_net.Ip.{Ip, IpHeader}
use dts_net.Ip.RoundTrip.{Quad}
use dts_net.Icmp.{Icmp}
use dts_net.Udp.{Udp, find_udp_by_addr}
use dts_net.Tcp.{ListLib}
use dts_net.Ether.{EtherFrame, ether_received, ether_unpack}
use dts_net.EtherArp.{FindLib, Ether, Clock}
use dts_net.Endian.{lr32}
use dts_net.Ip.{ip_addr_equals}
use dts_net.Ip.RoundTrip.{quad_bytes}
use dts_net.EtherArp.{ether_arp_get_ip, nif_of_addr, ether_arp_get_mac_address}
use dts_net.Stack.Frames.{Mac, mac_bytes, station, on_network, request_bytes, reply_bytes, padded}
use dts_net.Stack.Resolve.{resolves}
use dts_net.Stack.Defs.{Host, ip_ll_recv, zero_header, ether_ll_recv, after_frame, dispatch}
use dts_net.Stack.Datagram.{told, on_the_way, ip_ll_recv-udp_pack}
use dts_net.Stack.Layers.{IsLayered, ether_ll_recv-IsLayered}

abbrev first : {A : Type 0} → List A → Option A × List A
first [] = (none, [])
first (x ∷ q) = (some x, q)

abbrev pub fifo : ListLib
fifo = record {
  list_enqueue = λ A q x. q ++ x ∷ [];
  list_dequeue = λ A q. first q;
  list_length = λ A q. length q;
  enqueue_at_end = λ A q x. refl;
  dequeue_empty = λ A. refl;
  dequeue_front = λ A x q. refl;
  length_counts = λ A q. refl;
}

-- The first element that matches.
abbrev first_match : (A : Type 0) → (A → Bool) → List A → Option A
first_match A p [] = none
first_match A p (x ∷ q) = let rest = first_match A p q in if p x then some x else rest

abbrev pub plain : FindLib
plain = record {
  list_add = λ A q x. q ++ (x ∷ []);
  list_find = first_match;
  before = λ A q. q;
  after = λ A q. [];
  splits = λ A q. sym (append-nil q);
  adds = λ A q x. refl;
  find_nil = λ A p. refl;
  find_cons = λ A p x q. refl;
}

abbrev pub blank : Icmp
blank = record {
  kind = 0;
  code = 0;
  checksum_field = 0;
  message = record { identifier = 0; sequence_number = 0; bytes = []; size = 0 };
  bytes = [];
  size = 0;
}

abbrev pub here : Quad
here = record { a = 10; b = 0; c = 0; d = 7 }

abbrev pub there : Quad
there = record { a = 10; b = 0; c = 0; d = 9 }

abbrev pub local : Ip
local = record {
  id = 1;
  addr = record { version = 4; v4 = 10 ∷ 0 ∷ 0 ∷ 7 ∷ []; netmask = 255 ∷ 0 ∷ 0 ∷ 0 ∷ [] };
}

abbrev pub card : Ether
card = record { id = 1; mac_address = 2 ∷ 0 ∷ 0 ∷ 0 ∷ 0 ∷ 7 ∷ [] }

-- A callback at port 53.
abbrev pub bound : Udp
bound = record { low_level = 1; port = 53; callback = some 0; cb_data = 5 }

abbrev pub heap : Heap
heap = record { grant = λ n. true; asked = 0; live = 0; junk = 0 }

abbrev pub host : Host
host = record {
  lower = record { datagrams = []; accept = λ n. true; ident = 0; junk = 0 };
  calls = [];
  udps = bound ∷ [];
  table = record {
    tcps = [];
    net = record { heap = heap; sent = []; accept = λ n. true; tick_s = 0 };
  };
  nifs = record { ip = local; eth = card } ∷ [];
  arp = record { items = []; spare = 4; next_timer = 0 };
  wire = record { frames = []; accept = λ n. true };
}

abbrev pub clock : Clock
clock = record { expired = λ i. false; remain = λ i. 100 }

-- A header for a datagram of 3 bytes of text.
abbrev pub header : IpHeader
header = record zero_header { total_length = 10; protocol = 17; time_to_live = 128 }

abbrev text : Buffer
text = 6 ∷ 7 ∷ []

ip_ll_recv-udp_pack_example :
    ip_ll_recv fifo blank
      (some local)
      zero_header
      (on_the_way header there here (replicate 64 0) 64 0xcc 4000 53 text)
      host
    ≡ some (record host { calls = told bound 0 text ∷ [] })
unfolding find_udp_by_addr
ip_ll_recv-udp_pack_example =
    ip_ll_recv-udp_pack fifo blank header there here (replicate 64 0) 64 0xcc 4000 53 text local
      zero_header host bound 0 (omega arith) refl (omega arith) (omega arith) refl (omega arith)
      (omega arith) (omega arith) refl refl refl

-- A frame of 64 bytes of IPv6.
abbrev frame : EtherFrame
frame = record {
  dest_mac_addr = [];
  src_mac_addr = [];
  payload = [];
  kind = 0;
  crc = 0;
  bytes = replicate 12 2 ++ (0x86 ∷ 0xdd ∷ replicate 50 0);
  size = 64;
}

ether_ll_recv-IsLayered_example : IsLayered frame host host true
unfolding ether_ll_recv after_frame ether_received ether_unpack dispatch br16
ether_ll_recv-IsLayered_example =
    ether_ll_recv-IsLayered fifo blank plain 0 clock card frame host host true refl

abbrev near_mac : Mac
near_mac = record { a = 2; b = 0; c = 0; d = 0; e = 0; f = 9 }

abbrev far_mac : Mac
far_mac = record { a = 2; b = 0; c = 0; d = 0; e = 0; f = 7 }

abbrev mask : Buffer
mask = 255 ∷ 0 ∷ 0 ∷ 0 ∷ []

abbrev near : Host
near = record host { nifs = record { ip = on_network 1 there mask; eth = station 1 near_mac } ∷ [] }

abbrev far : Host
far = record host { nifs = record { ip = on_network 1 here mask; eth = station 1 far_mac } ∷ [] }

abbrev tail : Buffer
tail = replicate 22 0

abbrev near_asked : Host
near_asked = record near {
  wire = record near.wire { frames = request_bytes near_mac there here ∷ [] };
}

abbrev far_answered : Host
far_answered = record far {
  wire = record far.wire { frames = reply_bytes far_mac here near_mac there ∷ [] };
}

abbrev near_informed : Host
near_informed = record near_asked {
  arp = record {
    items = record { ip = quad_bytes here; mac = mac_bytes far_mac; timer = 0 } ∷ [];
    spare = 3;
    next_timer = 1;
  };
}

resolves_example :
    (ether_arp_get_mac_address plain 0 near.nifs near.arp
        (station 1 near_mac)
        (quad_bytes here)
        near.wire
      ≡ some (none, near_asked.wire))
    × (ether_ll_recv fifo blank plain 0 clock
          (station 1 far_mac)
          (padded (request_bytes near_mac there here) tail)
          far
        ≡ some (far_answered, true))
    × (ether_ll_recv fifo blank plain 0 clock
          (station 1 near_mac)
          (padded (reply_bytes far_mac here near_mac there) tail)
          near_asked
        ≡ some (near_informed, true))
    × (ether_arp_get_mac_address plain 0 near_informed.nifs near_informed.arp
          (station 1 near_mac)
          (quad_bytes here)
          near_informed.wire
        ≡ some (some (mac_bytes far_mac), near_informed.wire))
unfolding ether_arp_get_ip nif_of_addr ip_addr_equals lr32
resolves_example =
    resolves fifo blank plain 0 clock 1 1 1 1 near_mac far_mac there here mask mask near far refl
      refl refl (omega arith) tail tail
