-- ===== src/Stack/WireTests.antt =====
-- Two hosts and the frames between them.
use dts_net.Base.{◌≡◌, refl, arith, true, some, [], ◌∷◌, ◌++◌, replicate}
use dts_net.Endian.{Buffer, lr32}
use dts_net.Dblk.{malloc, dblk_node_init}
use dts_net.Icmp.{Icmp}
use dts_net.Icmp.Echo.{IsEchoOf}
use dts_net.Ip.{IpHeader, ip_addr_equals, ip_addr_broadcast, ip_addr_same_lan}
use dts_net.Udp.{Udp, find_udp_by_addr}
use dts_net.EtherArp.{ArpItem, ether_arp_get_ip}
use dts_net.Stack.Defs.{Host, zero_header, ether_ll_recv}
use dts_net.Stack.Send.{find_netif, host_udp_sendto, host_icmp_ip_recv}
use dts_net.Stack.Frames.{Mac, mac_bytes, station, on_network}
use dts_net.Stack.Carry.{ip_frame}
use dts_net.Stack.Outward.{at_quad, sent_frame}
use dts_net.Stack.Deliver.{filled_frame, on_wire, told_at, udp_sendto-delivers}
use dts_net.Stack.Ping.{reply_bytes, host_icmp_ip_recv-pong}
use dts_net.Stack.Tests.{fifo, plain, blank, here, there, clock, host}

abbrev mask : Buffer
mask = 255 ∷ 0 ∷ 0 ∷ 0 ∷ []

abbrev near_mac : Mac
near_mac = record { a = 2; b = 0; c = 0; d = 0; e = 0; f = 7 }

abbrev far_mac : Mac
far_mac = record { a = 2; b = 0; c = 0; d = 0; e = 0; f = 9 }

abbrev neighbour : ArpItem
neighbour = record { ip = 10 ∷ 0 ∷ 0 ∷ 9 ∷ []; mac = mac_bytes far_mac; timer = 0 }

-- The host knows its neighbour.
abbrev near : Host
near = record host {
  nifs = record { ip = on_network 1 here mask; eth = station 1 near_mac } ∷ [];
  arp = record { items = neighbour ∷ []; spare = 3; next_timer = 1 };
}

-- The neighbour has bound port 53.
abbrev far_bound : Udp
far_bound = record { low_level = 2; port = 53; callback = some 0; cb_data = 5 }

abbrev far : Host
far = record host {
  udps = far_bound ∷ [];
  nifs = record { ip = on_network 2 there mask; eth = station 1 far_mac } ∷ [];
}

abbrev sent_bytes : Buffer
sent_bytes = on_wire 1 1 near_mac far_mac here there mask [] zero_header 53 (104 ∷ 105 ∷ []) near

-- Two bytes of text, padded up to the least size of a frame.
udp_sendto-delivers_example :
    (host_udp_sendto plain zero_header (at_quad there []) 53 (104 ∷ 105 ∷ []) 2 near
      ≡ (some (sent_frame near_mac far_mac near sent_bytes), true))
    × (ether_ll_recv fifo blank plain 0 clock
          (station 1 far_mac)
          (filled_frame (ip_frame far_mac near_mac sent_bytes ++ replicate 20 0) 64)
          far
        ≡ some (
          record far { calls = told_at far_bound 0 (104 ∷ 105 ∷ []) (replicate 20 0) ∷ [] },
          true,
        ))
unfolding ip_addr_broadcast ip_addr_same_lan ip_addr_equals lr32 find_netif malloc ether_arp_get_ip
    find_udp_by_addr
udp_sendto-delivers_example =
    udp_sendto-delivers 1 1 near_mac far_mac here there mask [] zero_header 53 (104 ∷ 105 ∷ []) near
      (omega arith) refl (omega arith) (omega arith) fifo blank (on_network 2 there mask) far_bound
      0 far refl refl (replicate 20 0) 26 (omega arith) plain neighbour clock 0 (station 1 far_mac)
      refl refl refl refl refl refl refl (omega arith)

abbrev pinged : IpHeader
pinged = record zero_header { src = at_quad there []; dest = at_quad here mask; protocol = 1 }

-- An echo request with two bytes of text.
abbrev ping : Buffer
ping = 8 ∷ 0 ∷ 0 ∷ 0 ∷ 1 ∷ 2 ∷ 0 ∷ 5 ∷ 0x41 ∷ 0x42 ∷ []

abbrev pong_bytes : Buffer → Buffer
pong_bytes = reply_bytes plain 1 1 near_mac far_mac here there mask [] near blank pinged ping 10

host_icmp_ip_recv-pong_example :
    (r : Icmp) × (host_icmp_ip_recv plain blank
        (record { ip = on_network 1 here mask; eth = station 1 near_mac })
        pinged
        (dblk_node_init ping 10)
        near
      ≡ some (sent_frame near_mac far_mac near (pong_bytes r.bytes)))
    × IsEchoOf ping 10 r
unfolding ip_addr_broadcast ip_addr_equals lr32 malloc
host_icmp_ip_recv-pong_example =
    host_icmp_ip_recv-pong plain 1 1 near_mac far_mac here there mask [] near blank pinged ping 10
      neighbour refl refl refl refl refl refl refl refl (omega arith) (omega arith) (omega arith)
