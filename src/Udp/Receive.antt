-- ===== src/Udp/Receive.antt =====
-- `udp_ip_recv` of what `udp_pack` made calls the callback of the port.
use dts_net.Base.{ℕ, ◌+◌, ◌^◌, ◌≡◌, ◌<◌, refl, arith, some, List, [], ◌++◌, length}
use dts_net.Endian.{Buffer, bw16}
use dts_net.Dblk.{dblk_node_init}
use dts_net.Ip.{Ip, IpAddr, pseudo_header_pack}
use dts_net.Udp.Defs.{UdpDatagram, Udp, udp_header, udp_sum, udp_pack, udp_unpack, blank_udp}
use dts_net.Udp.Defs.{find_udp_by_addr, udp_ip_recv}
use dts_net.Udp.RoundTrip.{fresh_datagram, udp_unpack-udp_pack}

-- The pseudo header, and with it the packed datagram, depends on the four bytes of the addresses.
pub udp_pack-same_addresses :
    (s1 s2 d1 d2 : IpAddr) (protocol : ℕ) (dg : UdpDatagram)
    → s1.v4 ≡ s2.v4
    → d1.v4 ≡ d2.v4
    → udp_pack s1 d1 protocol dg ≡ udp_pack s2 d2 protocol dg
unfolding udp_pack udp_sum pseudo_header_pack
udp_pack-same_addresses s1 s2 d1 d2 protocol dg s d = rw (s, d) refl

module _ (src dest : IpAddr) (protocol junk src_port dest_port : ℕ) (text : Buffer) where
  abbrev pub sent : UdpDatagram
  sent = (udp_pack src dest protocol (fresh_datagram junk src_port dest_port text)).0

  abbrev pub sent_bytes : Buffer
  sent_bytes = sent.raw.bytes ++ text

  pub length-sent_bytes : length sent_bytes ≡ length text + 8
  unfolding udp_pack udp_header bw16 dblk_node_init
  length-sent_bytes = omega arith

  pub udp_ip_recv-udp_pack :
      (us : List Udp) (ip : Ip) (u : Udp) (f : ℕ)
      → src_port < 2 ^ 16
      → dest_port < 2 ^ 16
      → length text + 8 < 2 ^ 16
      → find_udp_by_addr us ip dest_port ≡ some u
      → u.callback ≡ some f
      → (udp_ip_recv us ip src dest protocol (dblk_node_init sent_bytes (length sent_bytes))).0
        ≡ some (record { callback = f; cb_data = u.cb_data; bytes = text; size = length text })
  unfolding udp_ip_recv udp_unpack dblk_node_init udp_pack
  udp_ip_recv-udp_pack us ip u f src_fits dest_fits text_fits bound called =
      let blank = blank_udp (dblk_node_init [] 0) in
      let (valid, _, port, bytes, size) =
        udp_unpack-udp_pack src dest protocol junk src_port dest_port text blank src_fits dest_fits
          text_fits in
      rw (valid, port, bound, called, bytes, size) refl
