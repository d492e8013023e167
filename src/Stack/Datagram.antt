-- ===== src/Stack/Datagram.antt =====
-- A UDP datagram from one host to the callback of another.
use dts_net.Base.{
  ℕ, ◌+◌, ◌%◌, ◌^◌, ◌≡◌, ◌≤◌, ◌<◌, refl, sym, ap, ◌∙◌, arith, true, Option, some, [], ◌∷◌, ◌++◌,
  length,
}
use dts_net.Endian.{Buffer}
use dts_net.Dblk.{Node, dblk_node_init}
use dts_net.Ip.{Ip, IpHeader, ip_received, protocol_of}
use dts_net.Ip.RoundTrip.{Quad, plain_header}
use dts_net.Ip.Receive.{in_one_node, ip_received-ip_header_pack}
use dts_net.Udp.{Udp, Call, udp_ip_recv, find_udp_by_addr, ip_protocol_udp}
use dts_net.Udp.RoundTrip.{fresh_datagram}
use dts_net.Udp.Receive.{
  sent_bytes, length-sent_bytes, udp_ip_recv-udp_pack, udp_pack-same_addresses,
}
use dts_net.Tcp.{ListLib}
use dts_net.Icmp.{Icmp}
use dts_net.Stack.Defs.{Host, to_protocol, ip_ll_recv}

-- The callback of `u` is told the text.
abbrev pub told : Udp → ℕ → Buffer → Call
told u f text = record { callback = f; cb_data = u.cb_data; bytes = text; size = length text }

-- The datagram as `_sendto` and `ip_hl_send` pack it, in one node.
abbrev pub on_the_way : IpHeader → Quad → Quad → Buffer → ℕ → ℕ → ℕ → ℕ → Buffer → Node
on_the_way hdr src dest buf room junk src_port dest_port text =
    let plain = plain_header hdr src dest in
    in_one_node hdr src dest buf (sent_bytes plain.src plain.dest 17 junk src_port dest_port text)
      room

module _ (lib : ListLib) (blank : Icmp) where
  -- A UDP datagram that was read, and that `udp_ip_recv` calls a callback for.
  pub after_received :
      (ip : Ip) (before got : IpHeader) (raw payload : Node) (protocol : ℕ) (h : Host) (c : Call)
      → ip_received before raw ≡ ((got, payload, protocol_of protocol), true)
      → protocol ≡ 17
      → (udp_ip_recv h.udps ip got.src got.dest got.protocol payload).0 ≡ some c
      → ip_ll_recv lib blank (some ip) before raw h
        ≡ some (record h { calls = h.calls ++ (c ∷ []) })
  unfolding ip_ll_recv to_protocol protocol_of
  after_received ip before got raw payload protocol h c received kind called =
      rw (received, kind, called) refl

  module _ (hdr : IpHeader) (src dest : Quad) (buf : Buffer) (room : ℕ)
      (junk src_port dest_port : ℕ) (text : Buffer) where
    -- A UDP datagram with a text of an even number of bytes, packed by `udp_pack` and behind a header of `ip_header_pack` of version 4 without
    -- options, arrives at a host in one node: `ip_ll_recv` on an interface where the destination port
    -- is bound calls the callback once, with the text that was sent and its size, and changes nothing
    -- else. The header has protocol 17 and the length of the datagram, ports have 16 bits, and the whole
    -- is shorter than 2 ^ 16.
    pub ip_ll_recv-udp_pack :
        (ip : Ip) (before : IpHeader) (h : Host) (u : Udp) (f : ℕ)
        → 20 ≤ room
        → hdr.protocol ≡ ip_protocol_udp
        → hdr.flags < 2 ^ 3
        → hdr.fragment_offset < 2 ^ 13
        → hdr.total_length ≡ length text + 8
        → src_port < 2 ^ 16
        → dest_port < 2 ^ 16
        → length text + 28 < 2 ^ 16
        → length text % 2 ≡ 0
        → find_udp_by_addr h.udps ip dest_port ≡ some u
        → u.callback ≡ some f
        → ip_ll_recv lib blank
            (some ip)
            before
            (on_the_way hdr src dest buf room junk src_port dest_port text)
            h
          ≡ some (record h { calls = h.calls ++ (told u f text ∷ []) })
    ip_ll_recv-udp_pack ip before h u f enough kind three thirteen total src_fits dest_fits
          text_fits even bound called =
        let plain = plain_header hdr src dest in
        let rest = sent_bytes plain.src plain.dest 17 junk src_port dest_port text in
        let rest_length : length rest ≡ length text + 8 =
          length-sent_bytes plain.src plain.dest 17 junk src_port dest_port text in
        let (got, received, back) =
          ip_received-ip_header_pack hdr src dest buf rest room before enough three thirteen
            (total ∙ sym rest_length) (omega (arith, rest_length)) in
        let same =
          udp_pack-same_addresses plain.src got.src plain.dest got.dest 17
            (fresh_datagram junk src_port dest_port text) (sym back.from) (sym back.to) in
        let rest2 = sent_bytes got.src got.dest 17 junk src_port dest_port text in
        let rest_same : rest ≡ rest2 = ap (λ d. d.0.raw.bytes ++ text) same in
        let call : Node → ℕ → Option Call = λ d p. (udp_ip_recv h.udps ip got.src got.dest p d).0 in
        let called_with =
          ap (call (dblk_node_init rest (length rest))) (back.protocol ∙ kind)
          ∙ (ap (λ r. call (dblk_node_init r (length r)) 17) rest_same
              ∙ udp_ip_recv-udp_pack got.src got.dest 17 junk src_port dest_port text h.udps ip u f
                  src_fits dest_fits (omega arith) bound called) in
        after_received ip before got (on_the_way hdr src dest buf room junk src_port dest_port text)
          (dblk_node_init rest (length rest)) hdr.protocol h (told u f text) received kind
          called_with
