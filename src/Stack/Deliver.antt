-- ===== src/Stack/Deliver.antt =====
-- `udp_sendto` on one host and the callback of a bound port on another, over the frame between them.
use dts_net.Base.{ℕ, ◌+◌, ◌-◌, ◌%◌, ◌^◌, ◌≡◌, ◌≤◌, ◌<◌, refl, sym, ap, ◌∙◌, arith, true, false}
use dts_net.Base.{Option, some, [], ◌∷◌, ◌++◌, length, replicate, take, ltb}
use dts_net.Base.{append_assoc}
use dts_net.Endian.{Buffer, br16}
use dts_net.Dblk.{Node, dblk_node_init, dblk_size, malloc}
use dts_net.Dblk.Contents.{contents}
use dts_net.Icmp.{Icmp}
use dts_net.Ip.{Ip, IpAddr, IpHeader, ip_header_pack, ip_addr_broadcast, next_ident}
use dts_net.Ip.RoundTrip.{Quad, quad_bytes}
use dts_net.Ip.Receive.{ip_received-trailing}
use dts_net.Tcp.{ListLib}
use dts_net.Udp.{Udp, Call, find_udp_by_addr, udp_ip_recv, block_to, header_to}
use dts_net.Udp.RoundTrip.{fresh_datagram}
use dts_net.Udp.Receive.{sent_bytes, length-sent_bytes, udp_pack-same_addresses}
use dts_net.Udp.Trailing.{udp_ip_recv-trailing}
use dts_net.Udp.Block.{
  contents-block_to, is_nil-block_to, size-block_to, block_to-AreReal, delete-block_to,
}
use dts_net.Ether.{EtherFrame, ether_received, ether_unpack}
use dts_net.EtherArp.{FindLib, ArpItem, matches, Ether, Clock, ether_arp_get_ip}
use dts_net.Stack.Defs.{
  Host, ether_ll_recv, after_frame, after_dispatch, dispatch, ip_ll_recv, zero_header,
}
use dts_net.Stack.Datagram.{after_received}
use dts_net.Stack.Send.{heap_of, find_netif, host_udp_sendto}
use dts_net.Stack.Frames.{Mac, mac_bytes, station, on_network}
use dts_net.Stack.Carry.{ip_frame}
use dts_net.Stack.Outward.{at_quad, filled_header, sent_frame, datagram_bytes, host_hl_send-frame}

-- A frame of `size` bytes that `recv` filled, over the memory `bytes`.
abbrev pub filled_frame : Buffer → ℕ → EtherFrame
filled_frame bytes size = record {
  dest_mac_addr = [];
  src_mac_addr = [];
  payload = [];
  kind = 0;
  crc = 0;
  bytes = bytes;
  size = size;
}

module _ (lib : ListLib) (blank : Icmp) (flib : FindLib) (junk : ℕ) (clock : Clock) where
  -- A frame with an IP datagram goes to `ip_ll_recv`, less its header and the four bytes at its end.
  ether_ll_recv-ip_frame :
      (eth : Ether) (n m : Mac) (bytes : Buffer) (size : ℕ) (h : Host)
      → 64 ≤ size
      → size < 2 ^ 16 + 18
      → ether_ll_recv lib blank flib junk clock eth (filled_frame (ip_frame n m bytes) size) h
        ≡ after_dispatch (
            ip_ll_recv lib blank
              (ether_arp_get_ip flib h.nifs eth)
              zero_header
              (dblk_node_init bytes (20 + (size - 38)))
              h)
  unfolding ether_ll_recv after_frame ether_received ether_unpack dispatch br16
  ether_ll_recv-ip_frame eth n m bytes size h long fits =
      let not_short : ltb size 64 ≡ false = ground arith in
      let some_bytes : ltb 0 size ≡ true = ground arith in
      let inner : (size - 18) % 2 ^ 16 ≡ 20 + (size - 38) = omega arith in
      rw (not_short, some_bytes, inner) refl

-- The text that a callback is told stands at the start of the bytes behind its pointer.
abbrev pub told_at : Udp → ℕ → Buffer → Buffer → Call
told_at u f text tail = record {
  callback = f;
  cb_data = u.cb_data;
  bytes = text ++ tail;
  size = length text;
}

-- The bytes of a header packed into 64 bytes.
abbrev packed_bytes : IpHeader → ℕ → Buffer
packed_bytes hdr junk = let sent = ip_header_pack hdr (replicate 64 junk) 64 in take sent.2 sent.1

-- The interface `m` with address `q`, and its neighbour `n` with `t`.
module _ (id ip_id : ℕ) (m n : Mac) (q t : Quad) (mask t_mask : Buffer) (hdr : IpHeader) (port : ℕ)
    (text : Buffer) (near : Host) where
  abbrev near_ip : Ip
  near_ip = on_network ip_id q mask

  abbrev dest : IpAddr
  dest = at_quad t t_mask

  -- The datagram on its way: the IP header, and UDP's header with the text.
  abbrev pub on_wire : Buffer
  on_wire =
      datagram_bytes near_ip.addr dest near (header_to near_ip hdr dest)
        (block_to near_ip dest port text (length text) near.lower.junk)

  module _ (short : length text < 1392) where
    sends :
        (flib : FindLib) (item : ArpItem)
        → find_netif flib near dest ≡ some (record { ip = near_ip; eth = station id m })
        → flib.list_find ArpItem (matches (quad_bytes t)) near.arp.items ≡ some item
        → item.mac ≡ mac_bytes n
        → ip_addr_broadcast dest ≡ false
        → (malloc (heap_of near)).0 ≡ true
        → near.wire.accept (length near.wire.frames) ≡ true
        → host_udp_sendto flib hdr dest port text (length text) near
          ≡ (some (sent_frame m n near on_wire), true)
    unfolding host_udp_sendto
    sends flib item through known its_mac somebody got taken =
        let block = block_to near_ip dest port text (length text) near.lower.junk in
        let same = contents-block_to near_ip dest port near.lower.junk text short in
        let long : length (contents block) < 1400 = omega (
          arith,
          ap length same,
          length-sent_bytes near_ip.addr dest 17 near.lower.junk 12435 port text,
        ) in
        rw through (
          host_hl_send-frame flib id ip_id m n q t mask t_mask item near known its_mac somebody got
            taken (header_to near_ip hdr dest) block refl refl
            (is_nil-block_to near_ip dest port near.lower.junk text short)
            (block_to-AreReal near_ip dest port near.lower.junk text short)
            (omega (arith, size-block_to near_ip dest port near.lower.junk text short)) long
            (delete-block_to near_ip dest port near.lower.junk text short))

    -- What a host with the port bound on its interface makes of the frame, with whatever follows it.
    module _ (even : length text % 2 ≡ 0) (three : hdr.flags < 2 ^ 3) (fits : port < 2 ^ 16)
        (lib : ListLib) (blank : Icmp) (ip : Ip) (u : Udp) (f : ℕ) (far : Host)
        (bound : find_udp_by_addr far.udps ip port ≡ some u) (called : u.callback ≡ some f)
        (tail : Buffer) (extra : ℕ) (small : extra + 20 < 2 ^ 16) where
      arrives :
          ip_ll_recv lib blank
            (some ip)
            zero_header
            (dblk_node_init (on_wire ++ tail) (20 + extra))
            far
          ≡ some (record far { calls = far.calls ++ (told_at u f text tail ∷ []) })
      arrives =
          let rest = sent_bytes near_ip.addr dest 17 near.lower.junk 12435 port text in
          let rest_length =
            length-sent_bytes near_ip.addr dest 17 near.lower.junk 12435 port text in
          let same = contents-block_to near_ip dest port near.lower.junk text short in
          let size = size-block_to near_ip dest port near.lower.junk text short in
          let block = block_to near_ip dest port text (length text) near.lower.junk in
          let full =
            filled_header (header_to near_ip hdr dest) near_ip.addr dest
              (next_ident near.lower.ident) (dblk_size block) in
          let (got, received, back) =
            ip_received-trailing full q t (replicate 64 near.lower.junk) rest tail 64 zero_header
              extra (omega arith) three (omega arith) (omega (arith, size, rest_length))
              (omega (arith, rest_length)) small in
          let head = packed_bytes full near.lower.junk in
          let in_order : on_wire ++ tail ≡ head ++ (rest ++ tail) =
            ap (λ b. (head ++ b) ++ tail) same ∙ append_assoc head rest tail in
          let datagrams =
            udp_pack-same_addresses near_ip.addr got.src dest got.dest 17
              (fresh_datagram near.lower.junk 12435 port text) (sym back.from) (sym back.to) in
          let rest2 = sent_bytes got.src got.dest 17 near.lower.junk 12435 port text in
          let rest_same : rest ≡ rest2 = ap (λ d. d.0.raw.bytes ++ text) datagrams in
          let call : Buffer → ℕ → ℕ → Option Call = λ b size kind.
            (udp_ip_recv far.udps ip got.src got.dest kind (dblk_node_init (b ++ tail) size)).0 in
          let told =
            ap (call rest (length rest)) back.protocol
            ∙ (ap (λ k. call rest k 17) rest_length
                ∙ (ap (λ b. call b (length text + 8) 17) rest_same
                    ∙ udp_ip_recv-trailing got.src got.dest 17 near.lower.junk 12435 port text tail
                        (omega arith) fits (omega arith) even far.udps ip u f bound called)) in
          let raw : Node = dblk_node_init (head ++ (rest ++ tail)) (20 + extra) in
          ap (λ b. ip_ll_recv lib blank (some ip) zero_header (dblk_node_init b (20 + extra)) far)
            in_order
          ∙ after_received lib blank ip zero_header got raw
              (dblk_node_init (rest ++ tail) (length rest)) 17 far (told_at u f text tail) received
              refl told

      -- A text of an even number of bytes, fewer than 1392, is sent with `udp_sendto` to a port of a
      -- neighbour: the route leads over the interface of `m` with the address `q`, the address table
      -- knows the neighbour's hardware address, it is not the broadcast address, memory is granted and
      -- the interface takes the frame. Then the result is 1, one frame goes out, and nothing of the host
      -- changes but the counters. A host where the port is bound on the interface that receives that
      -- frame, at least 64 bytes with whatever stands behind what was sent, calls the callback once, with
      -- the text at the start of what it is told and its size, and changes nothing else. The flags of
      -- the header on the stack have 3 bits.
      pub udp_sendto-delivers :
          (flib : FindLib) (item : ArpItem) (clock : Clock) (junk : ℕ) (eth : Ether)
          → find_netif flib near dest ≡ some (record { ip = near_ip; eth = station id m })
          → flib.list_find ArpItem (matches (quad_bytes t)) near.arp.items ≡ some item
          → item.mac ≡ mac_bytes n
          → ip_addr_broadcast dest ≡ false
          → (malloc (heap_of near)).0 ≡ true
          → near.wire.accept (length near.wire.frames) ≡ true
          → ether_arp_get_ip flib far.nifs eth ≡ some ip
          → 26 ≤ extra
          → (host_udp_sendto flib hdr dest port text (length text) near
              ≡ (some (sent_frame m n near on_wire), true))
            × (ether_ll_recv lib blank flib junk clock eth
                  (filled_frame (ip_frame n m on_wire ++ tail) (extra + 38))
                  far
                ≡ some (record far { calls = far.calls ++ (told_at u f text tail ∷ []) }, true))
      udp_sendto-delivers flib item clock junk eth through known its_mac somebody got taken over
            enough =
          let e : 20 + (extra + 38 - 38) ≡ 20 + extra = omega arith in
          let up =
            ether_ll_recv-ip_frame lib blank flib junk clock eth n m (on_wire ++ tail) (extra + 38)
              far (omega arith) (omega arith) in
          (
            sends flib item through known its_mac somebody got taken,
            up ∙ (rw (over, e, arrives) refl),
          )
