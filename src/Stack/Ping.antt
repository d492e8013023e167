-- ===== src/Stack/Ping.antt =====
-- `icmp_ip_recv` of dts_net_icmp.c on a host: the frame with the answer to an echo request.
use dts_net.Base.{
  ℕ, ◌≡◌, ◌≤◌, ◌<◌, ◌%◌, ◌^◌, refl, ap, arith, ◌∙◌, true, false, some, [], ◌∷◌, length,
}
use dts_net.Base.{append-nil, take, length-take, subst}
use dts_net.Endian.{Buffer, byte_at}
use dts_net.Dblk.{Node, Chain, Heap, dblk_node_init, dblk_size, dblk_node_size, dblk_delete, malloc}
use dts_net.Dblk.Contents.{contents, AreReal}
use dts_net.Ip.{IpHeader, ip_addr_broadcast}
use dts_net.Ip.RoundTrip.{Quad, quad_bytes}
use dts_net.Icmp.{Icmp}
use dts_net.Icmp.Echo.{IsEchoOf, icmp_received-IsEchoOf}
use dts_net.EtherArp.{FindLib, ArpItem, matches, Nif}
use dts_net.Stack.Defs.{Host}
use dts_net.Stack.Send.{heap_of, host_hl_send, host_icmp_ip_recv}
use dts_net.Stack.Frames.{Mac, mac_bytes, station, on_network}
use dts_net.Stack.Outward.{at_quad, sent_frame, datagram_bytes, host_hl_send-frame}

-- One node over `size` bytes of stack memory.
abbrev one_node : Buffer → ℕ → Chain
one_node bytes size = dblk_node_init bytes size ∷ []

module _ (bytes : Buffer) (size : ℕ) (short : size < 1400) (memory : size ≤ length bytes) where
  one_node-AreReal : AreReal (one_node bytes size)
  unfolding dblk_node_init
  one_node-AreReal = (refl, omega arith, tt)

  size-one_node : dblk_size (one_node bytes size) < 1400
  unfolding dblk_size dblk_node_size dblk_node_init
  size-one_node = omega arith

  contents-one_node : length (contents (one_node bytes size)) < 1400
  unfolding dblk_node_init
  contents-one_node =
      let whole : contents (one_node bytes size) ≡ take (size % 2 ^ 16) bytes = append-nil _ in
      omega (arith, ap length whole, length-take (size % 2 ^ 16) bytes)

  delete-one_node : (heap : Heap) → dblk_delete (one_node bytes size) heap ≡ ([], heap)
  unfolding dblk_delete dblk_node_init
  delete-one_node heap = refl

-- A host at `q` behind the interface `m`, and its neighbour at `t` with the hardware address `n`.
module _ (flib : FindLib) (id ip_id : ℕ) (m n : Mac) (q t : Quad) (mask t_mask : Buffer) (h : Host)
    (blank : Icmp) (hdr : IpHeader) (bytes : Buffer) (size : ℕ) where
  abbrev pub here : Nif
  here = record { ip = on_network ip_id q mask; eth = station id m }

  abbrev pub request : Node
  request = dblk_node_init bytes size

  -- The frame with `reply` behind the header of the request, with the addresses exchanged.
  abbrev pub reply_bytes : Buffer → Buffer
  reply_bytes reply =
      let src = at_quad q mask in
      let dest = at_quad t t_mask in
      datagram_bytes src dest h (record hdr { dest = dest; src = src })
        (dblk_node_init reply size ∷ [])

  -- An echo request of 8 to 1399 bytes in memory, behind a header without options, is answered with
  -- exactly one frame: its sender's hardware address is known, the sender is not the broadcast
  -- address, memory is granted and the interface takes the frame. The frame goes to that hardware
  -- address; behind an IP header to the sender it carries an echo reply of the same size with the
  -- request's identifier, sequence number and text. Nothing else of the host changes but the counters.
  pub host_icmp_ip_recv-pong :
      (item : ArpItem)
      → flib.list_find ArpItem (matches (quad_bytes t)) h.arp.items ≡ some item
      → item.mac ≡ mac_bytes n
      → ip_addr_broadcast (at_quad t t_mask) ≡ false
      → (malloc (heap_of h)).0 ≡ true
      → h.wire.accept (length h.wire.frames) ≡ true
      → hdr.src ≡ at_quad t t_mask
      → hdr.option_size ≡ 0
      → byte_at bytes 0 ≡ 8
      → 8 ≤ size
      → size < 1400
      → size ≤ length bytes
      → (r : Icmp) × (host_icmp_ip_recv flib blank here hdr request h
          ≡ some (sent_frame m n h (reply_bytes r.bytes)))
        × IsEchoOf bytes size r
  unfolding host_icmp_ip_recv dblk_node_init
  host_icmp_ip_recv-pong item known its_mac somebody got taken from no_options echo long short
        memory =
      let cut : size % 2 ^ 16 ≡ size = omega arith in
      let (r, sent, back) =
        icmp_received-IsEchoOf (λ b d. (host_hl_send flib here b d h).0) (some h) blank here.ip hdr
          request echo (omega arith) (omega arith) in
      let fits : size ≤ length r.bytes = omega (arith, back.same_memory) in
      let out =
        host_hl_send-frame flib id ip_id m n q t mask t_mask item h known its_mac somebody got taken
          (record hdr { dest = at_quad t t_mask; src = at_quad q mask }) (one_node r.bytes size)
          no_options refl refl (one_node-AreReal r.bytes size short fits)
          (size-one_node r.bytes size short fits) (contents-one_node r.bytes size short fits)
          (delete-one_node r.bytes size short fits) in
      (
        r,
        sent
            ∙ (ap
                  (λ a.
                    (host_hl_send flib here (record hdr { dest = a; src = at_quad q mask })
                      (one_node r.bytes size) h).0)
                  from
                ∙ ap (λ o. o.0) out),
        subst (λ k. IsEchoOf bytes k r) cut back,
      )
