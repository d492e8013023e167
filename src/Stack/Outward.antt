-- ===== src/Stack/Outward.antt =====
-- `ip_hl_send` of a host to an address whose hardware address is known makes one frame.
use dts_net.Base.{ℕ, ◌%◌, ◌^◌, ◌≡◌, ◌≤◌, ◌<◌, refl, arith, true, false, ltb}
use dts_net.Base.{some, [], ◌∷◌, ◌++◌, length, replicate, take, length-append, length-take}
use dts_net.Endian.{Buffer, bw16}
use dts_net.Dblk.{Chain, Heap, dblk_node_init, dblk_node_concat, dblk_size, dblk_delete}
use dts_net.Dblk.{malloc, free}
use dts_net.Dblk.Contents.{contents, AreReal}
use dts_net.Ip.{
  IpAddr, IpHeader, ip_addr_broadcast, is_nil, ip_header_pack, hl_send_end, pack_header,
}
use dts_net.Ip.{write_fixed, write_addresses}
use dts_net.Ip.{next_ident}
use dts_net.Ip.RoundTrip.{Quad, quad_bytes, pack-plain}
use dts_net.EtherArp.{FindLib, ArpItem, matches, ip_ether_send, ether_arp_get_mac_address}
use dts_net.EtherArp.{known_or_ask}
use dts_net.Stack.Defs.{Host}
use dts_net.Stack.Send.{heap_of, after_send, count_ident, ether_ll_send, host_hl_send}
use dts_net.Stack.Frames.{Mac, mac_bytes, station, on_network}
use dts_net.Stack.Carry.{ip_frame, send_to_mac-sends}

-- The header with the fields of `ip_hl_send`.
abbrev pub filled_header : IpHeader → IpAddr → IpAddr → ℕ → ℕ → IpHeader
filled_header hdr src dest ident size = record hdr {
  version = 4;
  src = src;
  dest = dest;
  identification = ident % 2 ^ 16;
  fragment_offset = 0;
  option_size = 0;
  total_length = size % 2 ^ 16;
}

abbrev pub at_quad : Quad → Buffer → IpAddr
at_quad q mask = record { version = 4; v4 = quad_bytes q; netmask = mask }

abbrev pub packed_header : IpHeader → IpAddr → IpAddr → ℕ → ℕ → ℕ → IpHeader × Buffer × ℕ
packed_header hdr src dest ident junk size =
    ip_header_pack (filled_header hdr src dest ident size) (replicate 64 junk) 64

-- The host with one more frame, from `m` to `n`.
abbrev pub sent_frame : Mac → Mac → Host → Buffer → Host
sent_frame m n h bytes = count_ident (
    after_send (free (malloc (heap_of h)).1)
      (record h.wire { frames = h.wire.frames ++ (ip_frame n m bytes ∷ []) }) h)

-- The header is packed into the first 20 of 64 bytes, and the payload follows it.
abbrev pub datagram_bytes : IpAddr → IpAddr → Host → IpHeader → Chain → Buffer
datagram_bytes src dest h hdr payload =
    let sent =
      packed_header hdr src dest (next_ident h.lower.ident) h.lower.junk (dblk_size payload) in
    take sent.2 sent.1 ++ contents payload

-- A host that sends to a neighbour: the interface `m` with address `q`, the neighbour `n` with `t`.
module _ (flib : FindLib) (id ip_id : ℕ) (m n : Mac) (q t : Quad) (mask t_mask : Buffer)
    (item : ArpItem) (h : Host)
    (known : flib.list_find ArpItem (matches (quad_bytes t)) h.arp.items ≡ some item)
    (its_mac : item.mac ≡ mac_bytes n) (somebody : ip_addr_broadcast (at_quad t t_mask) ≡ false)
    (got : (malloc (heap_of h)).0 ≡ true)
    (taken : h.wire.accept (length h.wire.frames) ≡ true) where
  ll_send-frame :
      (hdr : IpHeader) (raw : Chain)
      → hdr.dest ≡ at_quad t t_mask
      → AreReal raw
      → length (contents raw) ≤ 2034
      → is_nil raw ≡ false
      → ((heap : Heap) → dblk_delete raw heap ≡ ([], heap))
      → ether_ll_send flib (station id m) (some (count_ident h)) hdr raw
        ≡ (some (sent_frame m n h (contents raw)), true)
  unfolding ether_ll_send ip_ether_send ether_arp_get_mac_address known_or_ask
  ll_send-frame hdr raw to real fits some_bytes kept =
      let sent =
        send_to_mac-sends id n m raw (heap_of h) h.wire real fits some_bytes kept got taken in
      rw (to, somebody, known, its_mac, sent) refl

  -- The header fits, and keeps the destination.
  header-fits :
      (hdr : IpHeader) (ident junk size : ℕ)
      → let sent = packed_header hdr (at_quad q mask) (at_quad t t_mask) ident junk size in
        (sent.2 ≡ 20) × (20 ≤ length sent.1) × (sent.0.dest ≡ at_quad t t_mask)
  unfolding write_fixed write_addresses bw16
  header-fits hdr ident junk size =
      let filled = filled_header hdr (at_quad q mask) (at_quad t t_mask) ident size in
      rw (pack-plain filled q t (replicate 64 junk) 64 (omega arith)) (refl, omega arith, refl)

  delete-linked :
      (bytes : Buffer) (size : ℕ) (ds : Chain)
      → ((heap : Heap) → dblk_delete ds heap ≡ ([], heap))
      → (heap : Heap)
      → dblk_delete (record (dblk_node_init bytes 64) { size = size; more = true } ∷ ds) heap
        ≡ ([], heap)
  unfolding dblk_delete dblk_node_init
  delete-linked bytes size ds kept heap = kept heap

  pub host_hl_send-frame :
      (hdr : IpHeader) (payload : Chain)
      → hdr.option_size ≡ 0
      → hdr.dest ≡ at_quad t t_mask
      → is_nil payload ≡ false
      → AreReal payload
      → dblk_size payload < 1400
      → length (contents payload) < 1400
      → ((heap : Heap) → dblk_delete payload heap ≡ ([], heap))
      → host_hl_send flib
          (record { ip = on_network ip_id q mask; eth = station id m })
          hdr
          payload
          h
        ≡ (
          some
              (sent_frame m n h (datagram_bytes (at_quad q mask) (at_quad t t_mask) h hdr payload)),
          true,
        )
  unfolding host_hl_send hl_send_end pack_header dblk_node_init dblk_node_concat
  host_hl_send-frame hdr [] no_options to some_bytes real small short kept = absurd (ground arith)
  host_hl_send-frame hdr (d ∷ ds) no_options to some_bytes real small short kept =
      let size = dblk_size (d ∷ ds) in
      let ident = next_ident h.lower.ident in
      let sent = packed_header hdr (at_quad q mask) (at_quad t t_mask) ident h.lower.junk size in
      let (twenty, long, to_t) = header-fits hdr ident h.lower.junk size in
      let raw : Chain = record (dblk_node_init sent.1 64) { size = sent.2; more = true } ∷ d ∷ ds in
      let head_fits : sent.2 ≤ length sent.1 = omega (arith, twenty, long) in
      let short_head : length (take sent.2 sent.1) ≤ 20 =
        omega (arith, length-take sent.2 sent.1, twenty) in
      let whole_fits : length (contents raw) ≤ 2034 =
        omega (arith, length-append (take sent.2 sent.1) (contents (d ∷ ds)), short_head) in
      let fits : ltb size 1400 ≡ true = ground arith in
      rw (fits, no_options, to)
        (ll_send-frame sent.0 raw to_t (refl, head_fits, real) whole_fits refl
          (delete-linked sent.1 sent.2 (d ∷ ds) kept))
