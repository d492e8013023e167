-- ===== src/Udp/Trailing.antt =====
-- A datagram of `udp_pack` that arrives with more bytes behind it, as the padding of a frame.
use dts_net.Base.{ℕ, ◌+◌, ◌%◌, ◌^◌, ◌≡◌, ◌<◌, refl, sym, ap, ◌∙◌, arith, true, some, List, ◌++◌, []}
use dts_net.Base.{length}
use dts_net.Endian.{Buffer, br16, bw16}
use dts_net.Checksum.{checksum_accmulate, checksum_complete, checksum_accmulate_beyond}
use dts_net.Dblk.{dblk_node_init}
use dts_net.Ip.{Ip, IpAddr}
use dts_net.Udp.Defs.{UdpDatagram, Udp, udp_header, udp_pack, udp_unpack, blank_udp}
use dts_net.Udp.Defs.{find_udp_by_addr, udp_ip_recv}
use dts_net.Udp.RoundTrip.{accepted, got-dest_port, got-length, got-checksum, sent-checksum}
use dts_net.Udp.RoundTrip.{sum-whole}
use dts_net.Udp.Receive.{sent_bytes}

module _ (src dest : IpAddr) (protocol junk src_port dest_port : ℕ) (text tail : Buffer)
    (src_fits : src_port < 2 ^ 16) (dest_fits : dest_port < 2 ^ 16)
    (text_fits : length text + 8 < 2 ^ 16) (even : length text % 2 ≡ 0) where
  abbrev bytes : Buffer
  bytes = sent_bytes src dest protocol junk src_port dest_port text

  -- The sum over the datagram does not see what lies behind it.
  sum-behind :
      (acc : ℕ)
      → checksum_accmulate acc (bw16 0 (bytes ++ tail) 6).0 (length text + 8)
        ≡ checksum_accmulate acc (bw16 0 bytes 6).0 (length text + 8)
  unfolding udp_pack udp_header bw16 dblk_node_init
  sum-behind acc =
      let e : length text + 8 ≡ length (bw16 0 bytes 6).0 = omega arith in
      rw e (checksum_accmulate_beyond (bw16 0 bytes 6).0 tail acc (omega arith))

  -- What arrives, in a node of the right size over all the bytes.
  abbrev here : UdpDatagram
  here = blank_udp (dblk_node_init (bytes ++ tail) (length text + 8))

  unpacked :
      let (got, valid) = udp_unpack src dest protocol here in
      (valid ≡ true)
      × (got.dest_port ≡ dest_port)
      × (got.payload.bytes ≡ text ++ tail)
      × (got.payload.size ≡ length text)
  unfolding udp_pack udp_header bw16 dblk_node_init br16
  unpacked =
      let old = blank_udp (dblk_node_init [] 0) in
      let port =
        got-dest_port src dest protocol junk src_port dest_port text old src_fits dest_fits
          text_fits in
      let told =
        got-length src dest protocol junk src_port dest_port text old src_fits dest_fits
          text_fits in
      let sum =
        got-checksum src dest protocol junk src_port dest_port text old src_fits dest_fits text_fits
        ∙ (sent-checksum src dest protocol junk src_port dest_port text old src_fits dest_fits
              text_fits
            ∙ sym (
                ap checksum_complete (
                  sum-behind _
                  ∙ sum-whole src dest protocol junk src_port dest_port text old src_fits dest_fits
                      text_fits))) in
      let (valid, s, d, behind, size) =
        accepted src dest protocol here (length text + 8) (omega arith) (omega arith) told sum in
      (valid, d ∙ port, behind, size ∙ omega arith)

  -- The callback of the port is told the text and its size, over all the bytes that arrived.
  pub udp_ip_recv-trailing :
      (us : List Udp) (ip : Ip) (u : Udp) (f : ℕ)
      → find_udp_by_addr us ip dest_port ≡ some u
      → u.callback ≡ some f
      → (udp_ip_recv us ip src dest protocol (dblk_node_init (bytes ++ tail) (length text + 8))).0
        ≡ some
            (record { callback = f; cb_data = u.cb_data; bytes = text ++ tail; size = length text })
  unfolding udp_ip_recv
  udp_ip_recv-trailing us ip u f bound called =
      let (valid, port, behind, size) = unpacked in
      rw (valid, port, bound, called, behind, size) refl
