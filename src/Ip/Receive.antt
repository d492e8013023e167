-- ===== src/Ip/Receive.antt =====
-- What `ip_ll_recv` hands up of a datagram whose header `ip_header_pack` wrote.
use dts_net.Base.{ℕ, ◌+◌, ◌-◌, ◌%◌, ◌^◌, ◌≡◌, ◌≤◌, ◌<◌, refl, sym, ap, ◌∙◌, arith, true, ◌++◌}
use dts_net.Base.{length, take, drop}
use dts_net.Endian.{Buffer, bw16}
use dts_net.Dblk.{Node, dblk_node_init}
use dts_net.Ip.Header.{IpHeader, write_fixed, write_addresses, ip_header_pack, ip_header_unpack}
use dts_net.Ip.Send.{protocol_of, ip_received}
use dts_net.Ip.RoundTrip.{Quad, IsReadBack, plain_header, pack-plain}
use dts_net.Ip.RoundTrip.{ip_header_unpack-ip_header_pack}

-- What follows a header of five words that was accepted.
pub after_header :
    (before got : IpHeader) (bytes rest : Buffer) (size len protocol : ℕ)
    → ip_header_unpack before bytes size ≡ (got, true)
    → size < 2 ^ 16
    → got.ihl ≡ 5
    → got.total_length ≡ len + 20
    → len + 20 < 2 ^ 16
    → got.protocol ≡ protocol
    → drop 20 bytes ≡ rest
    → ip_received before (dblk_node_init bytes size)
      ≡ ((got, dblk_node_init rest len, protocol_of protocol), true)
unfolding ip_received dblk_node_init
after_header before got bytes rest size len protocol unpacked fits five total sixteen kind behind =
    let e : size % 2 ^ 16 ≡ size = omega arith in
    let n : (len + 20 + 2 ^ 16 - 20) % 2 ^ 16 ≡ len = omega arith in
    rw (e, unpacked, five, total, behind, kind, n) refl

module _ (hdr : IpHeader) (src dest : Quad) (buf rest : Buffer) (room : ℕ) where
  abbrev sent : IpHeader × Buffer × ℕ
  sent = ip_header_pack (plain_header hdr src dest) buf room

  -- The header and what follows it, in one node.
  abbrev pub in_one_node : Node
  in_one_node = dblk_node_init (take sent.2 sent.1 ++ rest) (20 + length rest)

  drop-header : 20 ≤ room → drop 20 (take sent.2 sent.1 ++ rest) ≡ rest
  unfolding write_fixed write_addresses bw16
  drop-header enough = rw (pack-plain hdr src dest buf room enough) refl

  pub ip_received-ip_header_pack :
      (before : IpHeader)
      → 20 ≤ room
      → hdr.flags < 2 ^ 3
      → hdr.fragment_offset < 2 ^ 13
      → hdr.total_length ≡ length rest
      → length rest + 20 < 2 ^ 16
      → (got : IpHeader) × (ip_received before in_one_node
          ≡ ((got, dblk_node_init rest (length rest), protocol_of hdr.protocol), true))
        × IsReadBack hdr got src dest sent.0.checksum_field
  ip_received-ip_header_pack before enough three thirteen same_length sixteen =
      let (size, valid, back) =
        ip_header_unpack-ip_header_pack hdr src dest buf rest room (length rest) before enough three
          thirteen (omega (arith, same_length)) in
      let bytes = take sent.2 sent.1 ++ rest in
      let got = (ip_header_unpack before bytes (sent.2 + length rest)).0 in
      let unpacked : ip_header_unpack before bytes (20 + length rest) ≡ (got, true) =
        ap (λ n. ip_header_unpack before bytes (n + length rest)) (sym size)
        ∙ ap (λ v. (got, v)) valid in
      (
        got,
        after_header before got bytes rest (20 + length rest) (length rest) hdr.protocol unpacked
            (omega arith) back.five_words (back.total_length ∙ ap (λ n. n + 20) same_length) sixteen
            back.protocol (drop-header enough),
        back,
      )

module _ (hdr : IpHeader) (src dest : Quad) (buf rest tail : Buffer) (room : ℕ) where
  -- The same with `extra` bytes of payload in a node that holds more than the datagram: what is
  -- handed up has the size that the header tells.
  pub ip_received-trailing :
      (before : IpHeader) (extra : ℕ)
      → 20 ≤ room
      → hdr.flags < 2 ^ 3
      → hdr.fragment_offset < 2 ^ 13
      → hdr.total_length ≡ length rest
      → length rest + 20 < 2 ^ 16
      → extra + 20 < 2 ^ 16
      → (got : IpHeader) × (ip_received before (
            dblk_node_init
              (take (sent hdr src dest buf rest room).2 (sent hdr src dest buf rest room).1
                ++ (rest ++ tail))
              (20 + extra))
          ≡ ((got, dblk_node_init (rest ++ tail) (length rest), protocol_of hdr.protocol), true))
        × IsReadBack hdr got src dest (sent hdr src dest buf rest room).0.checksum_field
  ip_received-trailing before extra enough three thirteen same_length sixteen fits =
      let (size, valid, back) =
        ip_header_unpack-ip_header_pack hdr src dest buf (rest ++ tail) room extra before enough
          three thirteen (omega (arith, same_length)) in
      let bytes =
        take (sent hdr src dest buf rest room).2 (sent hdr src dest buf rest room).1
        ++ (rest ++ tail) in
      let got = (ip_header_unpack before bytes ((sent hdr src dest buf rest room).2 + extra)).0 in
      let unpacked : ip_header_unpack before bytes (20 + extra) ≡ (got, true) =
        ap (λ n. ip_header_unpack before bytes (n + extra)) (sym size) ∙ ap (λ v. (got, v)) valid in
      (
        got,
        after_header before got bytes (rest ++ tail) (20 + extra) (length rest) hdr.protocol
            unpacked (omega arith) back.five_words
            (back.total_length ∙ ap (λ n. n + 20) same_length) sixteen back.protocol
            (drop-header hdr src dest buf (rest ++ tail) room enough),
        back,
      )
