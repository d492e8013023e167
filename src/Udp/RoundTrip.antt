-- ===== src/Udp/RoundTrip.antt =====
-- A datagram that `udp_pack` made is accepted by `udp_unpack`, which finds what was packed.
use dts_net.Base.{
  ==-same, ℕ, ◌+◌, ◌-◌, ◌%◌, ◌^◌, ◌≡◌, ◌≤◌, ◌<◌, refl, arith, true, false, sym, ap, ◌∙◌, ◌++◌,
}
use dts_net.Base.{length, replicate, drop, ltb}
use dts_net.Endian.{Buffer, br16, bw16, br16-bw16}
use dts_net.Checksum.{checksum_accmulate, checksum_complete, complete-small}
use dts_net.Checksum.{checksum_accmulate-append}
use dts_net.Dblk.{dblk_node_init}
use dts_net.Ip.{IpAddr, pseudo_header_pack}
use dts_net.Udp.Defs.{UdpDatagram, udp_header, udp_sum, udp_pack, udp_unpack}

-- A datagram as `_sendto` makes it: eight fresh bytes for the header, and the payload.
abbrev pub fresh_datagram : ℕ → ℕ → ℕ → Buffer → UdpDatagram
fresh_datagram junk src_port dest_port text = record {
  src_port = src_port;
  dest_port = dest_port;
  length = 0;
  checksum_field = 0;
  payload = dblk_node_init text (length text);
  raw = dblk_node_init (replicate 8 junk) 8;
}

-- What arrives: the header and the payload in one piece, with the fields of the last datagram.
abbrev pub arrived : UdpDatagram → UdpDatagram → UdpDatagram
arrived sent before =
    let bytes = sent.raw.bytes ++ sent.payload.bytes in
    record before { raw = dblk_node_init bytes (length bytes) }

-- What `udp_unpack` makes of a datagram whose checksum fits.
pub accepted :
    (src dest : IpAddr) (protocol : ℕ) (dg : UdpDatagram) (len : ℕ)
    → dg.raw.size ≡ len
    → 8 ≤ len
    → br16 dg.raw.bytes 4 ≡ len
    → br16 dg.raw.bytes 6
      ≡ checksum_complete (
          checksum_accmulate
            (checksum_accmulate 0 (pseudo_header_pack src dest protocol len) 12)
            (bw16 0 dg.raw.bytes 6).0
            len)
    → let (got, valid) = udp_unpack src dest protocol dg in
      (valid ≡ true)
      × (got.src_port ≡ br16 dg.raw.bytes 0)
      × (got.dest_port ≡ br16 dg.raw.bytes 2)
      × (got.payload.bytes ≡ drop 8 dg.raw.bytes)
      × (got.payload.size ≡ (len + 2 ^ 16 - 8) % 2 ^ 16)
unfolding udp_unpack
accepted src dest protocol dg len size enough told sum =
    let long : ltb dg.raw.size 8 ≡ false = ground arith in
    let right : checksum_complete (
          checksum_accmulate
            (checksum_accmulate 0 (pseudo_header_pack src dest protocol (br16 dg.raw.bytes 4)) 12)
            (bw16 0 dg.raw.bytes 6).0 dg.raw.size)
        ≡ br16 dg.raw.bytes 6 =
      rw (told, size) (sym sum) in
    rw (long, right, told) (==-same _, refl, refl, refl, refl)

module _ (src dest : IpAddr) (protocol junk src_port dest_port : ℕ) (text : Buffer)
    (before : UdpDatagram) (src_fits : src_port < 2 ^ 16) (dest_fits : dest_port < 2 ^ 16)
    (text_fits : length text + 8 < 2 ^ 16) where
  abbrev sent : UdpDatagram
  sent = (udp_pack src dest protocol (fresh_datagram junk src_port dest_port text)).0

  abbrev got : UdpDatagram
  got = (udp_unpack src dest protocol (arrived sent before)).0

  small : {v : ℕ} → v < 2 ^ 16 → v % 2 ^ 16 ≡ v
  small l = omega arith

  length-small : (length text + 8) % 2 ^ 16 ≡ length text + 8
  length-small = small text_fits

  pub got-src_port : br16 (sent.raw.bytes ++ text) 0 ≡ src_port
  unfolding udp_pack udp_header br16 bw16 dblk_node_init
  got-src_port = br16-bw16 src_port (replicate 8 junk) 0 (omega arith) ∙ small src_fits

  pub got-dest_port : br16 (sent.raw.bytes ++ text) 2 ≡ dest_port
  unfolding udp_pack udp_header br16 bw16 dblk_node_init
  got-dest_port = br16-bw16 dest_port (replicate 8 junk) 2 (omega arith) ∙ small dest_fits

  pub got-length : br16 (sent.raw.bytes ++ text) 4 ≡ length text + 8
  unfolding udp_pack udp_header br16 bw16 dblk_node_init
  got-length = br16-bw16 sent.length (replicate 8 junk) 4 (omega arith) ∙ omega arith

  pub got-checksum : br16 (sent.raw.bytes ++ text) 6 ≡ sent.checksum_field
  unfolding udp_pack udp_header br16 bw16 dblk_node_init
  got-checksum =
      br16-bw16 sent.checksum_field (replicate 8 junk) 6 (omega arith) ∙ small (complete-small _)

  cleared :
      (bw16 0 (sent.raw.bytes ++ text) 6).0
      ≡ udp_header src_port dest_port sent.length (replicate 8 junk) ++ text
  unfolding udp_pack udp_header bw16 dblk_node_init
  cleared = refl

  abbrev header : ℕ → Buffer
  header len = udp_header src_port dest_port len (replicate 8 junk)

  length-sent : sent.length ≡ length text + 8
  unfolding udp_pack dblk_node_init
  length-sent = omega arith

  payload_size : (dblk_node_init text (length text)).size ≡ length text
  unfolding dblk_node_init
  payload_size = omega arith

  -- Summing the whole datagram gives what summing its parts gave.
  sum-parts :
      (len acc : ℕ)
      → checksum_accmulate acc (header len ++ text) (length text + 8)
        ≡ checksum_accmulate (checksum_accmulate acc (header len) 8) text (length text)
  unfolding udp_header bw16
  sum-parts len acc =
      let e : length text + 8 ≡ 8 + length text = omega arith in
      rw e (sym (checksum_accmulate-append (header len) text acc (length text) refl))

  pub sum-whole :
      checksum_accmulate
        (checksum_accmulate 0 (pseudo_header_pack src dest protocol (length text + 8)) 12)
        (bw16 0 (sent.raw.bytes ++ text) 6).0
        (length text + 8)
      ≡ udp_sum src dest protocol sent.length (header sent.length) 8 text (length text)
  unfolding udp_sum
  sum-whole = rw (cleared, length-sent) (sum-parts (length text + 8) _)

  pub sent-checksum :
      sent.checksum_field
      ≡ checksum_complete
          (udp_sum src dest protocol sent.length (header sent.length) 8 text (length text))
  unfolding udp_pack dblk_node_init
  sent-checksum = rw (small {v = length text} (omega arith)) refl

  -- For ports of 16 bits and a text that fits with the header into 16 bits, what `udp_pack` made of a
  -- fresh datagram is accepted by `udp_unpack` when it arrives in one piece with the same pseudo
  -- header, and the ports and the payload are those that were packed.
  pub udp_unpack-udp_pack :
      ((udp_unpack src dest protocol (arrived sent before)).1 ≡ true)
      × (got.src_port ≡ src_port)
      × (got.dest_port ≡ dest_port)
      × (got.payload.bytes ≡ text)
      × (got.payload.size ≡ length text)
  unfolding udp_pack udp_header bw16 dblk_node_init
  udp_unpack-udp_pack =
      let sum = got-checksum ∙ (sent-checksum ∙ sym (ap checksum_complete sum-whole)) in
      let (valid, s, d, bytes, size) =
        accepted src dest protocol (arrived sent before) (length text + 8) (omega arith)
          (omega arith) got-length sum in
      (valid, s ∙ got-src_port, d ∙ got-dest_port, bytes, size ∙ omega arith)
