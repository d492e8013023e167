-- ===== src/Tcp/RoundTrip.antt =====
-- A segment that `tcp_pack` made is accepted by `tcp_unpack`, which finds what was packed.
use dts_net.Base.{
  ==-same, ℕ, ◌+◌, ◌-◌, ◌*◌, ◌%◌, ◌^◌, ◌≡◌, ◌≤◌, ◌<◌, refl, sym, ap, ◌∙◌, arith, Bool, true, Option,
  [], ◌∷◌,
}
use dts_net.Base.{length, drop, leb, bit_and, bit_or, bit_or-shifted, bit_and-high, bit_and-mask}
use dts_net.Endian.{Buffer, br16, bw16, br32, ◌>>>◌}
use dts_net.Checksum.{complete-small, checksum_accmulate, checksum_complete}
use dts_net.Dblk.{dblk_size, dblk_node_size, dblk_node_init}
use dts_net.Dblk.Contents.{contents}
use dts_net.Ip.{IpAddr, pseudo_header_pack}
use dts_net.Tcp.Defs.{Segment}
use dts_net.Tcp.Wire.{sum_block, tcp_pack, read_header, tcp_unpack}
use dts_net.Tcp.Packed.{text_of, fresh_segment, bytes, sum_of, packed-contents, checksum-packed}
use dts_net.Tcp.Packed.{
  read_src_port, read_dest_port, read_seq, read_ack, read_flags, read_win, read_sum,
  read_urgent_ptr, cleared, behind,
}

-- What `tcp_unpack` makes of one node whose checksum fits.
accepted :
    (src dest : IpAddr) (protocol : ℕ) (before : Segment) (b : Buffer) (n : ℕ)
    → 20 ≤ n
    → n < 2 ^ 16
    → br16 b 16
      ≡ checksum_complete (
          checksum_accmulate
            (checksum_accmulate 0 (pseudo_header_pack src dest protocol n) 12)
            (bw16 0 b 16).0
            n)
    → tcp_unpack src dest protocol (record before { raw_data = dblk_node_init b n ∷ [] }) ≡ (
      read_header (record before { raw_data = dblk_node_init b n ∷ [] }) (dblk_node_init b n) [],
      true,
    )
unfolding tcp_unpack read_header sum_block dblk_size dblk_node_size dblk_node_init
accepted src dest protocol before b n enough small right =
    let size : n % 2 ^ 16 ≡ n = omega arith in
    let whole : (n + 0) % 2 ^ 16 ≡ n = omega arith in
    let long : leb 20 (n + 0) ≡ true = ground arith in
    rw (size, long, whole, right) (rw (==-same (checksum_complete _)) refl)

-- The offset and the flags in one word.
offset_back : (flags : ℕ) → flags < 2 ^ 12 → bit_and (bit_or 20480 flags % 2 ^ 16) 0xf000 >>> 12 ≡ 5
offset_back flags fits =
    let sum : bit_or 20480 flags ≡ 5 * 2 ^ 12 + flags = bit_or-shifted 12 5 flags fits in
    let small : (5 * 2 ^ 12 + flags) % 2 ^ 16 ≡ 5 * 2 ^ 12 + flags = omega arith in
    let high : bit_and (5 * 2 ^ 12 + flags) 0xf000 ≡ 20480 = bit_and-high 12 5 flags 15 fits in
    rw (sum, small, high) refl

flags_back : (flags : ℕ) → flags < 2 ^ 12 → bit_and (bit_or 20480 flags % 2 ^ 16) 0x0fff ≡ flags
flags_back flags fits =
    let sum : bit_or 20480 flags ≡ 5 * 2 ^ 12 + flags = bit_or-shifted 12 5 flags fits in
    let low : bit_and (bit_or 20480 flags % 2 ^ 16) 0x0fff ≡ bit_or 20480 flags % 2 ^ 16 % 2 ^ 12 =
      bit_and-mask 12 _ in
    low ∙ omega (arith, sum)

-- The fields of a segment fit their widths.
pub record IsNarrow (seg : Segment) : Type 0 where
  pub src_port : seg.src_port < 2 ^ 16
  pub dest_port : seg.dest_port < 2 ^ 16
  pub seq : seg.seq < 2 ^ 32
  pub ack : seg.ack < 2 ^ 32
  pub flags : seg.flags < 2 ^ 12
  pub win : seg.win < 2 ^ 16
  pub urgent_ptr : seg.urgent_ptr < 2 ^ 16

-- What was packed and what was read.
pub record IsSame (seg got : Segment) (text : Buffer) : Type 0 where
  pub src_port : got.src_port ≡ seg.src_port
  pub dest_port : got.dest_port ≡ seg.dest_port
  pub seq : got.seq ≡ seg.seq
  pub ack : got.ack ≡ seg.ack
  pub data_offset : got.data_offset ≡ 5
  pub flags : got.flags ≡ seg.flags
  pub win : got.win ≡ seg.win
  pub urgent_ptr : got.urgent_ptr ≡ seg.urgent_ptr
  pub no_options : dblk_size got.options ≡ 0
  pub payload : got.payload ≡ dblk_node_init text (length text) ∷ []

-- A header over bytes that hold the fields of `seg`.
header-IsSame :
    (seg before : Segment) (b text : Buffer)
    → IsNarrow seg
    → length text + 20 < 2 ^ 16
    → br16 b 0 ≡ seg.src_port % 2 ^ 16
    → br16 b 2 ≡ seg.dest_port % 2 ^ 16
    → br32 b 4 ≡ seg.seq % 2 ^ 32
    → br32 b 8 ≡ seg.ack % 2 ^ 32
    → br16 b 12 ≡ bit_or 20480 seg.flags % 2 ^ 16
    → br16 b 14 ≡ seg.win % 2 ^ 16
    → br16 b 18 ≡ seg.urgent_ptr % 2 ^ 16
    → drop 20 (bw16 0 b 16).0 ≡ text
    → IsSame seg (read_header before (dblk_node_init b (20 + length text)) []) text
unfolding read_header dblk_node_init dblk_size dblk_node_size
header-IsSame seg before b text narrow fits p0 p2 p4 p8 p12 p14 p18 behind =
    let five : bit_and (br16 b 12) 0xf000 >>> 12 ≡ 5 =
      ap (λ w. bit_and w 0xf000 >>> 12) p12 ∙ offset_back seg.flags narrow.flags in
    let size : ((20 + length text) % 2 ^ 16 + 2 ^ 16 - 20) % 2 ^ 16 % 2 ^ 16
        ≡ length text % 2 ^ 16 =
      omega arith in
    record {
      src_port = p0 ∙ omega (arith, narrow.src_port);
      dest_port = p2 ∙ omega (arith, narrow.dest_port);
      seq = p4 ∙ omega (arith, narrow.seq);
      ack = p8 ∙ omega (arith, narrow.ack);
      data_offset = five;
      flags = ap (λ w. bit_and w 0x0fff) p12 ∙ flags_back seg.flags narrow.flags;
      win = p14 ∙ omega (arith, narrow.win);
      urgent_ptr = p18 ∙ omega (arith, narrow.urgent_ptr);
      no_options = rw five refl;
      payload = rw (five, behind, size) refl;
    }

module _ (src dest : IpAddr) (protocol junk : ℕ) (seg before : Segment) (text : Option Buffer)
    (narrow : IsNarrow seg) (even : length (text_of text) % 2 ≡ 0)
    (fits : length (text_of text) + 20 < 2 ^ 16) where
  abbrev sent : Segment
  sent = (tcp_pack src dest protocol (fresh_segment seg junk text)).0

  abbrev got : Segment × Bool
  got = tcp_unpack src dest protocol (record before {
    raw_data = dblk_node_init (contents sent.raw_data) (20 + length (text_of text)) ∷ [];
  })

  -- A segment whose fields fit their widths, without options, with none or with a text of an even number
  -- of bytes, that is with its header shorter than 2 ^ 16: what `tcp_pack` made of it is accepted by `tcp_unpack` when its
  -- bytes arrive in one node with the same pseudo header, and the fields and the text are those that
  -- were packed.
  pub tcp_unpack-tcp_pack : (got.1 ≡ true) × IsSame seg got.0 (text_of text)
  tcp_unpack-tcp_pack =
      let sum = sent.checksum in
      let b = bytes src dest protocol junk seg text sum in
      let summed = checksum-packed src dest protocol junk seg text fits in
      let narrow_sum : sum < 2 ^ 16 =
        omega (arith, summed, complete-small (sum_of src dest protocol junk seg text)) in
      let small : sum % 2 ^ 16 ≡ sum = omega (arith, narrow_sum) in
      let total_sum : ℕ → Buffer → ℕ = λ n c.
        checksum_accmulate (checksum_accmulate 0 (pseudo_header_pack src dest protocol n) 12) c n in
      let right =
        read_sum src dest protocol junk seg text sum
        ∙ (small
            ∙ (summed
                ∙ ap (λ c. checksum_complete (total_sum (20 + length (text_of text)) c))
                    (sym (cleared src dest protocol junk seg text sum)))) in
      let unpacked =
        accepted src dest protocol before b (20 + length (text_of text)) (omega arith) (omega arith)
          right in
      rw (packed-contents src dest protocol junk seg text fits, unpacked)
        (
          refl,
          header-IsSame seg _ b (text_of text) narrow fits
              (read_src_port src dest protocol junk seg text sum)
              (read_dest_port src dest protocol junk seg text sum)
              (read_seq src dest protocol junk seg text sum)
              (read_ack src dest protocol junk seg text sum)
              (read_flags src dest protocol junk seg text sum)
              (read_win src dest protocol junk seg text sum)
              (read_urgent_ptr src dest protocol junk seg text sum)
              (behind src dest protocol junk seg text sum),
        )
