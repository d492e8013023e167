-- ===== src/Tcp/Packed.antt =====
-- The bytes of a segment that `tcp_pack` made, and what is read of them.
use dts_net.Base.{
  ℕ, ◌+◌, ◌%◌, ◌^◌, ◌≡◌, ◌<◌, refl, sym, ap, ◌∙◌, arith, Option, none, some, [], ◌∷◌, ◌++◌,
}
use dts_net.Base.{length, replicate, take, drop, bit_or, append-nil, take_all}
use dts_net.Endian.{Buffer, br16, bw16, br32, bw32, br16-bw16, br32-bw32}
use dts_net.Checksum.{checksum_accmulate, checksum_complete, checksum_accmulate-append}
use dts_net.Dblk.{Chain, dblk_size, dblk_node_size, dblk_merge, merge_node, dblk_node_init}
use dts_net.Dblk.Contents.{contents}
use dts_net.Ip.{IpAddr, pseudo_header_pack}
use dts_net.Tcp.Defs.{Segment}
use dts_net.Tcp.Wire.{write_header, sum_block, segment_checksum, tcp_pack}

-- A segment's text, where it has one.
abbrev pub text_of : Option Buffer → Buffer
text_of none = []
text_of (some text) = text

abbrev pub block_of : Option Buffer → Chain
block_of none = []
block_of (some text) = dblk_node_init text (length text) ∷ []

-- A segment as the senders make it: no options, and 32 fresh bytes for the header.
abbrev pub fresh_segment : Segment → ℕ → Option Buffer → Segment
fresh_segment seg junk text = record seg {
  data_offset = 5;
  options = [];
  payload = block_of text;
  raw_data = dblk_node_init (replicate 32 junk) 32 ∷ [];
}

sum-nothing : (acc : ℕ) (buf : Buffer) → checksum_accmulate acc buf 0 ≡ acc
unfolding checksum_accmulate
sum-nothing acc buf = refl

-- A header of an even size, whatever lies behind it, and a text are summed as one.
sum-parts :
    (n : ℕ) (hdr junk text : Buffer) (acc : ℕ)
    → length hdr ≡ n
    → n % 2 ≡ 0
    → checksum_accmulate (checksum_accmulate acc (hdr ++ junk) n) text (length text)
      ≡ checksum_accmulate acc (hdr ++ text) (n + length text)
sum-parts n hdr junk text acc size even =
    let even_size : length hdr % 2 ≡ 0 = rw size even in
    let no_more : n + 0 ≡ n = omega arith in
    let alone : checksum_accmulate acc (hdr ++ junk) n ≡ checksum_accmulate acc hdr n =
      ap (λ m. checksum_accmulate acc (hdr ++ junk) m) (sym no_more)
      ∙ (ap (λ m. checksum_accmulate acc (hdr ++ junk) (m + 0)) (sym size)
          ∙ (sym (checksum_accmulate-append hdr junk acc 0 even_size)
              ∙ (sum-nothing (checksum_accmulate acc hdr (length hdr)) junk
                  ∙ ap (checksum_accmulate acc hdr) size))) in
    ap (λ a. checksum_accmulate a text (length text)) alone
    ∙ (ap (λ m. checksum_accmulate (checksum_accmulate acc hdr m) text (length text)) (sym size)
        ∙ (checksum_accmulate-append hdr text acc (length text) even_size
            ∙ ap (λ m. checksum_accmulate acc (hdr ++ text) (m + length text)) size))

module _ (src dest : IpAddr) (protocol junk : ℕ) (seg : Segment) where
  abbrev header : Buffer
  header = write_header (record seg { data_offset = 5 }) (replicate 32 junk)

  abbrev header_with : ℕ → Buffer
  header_with sum = take 20 (bw16 sum header 16).0

  abbrev total : Option Buffer → ℕ
  total text = 20 + length (text_of text)

  abbrev pub sum_of : Option Buffer → ℕ
  sum_of text =
      checksum_accmulate
        (checksum_accmulate 0 (pseudo_header_pack src dest protocol (total text)) 12)
        (take 20 header ++ text_of text) (total text)

  pub packed-contents :
      (text : Option Buffer)
      → length (text_of text) + 20 < 2 ^ 16
      → contents (tcp_pack src dest protocol (fresh_segment seg junk text)).0.raw_data
        ≡ header_with (tcp_pack src dest protocol (fresh_segment seg junk text)).0.checksum
          ++ text_of text
  unfolding tcp_pack dblk_merge merge_node dblk_size dblk_node_size dblk_node_init write_header bw16
      bw32
  packed-contents none fits = refl
  packed-contents (some text) fits =
      let small : length text % 2 ^ 16 ≡ length text = omega arith in
      let whole : take (length text % 2 ^ 16) text ++ [] ≡ text =
        append-nil _ ∙ take_all (length text % 2 ^ 16) text (omega arith) in
      ap
        (λ t.
          header_with (tcp_pack src dest protocol (fresh_segment seg junk (some text))).0.checksum
          ++ t)
        whole

  -- The sum over the parts, for any header.
  segment-sum :
      (hdr : Buffer) (text : Option Buffer)
      → length (text_of text) + 20 < 2 ^ 16
      → segment_checksum src dest protocol hdr (fresh_segment seg junk text)
        ≡ checksum_complete (
            checksum_accmulate
              (checksum_accmulate
                (checksum_accmulate 0 (pseudo_header_pack src dest protocol (total text)) 12)
                hdr
                20)
              (text_of text)
              (length (text_of text)))
  unfolding segment_checksum sum_block dblk_size dblk_node_size dblk_node_init checksum_accmulate
  segment-sum hdr none fits = refl
  segment-sum hdr (some text) fits =
      let small : length text % 2 ^ 16 ≡ length text = omega arith in
      let all : (20 + 0 + (length text + 0)) % 2 ^ 16 ≡ 20 + length text = omega arith in
      rw (small, all) refl

  pub checksum-packed :
      (text : Option Buffer)
      → length (text_of text) + 20 < 2 ^ 16
      → (tcp_pack src dest protocol (fresh_segment seg junk text)).0.checksum
        ≡ checksum_complete (sum_of text)
  unfolding tcp_pack dblk_size dblk_node_size dblk_node_init write_header bw16 bw32
  checksum-packed text fits =
      segment-sum header text fits
      ∙ ap checksum_complete
          (sum-parts 20 (take 20 header) (drop 20 header) (text_of text) _ refl refl)

  module _ (text : Option Buffer) (sum : ℕ) where
    -- The header and the text in one piece.
    abbrev pub bytes : Buffer
    bytes = header_with sum ++ text_of text

    pub read_src_port : br16 bytes 0 ≡ seg.src_port % 2 ^ 16
    unfolding write_header bw16 bw32 br16
    read_src_port = br16-bw16 seg.src_port (replicate 20 0) 0 (omega arith)

    pub read_dest_port : br16 bytes 2 ≡ seg.dest_port % 2 ^ 16
    unfolding write_header bw16 bw32 br16
    read_dest_port = br16-bw16 seg.dest_port (replicate 20 0) 2 (omega arith)

    pub read_seq : br32 bytes 4 ≡ seg.seq % 2 ^ 32
    unfolding write_header bw16 bw32 br32
    read_seq = br32-bw32 seg.seq (replicate 20 0) 4 (omega arith)

    pub read_ack : br32 bytes 8 ≡ seg.ack % 2 ^ 32
    unfolding write_header bw16 bw32 br32
    read_ack = br32-bw32 seg.ack (replicate 20 0) 8 (omega arith)

    pub read_flags : br16 bytes 12 ≡ bit_or 20480 seg.flags % 2 ^ 16
    unfolding write_header bw16 bw32 br16
    read_flags = br16-bw16 (bit_or 20480 seg.flags) (replicate 20 0) 12 (omega arith)

    pub read_win : br16 bytes 14 ≡ seg.win % 2 ^ 16
    unfolding write_header bw16 bw32 br16
    read_win = br16-bw16 seg.win (replicate 20 0) 14 (omega arith)

    pub read_sum : br16 bytes 16 ≡ sum % 2 ^ 16
    unfolding write_header bw16 bw32 br16
    read_sum = br16-bw16 sum (replicate 20 0) 16 (omega arith)

    pub read_urgent_ptr : br16 bytes 18 ≡ seg.urgent_ptr % 2 ^ 16
    unfolding write_header bw16 bw32 br16
    read_urgent_ptr = br16-bw16 seg.urgent_ptr (replicate 20 0) 18 (omega arith)

    pub cleared : (bw16 0 bytes 16).0 ≡ take 20 header ++ text_of text
    unfolding write_header bw16 bw32
    cleared = refl

    pub behind : drop 20 (bw16 0 bytes 16).0 ≡ text_of text
    unfolding write_header bw16 bw32
    behind = refl
