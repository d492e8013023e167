-- ===== src/Tcp/Wire.antt =====
-- `tcp_pack` and `tcp_unpack`: segments as bytes.
use dts_net.Base.{ℕ, ◌+◌, ◌-◌, ◌*◌, ◌%◌, ◌^◌, bit_and, bit_or, Bool, true, false, [], ◌∷◌}
use dts_net.Base.{if◌then◌else◌, ltb, leb, ◌==◌, drop}
use dts_net.Endian.{Buffer, br16, bw16, br32, bw32, ◌<<<◌, ◌>>>◌}
use dts_net.Checksum.{checksum_accmulate, checksum_complete}
use dts_net.Dblk.{Chain, Node, dblk_size, dblk_merge, dblk_node_init}
use dts_net.Ip.{IpAddr, pseudo_header_pack}
use dts_net.Tcp.Defs.{Segment}

abbrev w16 : ℕ → ℕ → Buffer → Buffer
w16 p v buf = (bw16 v buf p).0

abbrev w32 : ℕ → ℕ → Buffer → Buffer
w32 p v buf = (bw32 v buf p).0

-- The header, with the checksum cleared.
unfoldable pub write_header : Segment → Buffer → Buffer
write_header seg buf =
    let b = w32 8 seg.ack (w32 4 seg.seq (w16 2 seg.dest_port (w16 0 seg.src_port buf))) in
    let b = w16 14 seg.win (w16 12 (bit_or (seg.data_offset <<< 12) seg.flags) b) in
    w16 18 seg.urgent_ptr (w16 16 0 b)

-- The sum goes on over the first node of a block, if there is one.
unfoldable pub sum_block : ℕ → Chain → ℕ
sum_block sum [] = sum
sum_block sum (d ∷ ds) = checksum_accmulate sum d.bytes d.size

-- The checksum of a segment with header `hdr` between `src` and `dest`.
unfoldable pub segment_checksum : IpAddr → IpAddr → ℕ → Buffer → Segment → ℕ
segment_checksum src dest protocol hdr seg =
    let length = (20 + dblk_size seg.options + dblk_size seg.payload) % 2 ^ 16 in
    let sum = checksum_accmulate 0 (pseudo_header_pack src dest protocol length) 12 in
    let sum = sum_block (checksum_accmulate sum hdr 20) seg.options in
    checksum_complete (sum_block sum seg.payload)

-- What `tcp_pack` does when there is room in the block `header ∷ rest`.
pack_into : IpAddr → IpAddr → ℕ → Segment → Node → Chain → Segment
pack_into src dest protocol seg header rest =
    let hdr = write_header seg header.bytes in
    let sum = segment_checksum src dest protocol hdr seg in
    let packed = record header { bytes = w16 16 sum hdr; size = 20 } in
    record seg {
      checksum = sum;
      raw_data = dblk_merge (dblk_merge (packed ∷ rest) seg.options) seg.payload;
    }

pack_block : IpAddr → IpAddr → ℕ → Segment → Chain → Segment × Bool
pack_block src dest protocol seg [] = (seg, false)
pack_block src dest protocol seg (header ∷ rest) =
    (pack_into src dest protocol seg header rest, true)

-- The pseudo header is made of `src`, `dest` and `protocol`; the flag is the result.
unfoldable pub tcp_pack : IpAddr → IpAddr → ℕ → Segment → Segment × Bool
unfolding pack_into pack_block
tcp_pack src dest protocol seg =
    if ltb (20 + dblk_size seg.options) (dblk_size seg.raw_data)
    then pack_block src dest protocol seg seg.raw_data
    else (seg, false)

-- `options->size` and `payload->size` are `uint16_t`: a data offset below 5 or behind the end of
-- the segment wraps.
abbrev size16_sub : ℕ → ℕ → ℕ
size16_sub a b = (a + 2 ^ 16 - b) % 2 ^ 16

-- The fields that `tcp_unpack` reads, and the blocks that it lays over the segment, whose checksum
-- field is cleared behind them.
unfoldable pub read_header : Segment → Node → Chain → Segment
read_header seg header rest =
    let data_offset = bit_and (br16 header.bytes 12) 0xf000 >>> 12 in
    let doff = data_offset * 4 in
    let cleared = (bw16 0 header.bytes 16).0 in
    record seg {
      src_port = br16 header.bytes 0;
      dest_port = br16 header.bytes 2;
      seq = br32 header.bytes 4;
      ack = br32 header.bytes 8;
      data_offset = data_offset;
      flags = bit_and (br16 header.bytes 12) 0x0fff;
      win = br16 header.bytes 14;
      checksum = br16 header.bytes 16;
      urgent_ptr = br16 header.bytes 18;
      options = dblk_node_init (drop 20 cleared) (size16_sub doff 20) ∷ [];
      payload = dblk_node_init (drop doff cleared) (size16_sub header.size doff) ∷ [];
      raw_data = record header { bytes = cleared } ∷ rest;
    }

unpack_from : IpAddr → IpAddr → ℕ → Segment → Chain → Segment × Bool
unpack_from src dest protocol seg [] = (seg, false)
unpack_from src dest protocol seg (header ∷ rest) =
    let seg1 = read_header seg header rest in
    let length = dblk_size (header ∷ rest) % 2 ^ 16 in
    let sum = checksum_accmulate 0 (pseudo_header_pack src dest protocol length) 12 in
    let sum = sum_block sum seg1.raw_data in (seg1, seg1.checksum == checksum_complete sum)

unfoldable pub tcp_unpack : IpAddr → IpAddr → ℕ → Segment → Segment × Bool
unfolding unpack_from
tcp_unpack src dest protocol seg =
    if leb 20 (dblk_size seg.raw_data)
    then unpack_from src dest protocol seg seg.raw_data
    else (seg, false)
