-- ===== src/Ip/Header.antt =====
-- `ip_header_pack` and `ip_header_unpack`.
use dts_net.Base.{
  ℕ, ◌+◌, ◌-◌, ◌*◌, ◌/◌, ◌%◌, ◌^◌, bit_and, bit_or, Bool, true, false, if◌then◌else◌, ltb, ◌==◌,
}
use dts_net.Base.{set, take, drop, []}
use dts_net.Endian.{Buffer, byte_at, br16, bw16, ◌<<<◌, ◌>>>◌}
use dts_net.Bytes.{copy_at, clear, put8}
use dts_net.Checksum.{checksum}
use dts_net.Ip.Addr.{IpAddr}

-- `ip_header_t`; `version` and `ihl` have 4 bits, `flags` 3, `fragment_offset` 13.
pub record IpHeader : Type 0 where
  pub version : ℕ
  pub ihl : ℕ
  pub type_of_service : ℕ
  pub total_length : ℕ
  pub identification : ℕ
  pub flags : ℕ
  pub fragment_offset : ℕ
  pub time_to_live : ℕ
  pub protocol : ℕ
  pub checksum_field : ℕ
  pub src : IpAddr
  pub dest : IpAddr
  pub options : Buffer
  pub option_size : ℕ

-- The header with its options, rounded up to 32 bits.
unfoldable pub header_size : ℕ → ℕ
header_size option_size =
    let size = option_size + 20 in if bit_and size 3 == 0 then size else size - bit_and size 3 + 4

-- The bytes before the addresses, with the checksum cleared.
unfoldable pub write_fixed : IpHeader → ℕ → Buffer → Buffer
write_fixed hdr size buf =
    let b = put8 0 (bit_or (size / 4) (hdr.version <<< 4)) (clear buf size) in
    let b = (bw16 hdr.total_length (set b 1 hdr.type_of_service) 2).0 in
    let b =
      (bw16 (bit_or (hdr.flags <<< 13) hdr.fragment_offset) (bw16 hdr.identification b 4).0 6).0 in
    (bw16 0 (set (set b 8 hdr.time_to_live) 9 hdr.protocol) 10).0

-- Only an address of version 4 is written, and what follows moves on past it.
unfoldable pub write_addresses : IpHeader → Buffer → Buffer
write_addresses hdr b =
    if hdr.version == 4
    then copy_at (copy_at (copy_at b 12 hdr.src.v4 4) 16 hdr.dest.v4 4) 20 hdr.options
        hdr.option_size
    else copy_at b 12 hdr.options hdr.option_size

-- The header, the memory, and the size; 0 where the header does not fit.
unfoldable pub ip_header_pack : IpHeader → Buffer → ℕ → IpHeader × Buffer × ℕ
ip_header_pack hdr buf room =
    let size = header_size hdr.option_size in
    let hdr1 = record hdr {
      total_length = (hdr.total_length + size) % 2 ^ 16;
      checksum_field = 0;
    } in
    let b = write_addresses hdr1 (write_fixed hdr1 size buf) in
    let sum = checksum b size in
    if ltb room (hdr.option_size + 20)
    then (hdr, buf, 0)
    else (record hdr1 { checksum_field = sum }, (bw16 sum b 10).0, size)

-- The fields as they are read: `identification` is what stands at 6, and neither the flags nor the
-- offset are set.
abbrev pub read_ip_fields : IpHeader → Buffer → IpHeader
read_ip_fields hdr b = record hdr {
  version = bit_and (byte_at b 0) 0xf0 >>> 4;
  ihl = bit_and (byte_at b 0) 0x0f;
  type_of_service = byte_at b 1;
  total_length = br16 b 2;
  identification = br16 b 6;
  time_to_live = byte_at b 8;
  protocol = byte_at b 9;
  checksum_field = br16 b 10;
}

-- The addresses take over the version; their four bytes are read for version 4 only.
abbrev pub read_addresses : IpHeader → Buffer → IpHeader
read_addresses hdr b =
    let src = record hdr.src { version = hdr.version } in
    let dest = record hdr.dest { version = hdr.version } in
    if hdr.version == 4
    then record hdr {
      src = record src { v4 = take 4 (drop 12 b) };
      dest = record dest { v4 = take 4 (drop 16 b) };
    }
    else record hdr { src = src; dest = dest }

-- `hdr` is what the header held before, `size` the size of the datagram.
unfoldable pub ip_header_unpack : IpHeader → Buffer → ℕ → IpHeader × Bool
ip_header_unpack hdr b size =
    let h1 = read_ip_fields hdr b in
    let h2 = read_addresses h1 b in
    let h3 = if size == 20 then record h2 { options = []; option_size = 0 } else h2 in
    if ltb size 20
    then (hdr, false)
    else if ltb size (h1.ihl * 4)
    then (record hdr { version = h1.version; ihl = h1.ihl }, false)
    else (h3, true)
