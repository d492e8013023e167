-- ===== src/Ip/RoundTrip.antt =====
-- `ip_header_unpack` of what `ip_header_pack` wrote.
use dts_net.Base.{
  ℕ, ◌+◌, ◌*◌, ◌%◌, ◌^◌, ◌≡◌, ◌≤◌, ◌<◌, refl, ap, ◌∙◌, arith, Bool, true, false, [], ◌∷◌, ◌++◌,
}
use dts_net.Base.{replicate, bit_or, take, ltb, ◌==◌, bit_or-shifted, if◌then◌else◌}
use dts_net.Endian.{Buffer, br16, bw16, br16-bw16, ◌<<<◌}
use dts_net.Checksum.{checksum}
use dts_net.Ip.Header.{IpHeader, header_size, write_fixed, write_addresses, ip_header_pack}
use dts_net.Ip.Header.{ip_header_unpack, read_addresses, read_ip_fields}

-- The four bytes of an address.
pub record Quad : Type 0 where
  pub a : ℕ
  pub b : ℕ
  pub c : ℕ
  pub d : ℕ

abbrev pub quad_bytes : Quad → Buffer
quad_bytes q = q.a ∷ q.b ∷ q.c ∷ q.d ∷ []

-- A header of version 4 without options.
abbrev pub plain_header : IpHeader → Quad → Quad → IpHeader
plain_header hdr src dest = record hdr {
  version = 4;
  option_size = 0;
  src = record hdr.src { v4 = quad_bytes src };
  dest = record hdr.dest { v4 = quad_bytes dest };
}

-- What was packed and what was read.
pub record IsReadBack (hdr got : IpHeader) (src dest : Quad) (sum : ℕ) : Type 0 where
  pub version : got.version ≡ 4
  pub five_words : got.ihl ≡ 5
  pub type_of_service : got.type_of_service ≡ hdr.type_of_service
  pub total_length : got.total_length ≡ hdr.total_length + 20
  pub time_to_live : got.time_to_live ≡ hdr.time_to_live
  pub protocol : got.protocol ≡ hdr.protocol
  pub from : got.src.v4 ≡ quad_bytes src
  pub to : got.dest.v4 ≡ quad_bytes dest
  pub versions : (got.src.version ≡ 4) × (got.dest.version ≡ 4)
  pub flags_and_offset : got.identification ≡ hdr.flags * 2 ^ 13 + hdr.fragment_offset
  pub same_sum : got.checksum_field ≡ sum % 2 ^ 16

module _ (hdr : IpHeader) (src dest : Quad) (buf : Buffer) where
  -- The header as it is written, with its full length.
  abbrev whole : IpHeader
  whole = record (plain_header hdr src dest) {
    total_length = (hdr.total_length + 20) % 2 ^ 16;
    checksum_field = 0;
  }

  abbrev unsummed : Buffer
  unsummed = write_addresses whole (write_fixed whole 20 buf)

  abbrev pub header_sum : ℕ
  header_sum = checksum unsummed 20

  pub pack-plain :
      (room : ℕ)
      → 20 ≤ room
      → ip_header_pack (plain_header hdr src dest) buf room
        ≡ (record whole { checksum_field = header_sum }, (bw16 header_sum unsummed 10).0, 20)
  unfolding ip_header_pack header_size
  pack-plain room enough = let fits : ltb room 20 ≡ false = ground arith in rw fits refl

  module _ (sum : ℕ) (rest : Buffer) where
    -- The header on its own, and what follows it.
    abbrev arrived : Buffer
    arrived = take 20 (bw16 sum unsummed 10).0 ++ rest

    read_length : br16 arrived 2 ≡ (hdr.total_length + 20) % 2 ^ 16
    unfolding write_fixed write_addresses bw16 br16
    read_length =
        br16-bw16 ((hdr.total_length + 20) % 2 ^ 16) (replicate 20 0) 2 (omega arith) ∙ omega arith

    abbrev flags_field : ℕ
    flags_field = bit_or (hdr.flags <<< 13) hdr.fragment_offset

    read_flags : br16 arrived 6 ≡ flags_field % 2 ^ 16
    unfolding write_fixed write_addresses bw16 br16
    read_flags = br16-bw16 flags_field (replicate 20 0) 6 (omega arith)

    read_sum : br16 arrived 10 ≡ sum % 2 ^ 16
    unfolding write_fixed write_addresses bw16 br16
    read_sum = br16-bw16 sum (replicate 20 0) 10 (omega arith)

    module _ (before : IpHeader) (extra : ℕ) where
      abbrev got : IpHeader
      got = (ip_header_unpack before arrived (20 + extra)).0

      abbrev fields : IpHeader
      fields = read_addresses (read_ip_fields before arrived) arrived

      abbrev read : Bool → IpHeader
      read alone = if alone then record fields { options = []; option_size = 0 } else fields

      pub unpack-read :
          ip_header_unpack before arrived (20 + extra) ≡ (read (20 + extra == 20), true)
      unfolding ip_header_unpack write_fixed write_addresses bw16
      unpack-read = let long : ltb (20 + extra) 20 ≡ false = ground arith in rw long refl

      module _ (three : hdr.flags < 2 ^ 3) (thirteen : hdr.fragment_offset < 2 ^ 13)
          (sixteen : hdr.total_length + 20 < 2 ^ 16) where
        fields-IsReadBack :
            (options : Buffer) (option_size : ℕ)
            → IsReadBack hdr
                (record fields { options = options; option_size = option_size })
                src
                dest
                sum
        unfolding write_fixed write_addresses bw16
        fields-IsReadBack options option_size = record {
          version = refl;
          five_words = refl;
          type_of_service = refl;
          total_length = read_length ∙ omega arith;
          time_to_live = refl;
          protocol = refl;
          from = refl;
          to = refl;
          versions = (refl, refl);
          flags_and_offset =
              read_flags ∙ omega (arith, bit_or-shifted 13 hdr.flags hdr.fragment_offset thirteen);
          same_sum = read_sum;
        }

        read-IsReadBack : (alone : Bool) → IsReadBack hdr (read alone) src dest sum
        unfolding write_fixed write_addresses bw16
        read-IsReadBack true = fields-IsReadBack [] 0
        read-IsReadBack false = fields-IsReadBack before.options before.option_size

        pub unpack-IsReadBack : IsReadBack hdr got src dest sum
        unpack-IsReadBack = rw (got, unpack-read) (read-IsReadBack (20 + extra == 20))

module _ (hdr : IpHeader) (src dest : Quad) (buf rest : Buffer) (room extra : ℕ)
    (before : IpHeader) where
  abbrev sent : IpHeader × Buffer × ℕ
  sent = ip_header_pack (plain_header hdr src dest) buf room

  -- What `ip_header_pack` makes of a header of version 4 without options, where 20 bytes fit, the flags
  -- have 3 bits, the offset 13 and the length with the header 16: 20 bytes that `ip_header_unpack`
  -- accepts with whatever follows them. It reads the type of service, the length with the header, the
  -- time to live, the protocol, the checksum and both addresses that were packed; what it gives as the
  -- identification is the flags and the offset.
  pub ip_header_unpack-ip_header_pack :
      20 ≤ room
      → hdr.flags < 2 ^ 3
      → hdr.fragment_offset < 2 ^ 13
      → hdr.total_length + 20 < 2 ^ 16
      → let (got, valid) = ip_header_unpack before (take sent.2 sent.1 ++ rest) (sent.2 + extra) in
        (sent.2 ≡ 20) × (valid ≡ true) × IsReadBack hdr got src dest sent.0.checksum_field
  ip_header_unpack-ip_header_pack enough three thirteen sixteen =
      rw (pack-plain hdr src dest buf room enough) (
        refl,
        ap (λ x. x.1)
            (unpack-read hdr src dest buf (header_sum hdr src dest buf) rest before extra),
        unpack-IsReadBack hdr src dest buf (header_sum hdr src dest buf) rest before extra three
            thirteen sixteen,
      )
