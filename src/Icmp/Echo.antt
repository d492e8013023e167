-- ===== src/Icmp/Echo.antt =====
-- An echo request is answered with what it carried.
use dts_net.Base.{
  ℕ, ◌+◌, ◌-◌, ◌%◌, ◌^◌, ◌≡◌, ◌≤◌, refl, arith, ◌∙◌, true, false, some, inl, inr, [], ◌∷◌,
}
use dts_net.Base.{length, set, drop, ltb, length-set, length-drop}
use dts_net.Endian.{Buffer, byte_at, br16, bw16, br16-bw16, byte_at-bw16, byte_at-set, length-bw16}
use dts_net.Bytes.{copy_at, slice, slice-copy_at, br16-copy_at_other, byte_at-copy_at_other}
use dts_net.Bytes.{length-copy_at, br16-bw16_other, slice-bw16_other}
use dts_net.Checksum.{checksum}
use dts_net.Dblk.{Node, Chain}
use dts_net.Ip.{Ip, IpHeader, Lower, ip_hl_send}
use dts_net.Icmp.Defs.{
  Icmp, icmp_head, icmp_body, icmp_pack, icmp_unpack, icmp_answer, icmp_received, icmp_ip_recv,
  send_back,
}

-- An answer carries what a request did.
pub record IsEchoOf (bytes : Buffer) (size : ℕ) (reply : Icmp) : Type 0 where
  pub same_size : reply.size ≡ size
  pub same_memory : length reply.bytes ≡ length bytes
  pub is_echo_reply : byte_at reply.bytes 0 ≡ 0
  pub same_identifier : br16 reply.bytes 4 ≡ br16 bytes 4 % 2 ^ 16
  pub same_number : br16 reply.bytes 6 ≡ br16 bytes 6 % 2 ^ 16
  pub same_text : slice reply.bytes 8 (size - 8) ≡ slice bytes 8 (size - 8)

module _ (blank : Icmp) (bytes : Buffer) (size : ℕ) (echo : byte_at bytes 0 ≡ 8) (enough : 8 ≤ size)
    (memory : size ≤ length bytes) where
  over8 : ltb size 8 ≡ false
  over8 = ground arith

  abbrev request : Icmp
  request = record {
    kind = 8;
    code = byte_at bytes 1;
    checksum_field = br16 bytes 2;
    message = record {
      identifier = br16 bytes 4;
      sequence_number = br16 bytes 6;
      bytes = drop 8 bytes;
      size = size - 8;
    };
    bytes = bytes;
    size = size;
  }

  unpacked : icmp_unpack (record blank { bytes = bytes; size = size }) ≡ (request, true)
  unfolding icmp_unpack
  unpacked = let over4 : ltb size 4 ≡ false = ground arith in rw (echo, over4, over8) refl

  abbrev head : Buffer
  head = (bw16 0 (set (set bytes 0 0) 1 0) 2).0

  abbrev numbered : Buffer
  numbered = (bw16 (br16 bytes 6) (bw16 (br16 bytes 4) head 4).0 6).0

  abbrev whole : Buffer
  whole = copy_at numbered 8 (drop 8 bytes) (size - 8)

  abbrev reply : Icmp
  reply =
      let sum = checksum whole (8 + (size - 8)) in
      record request {
        kind = 0;
        code = 0;
        checksum_field = sum;
        bytes = (bw16 sum whole 2).0;
        size = 8 + (size - 8);
      }

  answered : icmp_answer blank bytes size ≡ some reply
  unfolding icmp_answer icmp_pack icmp_head icmp_body
  answered = rw (unpacked, over8) refl

  length-head : length head ≡ length bytes
  length-head =
      length-bw16 0 (set (set bytes 0 0) 1 0) 2
      ∙ (length-set (set bytes 0 0) 1 0 ∙ length-set bytes 0 0)

  abbrev identified : Buffer
  identified = (bw16 (br16 bytes 4) head 4).0

  length-identified : length identified ≡ length bytes
  length-identified = length-bw16 (br16 bytes 4) head 4 ∙ length-head

  length-numbered : length numbered ≡ length bytes
  length-numbered = length-bw16 (br16 bytes 6) identified 6 ∙ length-identified

  text_room : 8 + (size - 8) ≤ length numbered
  text_room = omega (arith, length-numbered)

  text_there : size - 8 ≤ length (drop 8 bytes)
  text_there = omega (arith, length-drop 8 bytes)

  length-whole : length whole ≡ length bytes
  length-whole =
      length-copy_at numbered (drop 8 bytes) 8 (size - 8) text_room text_there ∙ length-numbered

  reply-IsEchoOf : IsEchoOf bytes size reply
  reply-IsEchoOf =
      let sum = checksum whole (8 + (size - 8)) in
      record {
        same_size = omega arith;
        same_memory = length-bw16 sum whole 2 ∙ length-whole;
        is_echo_reply = ground (
          arith,
          byte_at-bw16 sum whole 2 0 (omega (arith, length-whole)),
          byte_at-copy_at_other numbered (drop 8 bytes) 8 (size - 8) text_room text_there 0
              (inl (omega arith)),
          byte_at-bw16 (br16 bytes 6) identified 6 0 (omega (arith, length-identified)),
          byte_at-bw16 (br16 bytes 4) head 4 0 (omega (arith, length-head)),
          byte_at-bw16 0 (set (set bytes 0 0) 1 0) 2 0
              (omega (arith, length-set (set bytes 0 0) 1 0, length-set bytes 0 0)),
          byte_at-set (set bytes 0 0) 1 0 0 (omega (arith, length-set bytes 0 0)),
          byte_at-set bytes 0 0 0 (omega arith),
        );
        same_identifier =
            br16-bw16_other sum whole 4 2 (omega (arith, length-whole)) (inr (omega arith))
            ∙ (br16-copy_at_other numbered (drop 8 bytes) 8 (size - 8) text_room text_there 4
                  (inl (omega arith))
                ∙ (br16-bw16_other (br16 bytes 6) identified 4 6 (omega (arith, length-identified))
                      (inl (omega arith))
                    ∙ br16-bw16 (br16 bytes 4) head 4 (omega (arith, length-head))));
        same_number =
            br16-bw16_other sum whole 6 2 (omega (arith, length-whole)) (inr (omega arith))
            ∙ (br16-copy_at_other numbered (drop 8 bytes) 8 (size - 8) text_room text_there 6
                  (inl (omega arith))
                ∙ br16-bw16 (br16 bytes 6) identified 6 (omega (arith, length-identified)));
        same_text =
            slice-bw16_other sum whole 8 (size - 8) 2 (omega (arith, length-whole))
              (omega (arith, length-whole)) (inr (omega arith))
            ∙ slice-copy_at numbered (drop 8 bytes) 8 (size - 8) text_room text_there;
      }

-- What is sent back, over any send.
pub icmp_received-IsEchoOf {ℓ} :
    {R : Type ℓ} (send : IpHeader → Chain → R) (kept : R) (blank : Icmp) (ip : Ip) (hdr : IpHeader)
    (payload : Node)
    → byte_at payload.bytes 0 ≡ 8
    → 8 ≤ payload.size
    → payload.size ≤ length payload.bytes
    → (r : Icmp) × (icmp_received send kept blank ip hdr payload
        ≡ send
            (record hdr { dest = hdr.src; src = ip.addr })
            (record payload { bytes = r.bytes } ∷ []))
      × IsEchoOf payload.bytes payload.size r
unfolding icmp_received send_back
icmp_received-IsEchoOf send kept blank ip hdr payload echo enough memory = (
  reply blank payload.bytes payload.size echo enough memory,
  rw (answered blank payload.bytes payload.size echo enough memory) refl,
  reply-IsEchoOf blank payload.bytes payload.size echo enough memory,
)

-- An echo request of at least 8 bytes in memory is answered: the datagram goes to `ip_hl_send` with
-- its sender as the destination, and its payload is an echo reply of the same size with the
-- identifier, the sequence number and the text of the request.
icmp_ip_recv-IsEchoOf :
    (blank : Icmp) (ip : Ip) (hdr : IpHeader) (payload : Node) (low : Lower)
    → byte_at payload.bytes 0 ≡ 8
    → 8 ≤ payload.size
    → payload.size ≤ length payload.bytes
    → (r : Icmp) × (icmp_ip_recv blank ip hdr payload low
        ≡ (ip_hl_send ip
            (record hdr { dest = hdr.src; src = ip.addr })
            (record payload { bytes = r.bytes } ∷ [])
            low).0)
      × IsEchoOf payload.bytes payload.size r
unfolding icmp_ip_recv
icmp_ip_recv-IsEchoOf blank ip hdr payload low echo enough memory =
    icmp_received-IsEchoOf (λ h d. (ip_hl_send ip h d low).0) low blank ip hdr payload echo enough
      memory
