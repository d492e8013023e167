-- ===== src/Tcp/Lengths.antt =====
-- What a segment takes of the sequence numbers, before and after it is packed.
use dts_net.Base.{
  ℕ, ◌≡◌, refl, arith, [], ◌∷◌, replicate, ◌∙◌, not, bit_and, ◌==◌, ◌+◌, if◌then◌else◌,
}
use dts_net.Dblk.{Chain, dblk_size, dblk_node_init}
use dts_net.Ip.{IpAddr, ip_protocol_tcp}
use dts_net.Tcp.Defs.{Segment, Tcp, tcp_segment_length, seg_ctrl_s, seg_ctrl_f}
use dts_net.Tcp.Wire.{tcp_pack}
use dts_net.Tcp.Send.{ctrl_seg, segment_of}

module _ (src dest : IpAddr) (protocol : ℕ) (seg : Segment) where
  -- Packing changes the bytes and the checksum of a segment, no other field.
  pub tcp_pack-fields :
      ((tcp_pack src dest protocol seg).0.flags ≡ seg.flags)
      × ((tcp_pack src dest protocol seg).0.payload ≡ seg.payload)
      × ((tcp_pack src dest protocol seg).0.seq ≡ seg.seq)
      × ((tcp_pack src dest protocol seg).0.ack ≡ seg.ack)
  unfolding tcp_pack
  tcp_pack-fields = ground arith

  pub length-tcp_pack :
      tcp_segment_length (tcp_pack src dest protocol seg).0 ≡ tcp_segment_length seg
  unfolding tcp_segment_length seg_ctrl_s seg_ctrl_f
  length-tcp_pack = rw (tcp_pack-fields.0, tcp_pack-fields.1)

-- The length of a segment without payload, by its flags.
length-segment_of :
    (t : Tcp) (seq ack flags : ℕ) (raw : Chain)
    → tcp_segment_length (segment_of t seq ack flags [] raw)
      ≡ (if not (bit_and flags 2 == 0) then 1 else 0)
        + 0
        + (if not (bit_and flags 1 == 0) then 1 else 0)
unfolding tcp_segment_length seg_ctrl_s seg_ctrl_f dblk_size
length-segment_of t seq ack flags raw = refl

-- A control segment takes a number for its SYN, and one for its FIN.
pub length-ctrl_seg :
    (t : Tcp) (junk seq ack flags : ℕ)
    → tcp_segment_length (ctrl_seg t junk seq ack flags)
      ≡ (if not (bit_and flags 2 == 0) then 1 else 0)
        + 0
        + (if not (bit_and flags 1 == 0) then 1 else 0)
unfolding ctrl_seg
length-ctrl_seg t junk seq ack flags =
    length-tcp_pack t.localhost.addr t.dest ip_protocol_tcp _
    ∙ length-segment_of t seq ack flags (dblk_node_init (replicate 32 junk) 32 ∷ [])

pub length-ack : (t : Tcp) (junk seq ack : ℕ) → tcp_segment_length (ctrl_seg t junk seq ack 16) ≡ 0
length-ack t junk seq ack = length-ctrl_seg t junk seq ack 16
