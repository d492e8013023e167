-- ===== src/Tcp/Heard.antt =====
-- What the other end makes of a control segment that dts_net_tcp.c sends.
use dts_net.Base.{ℕ, ◌%◌, ◌^◌, ◌≡◌, ◌<◌, refl, sym, ap, ◌∙◌, arith, Bool, true, false}
use dts_net.Base.{Option, none, some, List, [], ◌∷◌, ◌++◌, length, take_all, replicate}
use dts_net.Base.{if◌then◌else◌, Bool-cases, inl, inr, take-append_exact, drop}
use dts_net.Dblk.{Chain, Heap, dblk_size, dblk_node_size, dblk_node_init, dblk_copy, dblk_merge}
use dts_net.Dblk.{merge_node}
use dts_net.Endian.{bw16, bw32}
use dts_net.Dblk.AllocLaws.{new_with_buff-granted}
use dts_net.Dblk.Contents.{contents, AreReal}
use dts_net.Dblk.CopyLaws.{dblk_copy_to-contents}
use dts_net.Ip.{IpDatagram, ip_protocol_tcp}
use dts_net.Tcp.Defs.{Segment, Tcp, Conn}
use dts_net.Tcp.Wire.{tcp_pack, write_header, tcp_unpack}
use dts_net.Tcp.Send.{
  flat, datagram, ctrl_seg, segment_of, tcp_segment_init, tcp_send_ctrl_seg, tcp_ip_send,
}
use dts_net.Tcp.RoundTrip.{IsNarrow, tcp_unpack-tcp_pack}

-- A segment with these numbers and flags, and no text.
pub record IsControl (at acked bits : ℕ) (seg : Segment) : Type 0 where
  pub seq : seg.seq ≡ at
  pub ack : seg.ack ≡ acked
  pub flags : seg.flags ≡ bits
  pub no_text : dblk_size seg.payload ≡ 0

-- The datagram that was handed down last.
abbrev pub newest : List IpDatagram → Option IpDatagram
newest [] = none
newest (d ∷ []) = some d
newest (d ∷ e ∷ ds) = newest (e ∷ ds)

newest-append : (ds : List IpDatagram) (d : IpDatagram) → newest (ds ++ d ∷ []) ≡ some d
newest-append [] d = refl
newest-append (e ∷ []) d = refl
newest-append (e ∷ f ∷ ds) d = newest-append (f ∷ ds) d

abbrev accepted_only : Segment × Bool → Option Segment
accepted_only (seg, valid) = if valid then some seg else none

only_accepted : (x : Segment × Bool) → x.1 ≡ true → accepted_only x ≡ some x.0
only_accepted (seg, true) e = refl
only_accepted (seg, false) e = ground arith

-- The segment that `tcp_ip_recv` reads of a datagram in one node, where it is accepted.
abbrev pub heard : Option IpDatagram → Option Segment
heard none = none
heard (some d) = accepted_only (
    tcp_unpack d.ip.addr d.dest ip_protocol_tcp (record tcp_segment_init {
      raw_data = dblk_node_init d.payload (length d.payload) ∷ [];
      src = d.ip.addr;
    }))

abbrev pub last_heard : Conn → Option Segment
last_heard c = heard (newest c.net.sent)

-- A copy of a block holds its bytes.
flat-dblk_copy :
    (ds : Chain) (h : Heap)
    → ((n : ℕ) → h.grant n ≡ true)
    → AreReal ds
    → dblk_size ds ≡ length (contents ds)
    → length (contents ds) < 2 ^ 16
    → flat (dblk_copy ds h).0 ≡ contents ds
unfolding dblk_copy dblk_node_init
flat-dblk_copy ds h all real size small =
    let n = length (contents ds) in
    let cut : n % 2 ^ 16 ≡ n = omega arith in
    rw
      (
        size,
        new_with_buff-granted n h all,
        cut,
        dblk_copy_to-contents ds (replicate n h.junk) n real,
        take_all n (contents ds) (omega arith),
      )
      (take-append_exact n (contents ds) (drop n (replicate n h.junk)) refl)

-- A control segment is one node of 20 bytes.
module _ (t : Tcp) (junk seq ack flags : ℕ) where
  ctrl_seg-node :
      AreReal (ctrl_seg t junk seq ack flags).raw_data
      × (dblk_size (ctrl_seg t junk seq ack flags).raw_data ≡ 20)
      × (length (contents (ctrl_seg t junk seq ack flags).raw_data) ≡ 20)
  unfolding ctrl_seg tcp_pack dblk_merge merge_node dblk_size dblk_node_size dblk_node_init
      write_header bw16 bw32
  ctrl_seg-node = ((refl, omega arith, tt), refl, refl)

  -- What arrives of it is accepted, and has its numbers and flags, and no text.
  ctrl_seg-heard :
      seq < 2 ^ 32
      → ack < 2 ^ 32
      → flags < 2 ^ 12
      → t.dest_port < 2 ^ 16
      → t.rcv.wnd < 2 ^ 16
      → (seg : Segment) × (heard
            (some (datagram t (contents (ctrl_seg t junk seq ack flags).raw_data)))
          ≡ some seg)
        × IsControl seq ack flags seg
  unfolding ctrl_seg dblk_size dblk_node_size dblk_node_init
  ctrl_seg-heard seq_fits ack_fits flags_fit port_fits window_fits =
      let seg = segment_of t seq ack flags [] (dblk_node_init (replicate 32 junk) 32 ∷ []) in
      let narrow : IsNarrow seg = record {
        src_port = omega arith;
        dest_port = port_fits;
        seq = seq_fits;
        ack = ack_fits;
        flags = flags_fit;
        win = window_fits;
        urgent_ptr = omega arith;
      } in
      let before : Segment = record tcp_segment_init { src = t.localhost.addr } in
      let (valid, same) =
        tcp_unpack-tcp_pack t.localhost.addr t.dest ip_protocol_tcp junk seg before none narrow refl
          (omega arith) in
      let size = ctrl_seg-node.2 in
      let bytes = contents (ctrl_seg t junk seq ack flags).raw_data in
      let read : ℕ → Segment × Bool = λ n.
        tcp_unpack t.localhost.addr t.dest ip_protocol_tcp
          (record before { raw_data = dblk_node_init bytes n ∷ [] }) in
      (
        (read 20).0,
        ap (λ n. accepted_only (read n)) size ∙ only_accepted (read 20) valid,
        record {
          seq = same.seq;
          ack = same.ack;
          flags = same.flags;
          no_text = ap dblk_size same.payload;
        },
      )

sent-send_ctrl_seg :
    (c : Conn) (seq ack flags : ℕ)
    → (tcp_send_ctrl_seg c seq ack flags).0.net.sent
      ≡ c.net.sent
        ++ datagram c.tcp
            (flat (dblk_copy (ctrl_seg c.tcp c.net.heap.junk seq ack flags).raw_data c.net.heap).0)
          ∷ []
unfolding tcp_send_ctrl_seg tcp_ip_send
sent-send_ctrl_seg c seq ack flags = elim (Bool-cases (c.net.accept (length c.net.sent))) [
  | inl went ↦ rw went refl
  | inr refused ↦ rw refused refl
]

-- What arrives of the last datagram, where `tcp_send_ctrl_seg` made it.
pub send_ctrl_seg-heard :
    (c : Conn) (seq ack flags : ℕ)
    → ((n : ℕ) → c.net.heap.grant n ≡ true)
    → seq < 2 ^ 32
    → ack < 2 ^ 32
    → flags < 2 ^ 12
    → c.tcp.dest_port < 2 ^ 16
    → c.tcp.rcv.wnd < 2 ^ 16
    → (seg : Segment) × (last_heard (tcp_send_ctrl_seg c seq ack flags).0 ≡ some seg)
      × IsControl seq ack flags seg
send_ctrl_seg-heard c seq ack flags all seq_fits ack_fits flags_fit port_fits window_fits =
    let junk = c.net.heap.junk in
    let raw = (ctrl_seg c.tcp junk seq ack flags).raw_data in
    let (real, size, long) = ctrl_seg-node c.tcp junk seq ack flags in
    let copied = flat-dblk_copy raw c.net.heap all real (size ∙ sym long) (omega (arith, long)) in
    let (seg, e, control) =
      ctrl_seg-heard c.tcp junk seq ack flags seq_fits ack_fits flags_fit port_fits window_fits in
    let d = datagram c.tcp (flat (dblk_copy raw c.net.heap).0) in
    (
      seg,
      ap heard (ap newest (sent-send_ctrl_seg c seq ack flags) ∙ newest-append c.net.sent d)
          ∙ (ap (λ b. heard (some (datagram c.tcp b))) copied ∙ e),
      control,
    )
