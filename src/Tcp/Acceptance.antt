-- ===== src/Tcp/Acceptance.antt =====
-- `process_received_seq` as a whole.
use dts_net.Base.{ℕ, ◌+◌, ◌-◌, ◌≡◌, ◌<◌, ◌%◌, ◌^◌, refl, arith, Bool, not, ◌&&◌, ◌||◌}
use dts_net.Base.{if◌then◌else◌, ltb, ◌==◌, Bool-cases, inl, inr, ◌∙◌, length, length-append}
use dts_net.Tcp.Defs.{Segment, Tcp, Conn, tcp_segment_length, seg_ctrl_r}
use dts_net.Tcp.Seq.{distance, sncmp-in_window, ls, le}
use dts_net.Tcp.Send.{tcp_send_ctrl_seg, tcp_ip_send, add32}
use dts_net.Tcp.Receive.{process_received_seq, seg_unacceptable, in_rcv_window}
use dts_net.Tcp.Frame.{tcp-send_ctrl_seg}
use dts_net.Tcp.Lengths.{length-ack}

-- An ACK alone leaves the connection as it was.
pub send_ack-tcp :
    (c : Conn) (seq ack : ℕ)
    → c.tcp.snd.nxt < 2 ^ 32
    → (tcp_send_ctrl_seg c seq ack 16).0.tcp ≡ c.tcp
send_ack-tcp c seq ack h =
    let len = length-ack c.tcp c.net.heap.junk seq ack in
    let e : add32 c.tcp.snd.nxt 0 ≡ c.tcp.snd.nxt = omega arith in
    tcp-send_ctrl_seg c seq ack 16 ∙ (elim (Bool-cases (tcp_send_ctrl_seg c seq ack 16).1) [
      | inl went ↦ rw (went, len, e)
      | inr refused ↦ rw refused
    ])

-- An ACK is one datagram, whether or not the IP layer takes it.
pub send_ctrl-sent :
    (c : Conn) (seq ack flags : ℕ)
    → length (tcp_send_ctrl_seg c seq ack flags).0.net.sent ≡ length c.net.sent + 1
unfolding tcp_send_ctrl_seg tcp_ip_send
send_ctrl-sent c seq ack flags = grind (arith, length-append)

-- RFC 793: is `x` one of the `wnd` numbers from `nxt` on?
abbrev pub is_receivable : Tcp → ℕ → Bool
is_receivable t x = ltb (distance t.rcv.nxt x) t.rcv.wnd

-- RFC 793: the first or the last number of the segment is one of them.
abbrev pub last_number : Segment → ℕ
last_number seg = (seg.seq + tcp_segment_length seg + 2 ^ 32 - 1) % 2 ^ 32

abbrev pub is_acceptable : Tcp → Segment → Bool
is_acceptable t seg =
    is_receivable t seg.seq
    || (not (tcp_segment_length seg == 0) && is_receivable t (last_number seg))

in_rcv_window-is_receivable :
    (t : Tcp) (x : ℕ)
    → 0 < t.rcv.wnd
    → t.rcv.nxt + t.rcv.wnd < 2 ^ 32
    → x < 2 ^ 32
    → in_rcv_window t x ≡ is_receivable t x
unfolding in_rcv_window
in_rcv_window-is_receivable t x w b h =
    let e : add32 t.rcv.nxt t.rcv.wnd ≡ t.rcv.nxt + t.rcv.wnd = omega arith in
    let d : distance t.rcv.nxt (t.rcv.nxt + t.rcv.wnd) ≡ t.rcv.wnd = omega arith in
    rw (e, sncmp-in_window le ls t.rcv.nxt x (t.rcv.nxt + t.rcv.wnd) (omega arith) h b, d) refl

seg_unacceptable-reply :
    (c : Conn) (seg : Segment)
    → c.tcp.snd.nxt < 2 ^ 32
    → ((seg_unacceptable c seg).tcp ≡ c.tcp)
      × (length (seg_unacceptable c seg).net.sent
          ≡ length c.net.sent + (if seg_ctrl_r seg then 0 else 1))
unfolding seg_unacceptable
seg_unacceptable-reply c seg h = ground (
  arith,
  send_ack-tcp c c.tcp.snd.nxt c.tcp.rcv.nxt h,
  send_ctrl-sent c c.tcp.snd.nxt c.tcp.rcv.nxt 16,
)

-- The acceptance test with an open receive window that does not go round 2 ^ 32 is the one of
-- RFC 793: the first or the last number of the segment lies in the window. It leaves the
-- connection as it was, and exactly an unacceptable segment that is no reset is answered by one
-- datagram.
pub process_received_seq-rfc :
    (c : Conn) (seg : Segment)
    → 0 < c.tcp.rcv.wnd
    → c.tcp.rcv.nxt + c.tcp.rcv.wnd < 2 ^ 32
    → c.tcp.snd.nxt < 2 ^ 32
    → seg.seq < 2 ^ 32
    → ((process_received_seq c seg).1 ≡ is_acceptable c.tcp seg)
      × ((process_received_seq c seg).0.tcp ≡ c.tcp)
      × (length (process_received_seq c seg).0.net.sent
          ≡ length c.net.sent + (if is_acceptable c.tcp seg || seg_ctrl_r seg then 0 else 1))
unfolding process_received_seq
process_received_seq-rfc c seg w b n s =
    let first = in_rcv_window-is_receivable c.tcp seg.seq w b s in
    let last = in_rcv_window-is_receivable c.tcp (last_number seg) w b (omega arith) in
    let reply = seg_unacceptable-reply c seg n in ground (arith, first, last, reply.0, reply.1)
