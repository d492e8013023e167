-- ===== src/Tcp/Faults.antt =====
-- Where a segment makes the code read through NULL: the flags of an outstanding segment that is
-- not there.
use dts_net.Base.{ℕ, ◌≡◌, arith, Bool, true, false, Option, none, some, inl, inr}
use dts_net.Base.{[], ◌&&◌, not}
use dts_net.Tcp.Defs.{ListLib, Segment, Conn, State, established}
use dts_net.Tcp.Defs.{fin_wait_1, fin_wait_2, last_ack, closed}
use dts_net.Tcp.Defs.{seg_ctrl_a, seg_ctrl_r}
use dts_net.Tcp.Send.{tcp_send_ctrl_seg}
use dts_net.Tcp.Receive.{
  fin_seg, established_seg, established_ack, process_received_seq, seg_unacceptable,
}
use dts_net.Tcp.Receive.{process_received_seq}
use dts_net.Tcp.Deliver.{deliver-handle}
use dts_net.Tcp.Frame.{tcp-send_ctrl_seg}
use dts_net.Base.{Bool-cases, ap, ◌∙◌}
use dts_net.Tcp.Events.{fin_pending, handle, has_handler, map_conn, deliver, tcp_received}

-- A segment that passes the acceptance test leaves the connection as it was.
pub process_received_seq-accepts :
    (c : Conn) (seg : Segment)
    → (process_received_seq c seg).1 ≡ true
    → (process_received_seq c seg).0 ≡ c
unfolding process_received_seq
process_received_seq-accepts c seg h = ground arith

-- The states whose handler reads the flags of the outstanding segment.
abbrev pub reads_tx_seg : State → Bool
reads_tx_seg established = true
reads_tx_seg fin_wait_1 = true
reads_tx_seg last_ack = true
reads_tx_seg _ = false

module _ (lib : ListLib) where
  established_seg-fault :
      (c : Conn) (seg : Segment)
      → (process_received_seq c seg).1 ≡ true
      → seg_ctrl_r seg ≡ false
      → seg_ctrl_a seg ≡ true
      → c.tcp.tx_seg ≡ none
      → established_seg lib c seg ≡ none
  unfolding established_seg established_ack
  established_seg-fault c seg ok reset ack idle =
      ground (arith, process_received_seq-accepts c seg ok)

  fin_seg-fault :
      (next : State) (c : Conn) (seg : Segment)
      → seg_ctrl_a seg ≡ true
      → c.tcp.tx_seg ≡ none
      → fin_seg lib next c seg ≡ none
  unfolding fin_seg
  fin_seg-fault next c seg ack idle = ground arith

  handle-established :
      (s : State) (c : Conn) (seg : Segment)
      → s ≡ established
      → handle lib s c (some seg) ≡ established_seg lib c seg
  unfolding handle
  handle-established s c seg e = ground arith

  -- An ESTABLISHED connection with nothing outstanding faults on every segment that is in the
  -- window, carries an acknowledgment and is no reset, where no other segment is queued: the code
  -- reads the flags of `tx_seg`, which is NULL.
  pub established_idle_faults :
      (c : Conn) (seg : Segment)
      → c.tcp.state ≡ established
      → c.tcp.rx_segs ≡ []
      → c.tcp.tx_seg ≡ none
      → (process_received_seq c seg).1 ≡ true
      → seg_ctrl_r seg ≡ false
      → seg_ctrl_a seg ≡ true
      → deliver lib c seg ≡ none
  established_idle_faults c seg st empty idle ok reset ack =
      let handler : has_handler c.tcp.state ≡ true = ground arith in
      deliver-handle lib c seg empty handler
      ∙ handle-established c.tcp.state c seg st
      ∙ established_seg-fault c seg ok reset ack idle

tx_seg-send_ctrl_seg :
    (c : Conn) (seq ack flags : ℕ) → (tcp_send_ctrl_seg c seq ack flags).0.tcp.tx_seg ≡ c.tcp.tx_seg
tx_seg-send_ctrl_seg c seq ack flags = elim (Bool-cases (tcp_send_ctrl_seg c seq ack flags).1) [
  | inl went ↦ ap (λ t. t.tx_seg) (tcp-send_ctrl_seg c seq ack flags) ∙ (rw went)
  | inr refused ↦ ap (λ t. t.tx_seg) (tcp-send_ctrl_seg c seq ack flags) ∙ (rw refused)
]

-- The acceptance test keeps the outstanding segment.
tx_seg-process_received_seq :
    (c : Conn) (seg : Segment) → (process_received_seq c seg).0.tcp.tx_seg ≡ c.tcp.tx_seg
unfolding process_received_seq seg_unacceptable
tx_seg-process_received_seq c seg =
    ground (arith, tx_seg-send_ctrl_seg c c.tcp.snd.nxt c.tcp.rcv.nxt 16)

-- The outstanding segment that the flags are read of.
abbrev pub has_tx_seg : Conn → Bool
has_tx_seg c = elim c.tcp.tx_seg [ none ↦ false | some _ ↦ true ]

abbrev pub is_fault : Option Conn → Bool
is_fault none = true
is_fault (some _) = false

module _ (lib : ListLib) where
  fin_seg-is_fault :
      (next : State) (c : Conn) (seg : Segment)
      → has_tx_seg c ≡ true
      → is_fault (fin_seg lib next c seg) ≡ false
  unfolding fin_seg
  fin_seg-is_fault next c seg h = ground arith

  established_ack-is_fault :
      (c : Conn) (seg : Segment)
      → has_tx_seg c ≡ true
      → is_fault (established_ack lib c seg) ≡ false
  unfolding established_ack
  established_ack-is_fault c seg h = ground arith

  established_seg-is_fault :
      (c : Conn) (seg : Segment)
      → has_tx_seg c ≡ true
      → is_fault (established_seg lib c seg) ≡ false
  unfolding established_seg
  established_seg-is_fault c seg h = ground (
    arith,
    tx_seg-process_received_seq c seg,
    established_ack-is_fault (process_received_seq c seg).0 seg,
  )

  pending-is_fault :
      (s : State) (o : Option Conn)
      → is_fault o ≡ false
      → is_fault (map_conn (fin_pending lib s) o) ≡ false
  pending-is_fault s o h = ground arith

  handle-is_fault :
      (s : State) (c : Conn) (seg : Option Segment)
      → (reads_tx_seg s && not (has_tx_seg c)) ≡ false
      → is_fault (handle lib s c seg) ≡ false
  unfolding handle
  handle-is_fault established c (some seg) h = established_seg-is_fault c seg (ground arith)
  handle-is_fault fin_wait_1 c (some seg) h =
      pending-is_fault fin_wait_1 (fin_seg lib fin_wait_2 c seg)
        (fin_seg-is_fault fin_wait_2 c seg (ground arith))
  handle-is_fault last_ack c (some seg) h =
      pending-is_fault last_ack (fin_seg lib closed c seg)
        (fin_seg-is_fault closed c seg (ground arith))
  handle-is_fault _ c (some seg) h = ground arith
  handle-is_fault _ c none h = ground arith

  -- A queued segment is handled without a fault wherever the connection has an outstanding
  -- segment, and in each state but ESTABLISHED, FIN-WAIT-1 and LAST-ACK also where it has none.
  pub tcp_received-is_fault :
      (c : Conn)
      → (reads_tx_seg c.tcp.state && not (has_tx_seg c)) ≡ false
      → is_fault (tcp_received lib c) ≡ false
  unfolding tcp_received
  tcp_received-is_fault c h =
      let (seg, q) = lib.list_dequeue Segment c.tcp.rx_segs in
      let queued = record c { tcp = record c.tcp { rx_segs = q } } in
      ground (arith, handle-is_fault c.tcp.state queued seg)
