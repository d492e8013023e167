-- ===== src/Tcp/Events.antt =====
-- The events of a connection, dispatched on its state: segment arrival, open, timeout, close, and
-- the user's send and receive.
use dts_net.Base.{
  ℕ, zero, suc, ◌+◌, ◌-◌, ◌%◌, ◌^◌, Bool, true, false, Option, none, some, List, [], ◌∷◌,
}
use dts_net.Base.{if◌then◌else◌, ltb}
use dts_net.Endian.{Buffer}
use dts_net.Dblk.{Chain, Node, Heap, malloc, dblk_node_new_with_buff, dblk_copy_from, dblk_read}
use dts_net.Dblk.{dblk_delete}
use dts_net.Tcp.Defs.{ListLib, Segment, Conn, Snd}
use dts_net.Tcp.Defs.{State, listen, syn_sent, syn_received, established, fin_wait_1, fin_wait_2}
use dts_net.Tcp.Defs.{time_wait, close_wait, last_ack, closing, closed, seg_flag_syn}
use dts_net.Tcp.Send.{segment_of, pack_for, advance, node_chain, tcp_retransmit}
use dts_net.Tcp.Send.{tcp_construct_data, tcp_contruct_fin_ack}
use dts_net.Tcp.Receive.{set_state, listen_seg, syn_sent_seg, syn_received_seg, established_seg}
use dts_net.Tcp.Receive.{enqueue_block, fin_seg, fin_wait_2_seg, fin_again_seg}

abbrev pub map_conn : (Conn → Conn) → Option Conn → Option Conn
map_conn f none = none
map_conn f (some c) = some (f c)

-- OPEN: the active side prepares a SYN, sends it and waits; its allocation is not tested, and
-- `none` is the write through NULL.
unfoldable pub open_when_closed : Conn → Option Conn
open_when_closed c =
    let isn = c.net.tick_s % 2 ^ 32 in
    let snd1 : Snd = record { una = isn; nxt = isn; iss = isn } in
    let tcp1 = record c.tcp { snd = snd1; time_wait_seconds = 120 } in
    let (got, h1) = malloc c.net.heap in
    let (raw, h2) = dblk_node_new_with_buff 32 h1 in
    let packed = pack_for tcp1 (segment_of tcp1 isn 0 seg_flag_syn [] (node_chain raw)) in
    let tcp2 = advance packed (record tcp1 { tx_seg = some packed }) in
    let c2 : Conn = record { tcp = tcp2; net = record c.net { heap = h2 } } in
    let active = if got then some (set_state syn_sent (tcp_retransmit c2)) else none in
    if c.tcp.passive then some (record c { tcp = record tcp1 { state = listen } }) else active

-- `timeout_event_process`
timeout_in : State → Conn → Conn
timeout_in syn_sent c = tcp_retransmit c
timeout_in fin_wait_1 c = tcp_retransmit c
timeout_in time_wait c = set_state closed c
timeout_in last_ack c = tcp_retransmit c
timeout_in established c = tcp_retransmit c
timeout_in _ c = c

unfoldable pub tcp_timeout : Conn → Conn
unfolding timeout_in
tcp_timeout c = timeout_in c.tcp.state c

-- States with no handler leave the segment queued.
abbrev pub has_handler : State → Bool
has_handler closing = false
has_handler closed = false
has_handler _ = true

abbrev is_state : State → State → Bool
is_state fin_wait_1 fin_wait_1 = true
is_state last_ack last_ack = true
is_state _ _ = false

-- Of the loop of `tcp_recv`: the queue, the heap, the user's memory, and how many bytes.
abbrev pub Received : Type 0
Received = List Node × Heap × Buffer × ℕ

abbrev pub after_loop : Conn → Option Received → Option (Conn × Buffer × ℕ)
after_loop c none = none
after_loop c (some (q, h, mem, n)) =
    some (record { tcp = record c.tcp { rx_data = q }; net = record c.net { heap = h } }, mem, n)

module _ (lib : ListLib) where
  open lib use {list_enqueue, list_dequeue, list_length}

  -- What FIN-WAIT-1 and LAST-ACK do behind the segment: in the same state still, they prepare the
  -- FIN.
  unfoldable pub fin_pending : State → Conn → Conn
  fin_pending s c = if is_state s c.tcp.state then tcp_contruct_fin_ack lib c else c

  -- The handler of each state, for the segment that the queue gave, if it gave one.
  unfoldable pub handle : State → Conn → Option Segment → Option Conn
  handle listen c (some seg) = some (listen_seg lib c seg)
  handle syn_sent c (some seg) = some (syn_sent_seg lib c seg)
  handle syn_received c (some seg) = some (syn_received_seg lib c seg)
  handle established c (some seg) = established_seg lib c seg
  handle fin_wait_1 c (some seg) = map_conn (fin_pending fin_wait_1) (fin_seg lib fin_wait_2 c seg)
  handle fin_wait_2 c (some seg) = some (fin_wait_2_seg lib c seg)
  handle time_wait c (some seg) = some (fin_again_seg lib c seg)
  handle close_wait c (some seg) = some (fin_again_seg lib c seg)
  handle last_ack c (some seg) = map_conn (fin_pending last_ack) (fin_seg lib closed c seg)
  handle closing c (some seg) = some c
  handle closed c (some seg) = some c
  handle fin_wait_1 c none = some (fin_pending fin_wait_1 c)
  handle last_ack c none = some (fin_pending last_ack c)
  handle _ c none = some c

  -- `tcp_received`: `received_event_process[tcp->state]`
  unfoldable pub tcp_received : Conn → Option Conn
  tcp_received c =
      let (seg, q) = list_dequeue Segment c.tcp.rx_segs in
      if has_handler c.tcp.state
      then handle c.tcp.state (record c { tcp = record c.tcp { rx_segs = q } }) seg
      else some c

  -- The end of `tcp_ip_recv` for the connection that it found: the segment is queued and handled.
  unfoldable pub deliver : Conn → Segment → Option Conn
  deliver c seg =
      tcp_received
        (record c { tcp = record c.tcp { rx_segs = list_enqueue Segment c.tcp.rx_segs seg } })

  -- `tcp_close` of a connection in `tcp_list`; only two states have a handler.
  close_in : State → Conn → Conn
  close_in established c = set_state fin_wait_1 (tcp_contruct_fin_ack lib c)
  close_in close_wait c = set_state last_ack (tcp_contruct_fin_ack lib c)
  close_in _ c = c

  unfoldable pub tcp_close : Conn → Conn
  unfolding close_in
  tcp_close c = close_in c.tcp.state c

  -- `send_when_established`; the flat buffer `bytes` has `size` bytes.
  queue_tx : Conn → Buffer → ℕ → Option Node × Heap → Conn × ℕ
  queue_tx c bytes size (none, h) = (record c { net = record c.net { heap = h } }, 0)
  queue_tx c bytes size (some tx, h) =
      let filled = (dblk_copy_from (tx ∷ []) bytes size).0 in
      (
        record {
          tcp = record c.tcp { tx_data = enqueue_block lib c.tcp.tx_data filled };
          net = record c.net { heap = h };
        },
        size,
      )

  unfoldable pub send_when_established : Conn → Buffer → ℕ → Conn × ℕ
  unfolding queue_tx
  send_when_established c bytes size =
      let (c1, n) = queue_tx c bytes size (dblk_node_new_with_buff size c.net.heap) in
      (tcp_construct_data lib c1, n)

  -- `tcp_send`
  unfoldable pub tcp_send : Conn → Buffer → ℕ → Conn × ℕ
  tcp_send c bytes size = elim c.tcp.state as (λ _. Conn × ℕ) [
    | established ↦ send_when_established c bytes size
    | _ ↦ (c, 0)
  ]

  abbrev pub head_of : Chain → List Node → List Node
  head_of [] rest = rest
  head_of (rx ∷ _) rest = rx ∷ rest

  -- The loop of `recv_when_established` in at most `fuel` rounds: the queue, the heap, the user's
  -- memory, which does not move on from block to block, and the number of bytes done. `none` is out
  -- of rounds.
  unfoldable pub recv_round :
      (List Node → Heap → Buffer → ℕ → Option Received)
      → Option Node × List Node
      → Heap
      → Buffer
      → ℕ
      → ℕ
      → Option Received
  recv_round again (none, q) h mem size done = some (q, h, mem, done)
  recv_round again (some rx, q) h mem size done =
      let (read, mem1, n) = dblk_read (rx ∷ []) mem (size - done) in
      let h1 = (dblk_delete read h).1 in
      if ltb n (size - done)
      then again q h1 mem1 (done + n)
      else again (head_of read q) h mem1 (done + n)

  unfoldable pub recv_loop : ℕ → List Node → Heap → Buffer → ℕ → ℕ → Option Received
  unfolding recv_round
  recv_loop zero q h mem size done = none
  recv_loop (suc fuel) q h mem size done =
      let round =
        recv_round (λ q1 h1 m1 d1. recv_loop fuel q1 h1 m1 size d1) (list_dequeue Node q) h mem size
          done in
      if ltb 0 (list_length Node q)
      then (if ltb done size then round else some (q, h, mem, done))
      else some (q, h, mem, done)

  -- `tcp_recv`: what the user gets in `mem`, and how many bytes. A round takes a block off the
  -- queue or is the last, and one more sees that it was: `none` is out of rounds.
  unfoldable pub tcp_recv : Conn → Buffer → ℕ → Option (Conn × Buffer × ℕ)
  unfolding recv_loop
  tcp_recv c mem size =
      let fuel = suc (list_length Node c.tcp.rx_data) in
      let received = after_loop c (recv_loop fuel c.tcp.rx_data c.net.heap mem size 0) in
      elim c.tcp.state as (λ _. Option (Conn × Buffer × ℕ)) [
        | established ↦ received
        | _ ↦ some (c, mem, 0)
      ]
