-- ===== src/Tcp/Defs.antt =====
-- The types of include/dts_net_tcp.h, and what TCP uses of other code: the list library (external,
-- a parameter with its laws), the timer library (external: the last request to it is recorded, and
-- `timer_expired` is an input) and the IP layer (whether it takes a datagram is an input).
use dts_net.Base.{ℕ, ◌+◌, Bool, false, not, Option, none, some, List, [], ◌∷◌, ◌++◌, ◌≡◌}
use dts_net.Base.{bit_and, ◌==◌, if◌then◌else◌, length}
use dts_net.Dblk.{Chain, Node, Heap, dblk_size}
use dts_net.Ip.{Ip, IpAddr, IpDatagram}

-- dts/datastruct/list.h: a list is the sequence of its nodes.
pub record ListLib : Type 1 where
  pub list_enqueue : (A : Type 0) → List A → A → List A
  pub list_dequeue : (A : Type 0) → List A → Option A × List A
  pub list_length : (A : Type 0) → List A → ℕ
  pub enqueue_at_end : (A : Type 0) (q : List A) (x : A) → list_enqueue A q x ≡ q ++ x ∷ []
  pub dequeue_empty : (A : Type 0) → list_dequeue A [] ≡ (none, [])
  pub dequeue_front : (A : Type 0) (x : A) (q : List A) → list_dequeue A (x ∷ q) ≡ (some x, q)
  pub length_counts : (A : Type 0) (q : List A) → list_length A q ≡ length q

pub data State : Type 0 where
  listen syn_sent syn_received established fin_wait_1 fin_wait_2 time_wait close_wait last_ack :
      State
  closing closed : State

-- `tcp_segment_t`; NULL blocks are empty chains. `src` is `datagram->header.src`.
pub record Segment : Type 0 where
  pub src_port : ℕ
  pub dest_port : ℕ
  pub seq : ℕ
  pub ack : ℕ
  pub data_offset : ℕ
  pub flags : ℕ
  pub win : ℕ
  pub checksum : ℕ
  pub urgent_ptr : ℕ
  pub options : Chain
  pub payload : Chain
  pub raw_data : Chain
  pub src : IpAddr

-- The last request made of a timer.
pub data Timer : Type 0 where
  inited stopped : Timer
  started : ℕ → Timer

pub record Snd : Type 0 where
  pub una : ℕ
  pub nxt : ℕ
  pub iss : ℕ

pub record Rcv : Type 0 where
  pub nxt : ℕ
  pub irs : ℕ
  pub wnd : ℕ

-- `tcp_t`
pub record Tcp : Type 0 where
  pub passive : Bool
  pub dest : IpAddr
  pub dest_port : ℕ
  pub localhost : Ip
  pub port : ℕ
  pub state : State
  pub rx_segs : List Segment
  pub tx_data : List Node
  pub rx_data : List Node
  pub tx_seg : Option Segment
  pub snd : Snd
  pub rcv : Rcv
  pub tmr : Timer
  pub time_wait_seconds : ℕ

-- What surrounds TCP: the heap, the datagrams handed to `ip_hl_send` (the last one at the end),
-- whether it takes the n-th of them, and the time of `sys_tick_s`.
pub record Net : Type 0 where
  pub heap : Heap
  pub sent : List IpDatagram
  pub accept : ℕ → Bool
  pub tick_s : ℕ

-- A connection and what surrounds it. A function that may read through NULL returns an `Option`,
-- and `none` is that fault.
pub record Conn : Type 0 where
  pub tcp : Tcp
  pub net : Net

abbrev pub seg_flag_urg : ℕ
seg_flag_urg = 32

abbrev pub seg_flag_ack : ℕ
seg_flag_ack = 16

abbrev pub seg_flag_rst : ℕ
seg_flag_rst = 4

abbrev pub seg_flag_syn : ℕ
seg_flag_syn = 2

abbrev pub seg_flag_fin : ℕ
seg_flag_fin = 1

-- `SEG_CTRL_A`, `SEG_CTRL_S`, `SEG_CTRL_R`, `SEG_CTRL_F`
unfoldable pub seg_ctrl_a : Segment → Bool
seg_ctrl_a seg = not (bit_and seg.flags seg_flag_ack == 0)

unfoldable pub seg_ctrl_s : Segment → Bool
seg_ctrl_s seg = not (bit_and seg.flags seg_flag_syn == 0)

unfoldable pub seg_ctrl_r : Segment → Bool
seg_ctrl_r seg = not (bit_and seg.flags seg_flag_rst == 0)

unfoldable pub seg_ctrl_f : Segment → Bool
seg_ctrl_f seg = not (bit_and seg.flags seg_flag_fin == 0)

-- `SEG_CTRL_AF`
unfoldable pub seg_ctrl_af : Segment → Bool
seg_ctrl_af seg = if seg_ctrl_f seg then seg_ctrl_a seg else false

unfoldable pub tcp_segment_length : Segment → ℕ
tcp_segment_length seg =
    (if seg_ctrl_s seg then 1 else 0) + dblk_size seg.payload + (if seg_ctrl_f seg then 1 else 0)
