-- ===== src/Tcp/Frame.antt =====
-- What each step of dts_net_tcp.c leaves alone: the state above all.
use dts_net.Base.{ℕ, ◌≡◌, refl, arith, ap, ◌∙◌}
use dts_net.Base.{Bool-cases, inl, inr, if◌then◌else◌}
use dts_net.Tcp.Defs.{ListLib, Segment, Conn}
use dts_net.Tcp.Send.{
  tcp_ip_send, ctrl_seg, tcp_send_ctrl_seg, tcp_tx_seg_complete, advance, tcp_retransmit,
}
use dts_net.Tcp.Send.{tcp_construct_data, tcp_handle_ack_of_data, tcp_contruct_fin_ack}
use dts_net.Tcp.Send.{tcp_handle_ack_of_fin_ack}
use dts_net.Tcp.Receive.{
  seg_unacceptable, process_received_seq, tcp_handle_fin_ack, tcp_handle_data,
}

-- A control segment changes nothing of the connection but `snd.nxt`, and that only when it went
-- out.
module _ (c : Conn) (seq ack flags : ℕ) where
  pub tcp-send_ctrl_seg : (tcp_send_ctrl_seg c seq ack flags).0.tcp ≡ (
      if (tcp_send_ctrl_seg c seq ack flags).1
      then advance (ctrl_seg c.tcp c.net.heap.junk seq ack flags) c.tcp
      else c.tcp)
  unfolding tcp_send_ctrl_seg
  tcp-send_ctrl_seg =
      elim (Bool-cases (tcp_ip_send c.tcp (ctrl_seg c.tcp c.net.heap.junk seq ack flags) c.net).1) [
        | inl went ↦ rw went
        | inr refused ↦ rw refused
      ]

  pub state-send_ctrl_seg : (tcp_send_ctrl_seg c seq ack flags).0.tcp.state ≡ c.tcp.state
  state-send_ctrl_seg = elim (Bool-cases (tcp_send_ctrl_seg c seq ack flags).1) [
    | inl went ↦ ap (λ t. t.state) tcp-send_ctrl_seg ∙ (rw went)
    | inr refused ↦ ap (λ t. t.state) tcp-send_ctrl_seg ∙ (rw refused)
  ]

pub state-tx_seg_complete : (c : Conn) → (tcp_tx_seg_complete c).tcp.state ≡ c.tcp.state
unfolding tcp_tx_seg_complete
state-tx_seg_complete c = ground arith

pub state-retransmit : (c : Conn) → (tcp_retransmit c).tcp.state ≡ c.tcp.state
unfolding tcp_retransmit
state-retransmit c = refl

pub state-ack_of_fin_ack :
    (c : Conn) (seg : Segment) → (tcp_handle_ack_of_fin_ack c seg).0.tcp.state ≡ c.tcp.state
unfolding tcp_handle_ack_of_fin_ack
state-ack_of_fin_ack c seg = ground (arith, state-tx_seg_complete c)

pub state-unacceptable :
    (c : Conn) (seg : Segment) → (seg_unacceptable c seg).tcp.state ≡ c.tcp.state
unfolding seg_unacceptable
state-unacceptable c seg = ground (arith, state-send_ctrl_seg c c.tcp.snd.nxt c.tcp.rcv.nxt 16)

pub state-process_received_seq :
    (c : Conn) (seg : Segment) → (process_received_seq c seg).0.tcp.state ≡ c.tcp.state
unfolding process_received_seq
state-process_received_seq c seg = ground (arith, state-unacceptable c seg)

pub state-handle_fin_ack :
    (c : Conn) (seg : Segment) → (tcp_handle_fin_ack c seg).0.tcp.state ≡ c.tcp.state
unfolding tcp_handle_fin_ack
state-handle_fin_ack c seg = grind (arith, state-send_ctrl_seg)

module _ (lib : ListLib) where
  pub state-construct_data : (c : Conn) → (tcp_construct_data lib c).tcp.state ≡ c.tcp.state
  unfolding tcp_construct_data
  state-construct_data c = grind arith

  pub state-ack_of_data :
      (c : Conn) (seg : Segment) → (tcp_handle_ack_of_data lib c seg).0.tcp.state ≡ c.tcp.state
  unfolding tcp_handle_ack_of_data
  state-ack_of_data c seg = grind (arith, state-construct_data, state-tx_seg_complete)

  pub state-contruct_fin_ack : (c : Conn) → (tcp_contruct_fin_ack lib c).tcp.state ≡ c.tcp.state
  unfolding tcp_contruct_fin_ack
  state-contruct_fin_ack c = ground arith

  pub state-handle_data :
      (c : Conn) (seg : Segment) → (tcp_handle_data lib c seg).0.tcp.state ≡ c.tcp.state
  unfolding tcp_handle_data
  state-handle_data c seg = grind (arith, state-send_ctrl_seg)
