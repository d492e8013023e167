-- ===== src/Tcp/Handlers.antt =====
-- Where each handler of a segment can leave the state.
use dts_net.Base.{◌≡◌, arith, some, ◌⊎◌}
use dts_net.Tcp.Defs.{ListLib, Segment, Conn, State, listen, syn_received, established, closed}
use dts_net.Tcp.Defs.{close_wait, time_wait}
use dts_net.Tcp.Receive.{
  listen_seg, syn_sent_accept, syn_sent_seg, syn_received_ack, syn_received_seg,
}
use dts_net.Tcp.Receive.{
  established_text, established_ack, established_seg, fin_seg, fin_wait_2_seg,
}
use dts_net.Tcp.Receive.{fin_again_seg, process_received_seq}
use dts_net.Tcp.Send.{tcp_handle_ack_of_data}
use dts_net.Tcp.Events.{fin_pending}
use dts_net.Tcp.Frame.{state-send_ctrl_seg, state-tx_seg_complete, state-ack_of_fin_ack}
use dts_net.Tcp.Frame.{state-process_received_seq, state-handle_fin_ack, state-ack_of_data}
use dts_net.Tcp.Frame.{state-contruct_fin_ack, state-handle_data}

module _ (lib : ListLib) (c : Conn) (seg : Segment) where
  pub listen_seg-state :
      ((listen_seg lib c seg).tcp.state ≡ c.tcp.state)
      ⊎ ((listen_seg lib c seg).tcp.state ≡ syn_received)
  unfolding listen_seg
  listen_seg-state = grind (arith, state-send_ctrl_seg)

  syn_sent_accept-state :
      ((syn_sent_accept lib c seg).tcp.state ≡ c.tcp.state)
      ⊎ ((syn_sent_accept lib c seg).tcp.state ≡ established)
      ⊎ ((syn_sent_accept lib c seg).tcp.state ≡ closed)
  unfolding syn_sent_accept
  syn_sent_accept-state = grind (arith, state-send_ctrl_seg, state-tx_seg_complete)

  pub syn_sent_seg-state :
      ((syn_sent_seg lib c seg).tcp.state ≡ c.tcp.state)
      ⊎ ((syn_sent_seg lib c seg).tcp.state ≡ established)
      ⊎ ((syn_sent_seg lib c seg).tcp.state ≡ closed)
  unfolding syn_sent_seg
  syn_sent_seg-state = grind (arith, state-send_ctrl_seg, syn_sent_accept-state)

  pub fin_seg-state :
      (next : State) {c' : Conn}
      → fin_seg lib next c seg ≡ some c'
      → (c'.tcp.state ≡ c.tcp.state) ⊎ (c'.tcp.state ≡ next)
  unfolding fin_seg
  fin_seg-state next h = ground (arith, state-ack_of_fin_ack c seg, state-ack_of_data lib c seg)

  pub fin_wait_2_seg-state :
      ((fin_wait_2_seg lib c seg).tcp.state ≡ c.tcp.state)
      ⊎ ((fin_wait_2_seg lib c seg).tcp.state ≡ time_wait)
  unfolding fin_wait_2_seg
  fin_wait_2_seg-state = grind (arith, state-handle_fin_ack)

  pub fin_again_seg-state : (fin_again_seg lib c seg).tcp.state ≡ c.tcp.state
  unfolding fin_again_seg
  fin_again_seg-state = grind (arith, state-handle_fin_ack)

module _ (lib : ListLib) where
  syn_received_ack-state :
      (c : Conn) (seg : Segment)
      → ((syn_received_ack lib c seg).tcp.state ≡ c.tcp.state)
        ⊎ ((syn_received_ack lib c seg).tcp.state ≡ established)
        ⊎ ((syn_received_ack lib c seg).tcp.state ≡ close_wait)
  unfolding syn_received_ack
  syn_received_ack-state c seg = grind (arith, state-send_ctrl_seg)

  pub syn_received_seg-state :
      (c : Conn) (seg : Segment)
      → ((syn_received_seg lib c seg).tcp.state ≡ c.tcp.state)
        ⊎ ((syn_received_seg lib c seg).tcp.state ≡ established)
        ⊎ ((syn_received_seg lib c seg).tcp.state ≡ close_wait)
        ⊎ ((syn_received_seg lib c seg).tcp.state ≡ listen)
        ⊎ ((syn_received_seg lib c seg).tcp.state ≡ closed)
  unfolding syn_received_seg
  syn_received_seg-state c seg = grind (arith, state-process_received_seq, syn_received_ack-state)

  pub fin_pending-state : (s : State) (c : Conn) → (fin_pending lib s c).tcp.state ≡ c.tcp.state
  unfolding fin_pending
  fin_pending-state s c = grind (arith, state-contruct_fin_ack)

  established_text-state :
      (c : Conn) (seg : Segment)
      → ((established_text lib c seg).tcp.state ≡ c.tcp.state)
        ⊎ ((established_text lib c seg).tcp.state ≡ close_wait)
  unfolding established_text
  established_text-state c seg = ground (arith, state-handle_data lib c seg)

  established_ack-state :
      (c : Conn) (seg : Segment) {c' : Conn}
      → established_ack lib c seg ≡ some c'
      → (c'.tcp.state ≡ c.tcp.state) ⊎ (c'.tcp.state ≡ close_wait)
  unfolding established_ack
  established_ack-state c seg h = ground (
    arith,
    state-ack_of_data lib c seg,
    established_text-state c seg,
    established_text-state (tcp_handle_ack_of_data lib c seg).0 seg,
  )

  pub established_seg-state :
      (c : Conn) (seg : Segment) {c' : Conn}
      → established_seg lib c seg ≡ some c'
      → (c'.tcp.state ≡ c.tcp.state) ⊎ (c'.tcp.state ≡ close_wait)
  unfolding established_seg
  established_seg-state c seg {c'} h = ground (
    arith,
    state-process_received_seq c seg,
    established_ack-state (process_received_seq c seg).0 seg {c' = c'},
  )
