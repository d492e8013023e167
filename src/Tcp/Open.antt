-- ===== src/Tcp/Open.antt =====
-- What `tcp_open` adds to `tcp_list`.
use dts_net.Base.{ℕ, ◌%◌, ◌^◌, ◌≡◌, refl, ◌∙◌, true, false, Option, none, some, [], ◌∷◌, ◌++◌}
use dts_net.Base.{if◌then◌else◌, Bool-cases, inl, inr}
use dts_net.Dblk.{malloc}
use dts_net.Ip.{Ip, IpAddr}
use dts_net.Tcp.Defs.{ListLib, Tcp, Conn, State, listen, syn_sent}
use dts_net.Tcp.Send.{tcp_retransmit, zero_addr}
use dts_net.Tcp.Events.{open_when_closed}
use dts_net.Tcp.Connections.{Table, port_in_use, new_tcp, tcp_open}

abbrev state_of_open : Option IpAddr → State
state_of_open none = listen
state_of_open (some d) = syn_sent

abbrev peer_of_open : Option IpAddr → IpAddr
peer_of_open none = zero_addr
peer_of_open (some d) = d

-- A connection was opened: the last of the list, in LISTEN without a peer and in SYN-SENT with one.
pub record IsOpened (dest : Option IpAddr) (ip : Ip) (port dest_port : ℕ) (tb tb1 : Table) (t : Tcp)
    : Type 0 where
  pub last : tb1.tcps ≡ tb.tcps ++ (t ∷ [])
  pub in_state : t.state ≡ state_of_open dest
  pub on_port : t.port ≡ port
  pub on_interface : t.localhost ≡ ip
  pub to_peer : t.dest ≡ peer_of_open dest
  pub to_port : t.dest_port ≡ dest_port % 2 ^ 16

-- Where memory is granted, `open_when_closed` changes the state and nothing of the addresses.
module _ (c : Conn) (all : (n : ℕ) → c.net.heap.grant n ≡ true) where
  open_when_closed-state :
      (c1 : Conn) × (open_when_closed c ≡ some c1)
      × (c1.tcp.state ≡ (if c.tcp.passive then listen else syn_sent))
      × (c1.tcp.port ≡ c.tcp.port)
      × (c1.tcp.localhost ≡ c.tcp.localhost)
      × (c1.tcp.dest ≡ c.tcp.dest)
      × (c1.tcp.dest_port ≡ c.tcp.dest_port)
  unfolding open_when_closed tcp_retransmit
  open_when_closed-state =
      let got : (malloc c.net.heap).0 ≡ true = unfold malloc in rw all in
      elim (Bool-cases c.tcp.passive) [
        | inl yes_passive ↦ rw yes_passive (_, refl, refl, refl, refl, refl, refl)
        | inr no_passive ↦ rw (no_passive, got) (_, refl, refl, refl, refl, refl, refl)
      ]

module _ (lib : ListLib) (tb : Table) (ip : Ip) (port dest_port : ℕ)
    (all : (n : ℕ) → tb.net.heap.grant n ≡ true)
    (unused : port_in_use lib tb.tcps ip port ≡ false) where
  state_of_new :
      (dest : Option IpAddr)
      → (if (new_tcp lib ip port dest dest_port).passive then listen else syn_sent)
        ≡ state_of_open dest
  state_of_new none = refl
  state_of_new (some d) = refl

  peer_of_new :
      (dest : Option IpAddr) → (new_tcp lib ip port dest dest_port).dest ≡ peer_of_open dest
  peer_of_new none = refl
  peer_of_new (some d) = refl

  -- Where memory is granted and no active connection has the port, `tcp_open` adds one.
  pub tcp_open-IsOpened :
      (dest : Option IpAddr)
      → (tb1 : Table) × (tcp_open lib tb (some ip) port dest dest_port ≡ some (tb1, true))
        × ((t : Tcp) × IsOpened dest ip port dest_port tb tb1 t)
  unfolding tcp_open
  tcp_open-IsOpened dest =
      let got : (malloc tb.net.heap).0 ≡ true = unfold malloc in rw all in
      let c : Conn = record {
        tcp = new_tcp lib ip port dest dest_port;
        net = record tb.net { heap = (malloc tb.net.heap).1 };
      } in
      let still : (n : ℕ) → c.net.heap.grant n ≡ true =
        λ n. unfold malloc in rw (all tb.net.heap.asked) (all n) in
      let (c1, e, in_state, on_port, on_interface, to, to_port) = open_when_closed-state c still in
      let tb1 : Table = record { tcps = lib.list_enqueue Tcp tb.tcps c1.tcp; net = c1.net } in
      (
        tb1,
        rw (unused, got, e) refl,
        (
          c1.tcp,
          record {
            last = lib.enqueue_at_end Tcp tb.tcps c1.tcp;
            in_state = in_state ∙ state_of_new dest;
            on_port = on_port;
            on_interface = on_interface;
            to_peer = to ∙ peer_of_new dest;
            to_port = to_port;
          },
        ),
      )
