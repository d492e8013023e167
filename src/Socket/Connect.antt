-- ===== src/Socket/Connect.antt =====
-- `connect` opens a connection, or finds the ports of its tries taken.
use dts_net.Base.{
  ℕ, zero, suc, ◌≡◌, ◌≤◌, ◌<◌, refl, sym, ap, ◌∙◌, arith, Bool, true, false, Option, none, some,
  List, [], ◌∷◌, length, drop, get_or,
}
use dts_net.Base.{Bool-cases, inl, inr, ◌⊎◌, bit_and-le}
use dts_net.Ip.{Ip, IpAddr}
use dts_net.EtherArp.{FindLib, Nif, ip_find_netif}
use dts_net.Tcp.{ListLib, Tcp, Table, port_in_use, tcp_open}
use dts_net.Tcp.Open.{IsOpened, tcp_open-IsOpened}
use dts_net.Inet.{htons}
use dts_net.Socket.Defs.{Socket, Answer, value, errno, is_tcp_sock, put, nacv}
use dts_net.Socket.Stream.{Streams, local_port, store_opened, next_try, connect_tries, connect}
use dts_net.Socket.Accept.{item-put_self}

-- A connection to `port` of `dest` was opened from a port of its own, and the socket points to it.
pub record IsConnected (ip : Ip) (dest : IpAddr) (port fd : ℕ) (tb : Table) (w : Streams)
    : Type 0 where
  pub points : (w.sockets.item fd).tcp ≡ some (length tb.tcps)
  pub own_port : ℕ
  pub unprivileged : 1024 ≤ own_port
  pub in_16_bits : own_port ≤ 65535
  pub opened : (t : Tcp) × IsOpened (some dest) ip own_port port tb w.table t

-- The pointer of the socket after tries that failed.
abbrev pub cleared : ℕ → Option ℕ → Option ℕ
cleared zero before = before
cleared (suc tries) before = none

-- Every one of `tries` found an active connection on its port and nothing was opened; the first one
-- has cleared the socket's pointer.
pub record IsCrowded (lib : ListLib) (ip : Ip) (rand : List ℕ) (tries fd : ℕ) (before : Option ℕ)
    (tb : Table) (w : Streams) : Type 0 where
  pub pointer : (w.sockets.item fd).tcp ≡ cleared tries before
  pub same_table : w.table ≡ tb
  pub taken : (i : ℕ) → i < tries → port_in_use lib tb.tcps ip (local_port (get_or rand i 0)) ≡ true

cleared-none : (tries : ℕ) {before : Option ℕ} → before ≡ none → cleared tries before ≡ none
cleared-none zero e = e
cleared-none (suc tries) e = refl

get_or-drop_one : (rand : List ℕ) (i : ℕ) → get_or (drop 1 rand) i 0 ≡ get_or rand (suc i) 0
get_or-drop_one [] i = refl
get_or-drop_one (x ∷ rand) i = refl

-- The first try and the others.
taken_before :
    (lib : ListLib) (ip : Ip) (tb : Table) (rand : List ℕ) (tries : ℕ)
    → port_in_use lib tb.tcps ip (local_port (get_or rand 0 0)) ≡ true
    → ((i : ℕ)
        → i < tries
        → port_in_use lib tb.tcps ip (local_port (get_or (drop 1 rand) i 0)) ≡ true)
    → (i : ℕ) → i < suc tries
    → port_in_use lib tb.tcps ip (local_port (get_or rand i 0)) ≡ true
taken_before lib ip tb rand tries now later zero l = now
taken_before lib ip tb rand tries now later (suc i) l =
    ap (λ r. port_in_use lib tb.tcps ip (local_port r)) (sym (get_or-drop_one rand i))
    ∙ later i (omega arith)

module _ (lib : ListLib) (flib : FindLib) (nifs : List Nif) (bound ip : Ip) (dest : IpAddr)
    (port fd : ℕ) (found : ip_find_netif flib nifs bound.addr ≡ some ip) where
  -- A try as what `tcp_open` gives on the interface that was found.
  one_try :
      (tries : ℕ) (rand : List ℕ) (w : Streams) (opened : Table × Bool)
      → tcp_open lib w.table (some ip) (local_port (get_or rand 0 0)) (some dest) port ≡ some opened
      → connect_tries lib flib nifs (suc tries) rand bound dest port fd w
        ≡ next_try
            (connect_tries lib flib nifs tries (drop 1 rand) bound dest port fd)
            (store_opened w fd (some opened))
  unfolding connect_tries
  one_try tries rand w opened e =
      let next : Option (Table × Bool) → Option (Streams × Answer) = λ o.
        next_try (connect_tries lib flib nifs tries (drop 1 rand) bound dest port fd)
          (store_opened w fd o) in
      ap (λ i. next (tcp_open lib w.table i (local_port (get_or rand 0 0)) (some dest) port)) found
      ∙ ap next e

  connect_tries-outcome :
      (tries : ℕ) (rand : List ℕ) (w : Streams)
      → ((n : ℕ) → w.table.net.heap.grant n ≡ true)
      → (w1 : Streams) × (a : Answer) × (connect_tries lib flib nifs tries rand bound dest port fd w
          ≡ some (w1, a))
        × (((a ≡ value 0) × IsConnected ip dest port fd w.table w1)
            ⊎ ((a ≡ errno 1) × IsCrowded lib ip rand tries fd (w.sockets.item fd).tcp w.table w1))
  unfolding connect_tries next_try store_opened local_port
  connect_tries-outcome zero rand w all = (
    w,
    errno 1,
    refl,
    inr (refl, record { pointer = refl; same_table = refl; taken = λ i l. absurd (omega arith) }),
  )
  connect_tries-outcome (suc tries) rand w all =
      let own = local_port (get_or rand 0 0) in
      elim (Bool-cases (port_in_use lib w.table.tcps ip own)) [
        | inl busy ↦
            (let w2 : Streams = record {
              sockets = put w.sockets fd (record (w.sockets.item fd) { tcp = none });
              table = w.table;
            } in
              let still_cleared : cleared tries (w2.sockets.item fd).tcp ≡ none =
                cleared-none tries (
                  ap (λ s. s.tcp)
                    (item-put_self w.sockets fd (record (w.sockets.item fd) { tcp = none }))) in
              let refused : tcp_open lib w.table (some ip) own (some dest) port
                  ≡ some (w.table, false) =
                unfold tcp_open in rw busy refl in
              let (w1, a, e, fate) = connect_tries-outcome tries (drop 1 rand) w2 all in
              (
                w1,
                a,
                one_try tries rand w (w.table, false) refused ∙ e,
                (elim fate [
                  | inl (ok, connected) ↦ inl (ok, connected)
                  | inr (failed, crowded) ↦ inr (
                    failed,
                    record {
                      pointer = crowded.pointer ∙ still_cleared;
                      same_table = crowded.same_table;
                      taken = taken_before lib ip w.table rand tries busy crowded.taken;
                    },
                  )
                ]),
              ))
        | inr unused ↦
            (let (tb1, e, opened) =
                tcp_open-IsOpened lib w.table ip own port all unused (some dest) in
              let sk : Socket = record (w.sockets.item fd) { tcp = some (length w.table.tcps) } in
              (
                record { sockets = put w.sockets fd sk; table = tb1 },
                value 0,
                one_try tries rand w (tb1, true) e,
                inl (
                  refl,
                  record {
                    points = ap (λ s. s.tcp) (item-put_self w.sockets fd sk);
                    own_port = own;
                    unprivileged = omega arith;
                    in_16_bits = omega (arith, bit_and-le (get_or rand 0 0) 0xfbff);
                    opened = opened;
                  },
                ),
              ))
      ]

module _ (lib : ListLib) (flib : FindLib) (nifs : List Nif) where
  -- For a TCP socket and a destination that an interface's network holds, where memory is granted,
  -- `connect` returns. Either the result is 0, and the socket points to a new connection in SYN-SENT,
  -- the last of `tcp_list`, to the destination's address and port from an own port between 1024 and
  -- 65535; or the result is -1, an active connection had the port of each of the three tries, and the
  -- connections are those from before, but the socket points to none, whatever it pointed to.
  pub connect-outcome :
      (rand : List ℕ) (s_addr sin_port fd : ℕ) (w : Streams) (bound ip : Ip)
      → is_tcp_sock (w.sockets.item fd) ≡ true
      → ip_find_netif flib nifs (nacv s_addr) ≡ some bound
      → ip_find_netif flib nifs bound.addr ≡ some ip
      → ((n : ℕ) → w.table.net.heap.grant n ≡ true)
      → (w1 : Streams) × (a : Answer) × (connect lib flib nifs rand s_addr sin_port fd w
          ≡ some (w1, a))
        × (((a ≡ value 0) × IsConnected ip (nacv s_addr) (htons sin_port) fd w.table w1)
            ⊎ ((a ≡ errno 1) × IsCrowded lib ip rand 3 fd (w.sockets.item fd).tcp w.table w1))
  unfolding connect
  connect-outcome rand s_addr sin_port fd w bound ip stream near found all =
      let (w1, a, e, fate) =
        connect_tries-outcome lib flib nifs bound ip (nacv s_addr) (htons sin_port) fd found 3 rand
          w all in
      (w1, a, rw (stream, near) e, fate)
