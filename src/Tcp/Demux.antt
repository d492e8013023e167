-- ===== src/Tcp/Demux.antt =====
-- Which connection of `tcp_list` a segment goes to, and which the loop keeps.
use dts_net.Base.{ℕ, ◌+◌, ◌≡◌, refl, arith, Bool, false, not, ◌&&◌, ◌||◌}
use dts_net.Base.{if◌then◌else◌, ◌==◌, List, [], ◌∷◌, Option, none, some, get_or, drop}
use dts_net.Dblk.{free}
use dts_net.Ip.{Ip, ip_addr_equals}
use dts_net.Tcp.Defs.{Segment, Tcp, Net}
use dts_net.Tcp.Connections.{is_bound, find_tcp, tcp_loop, loop_one, is_closed}

-- The match that ends the search: opened actively, or passive with the sender as its peer.
abbrev pub is_match : Ip → Segment → Tcp → Bool
is_match ip seg t =
    is_bound ip seg.dest_port t
    && (not t.passive || (ip_addr_equals t.dest seg.src && t.dest_port == seg.src_port))

-- The specification: the first match, or else the last connection that is bound.
abbrev pub first_match : Ip → Segment → List Tcp → ℕ → Option ℕ
first_match ip seg [] i = none
first_match ip seg (t ∷ ts) i =
    let rest = first_match ip seg ts (i + 1) in if is_match ip seg t then some i else rest

abbrev pub last_bound : Ip → Segment → List Tcp → ℕ → Option ℕ → Option ℕ
last_bound ip seg [] i best = best
last_bound ip seg (t ∷ ts) i best =
    last_bound ip seg ts (i + 1) (if is_bound ip seg.dest_port t then some i else best)

abbrev pub or_else : Option ℕ → Option ℕ → Option ℕ
or_else none o = o
or_else (some i) o = some i

-- A segment goes to the first connection that is bound to its address and port and was opened
-- actively or has the sender as its peer; where there is none, to the last one that is bound.
pub find_tcp-first_match :
    (ts : List Tcp) (ip : Ip) (seg : Segment) (i : ℕ) (best : Option ℕ)
    → find_tcp ts ip seg i best ≡ or_else (first_match ip seg ts i) (last_bound ip seg ts i best)
unfolding find_tcp
find_tcp-first_match [] ip seg i best = refl
find_tcp-first_match (t ∷ ts) ip seg i best =
    let best1 = if is_bound ip seg.dest_port t then some i else best in
    let rest = find_tcp-first_match ts ip seg (i + 1) best1 in ground (arith, rest)

abbrev pub has_closed : List Tcp → Bool
has_closed [] = false
has_closed (t ∷ ts) = is_closed t.state || has_closed ts

-- A round of the loop leaves no closed connection in the list.
pub tcp_loop-has_closed :
    (ts : List Tcp) (expired : List Bool) (net : Net)
    → has_closed (tcp_loop ts expired net).tcps ≡ false
unfolding tcp_loop
tcp_loop-has_closed [] expired net = refl
tcp_loop-has_closed (t ∷ ts) expired net =
    let c = loop_one (get_or expired 0 false) (record { tcp = t; net = net }) in
    let net1 = if is_closed c.tcp.state then record c.net { heap = free c.net.heap } else c.net in
    let rest = tcp_loop-has_closed ts (drop 1 expired) net1 in ground (arith, rest)
