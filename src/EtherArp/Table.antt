-- ===== src/EtherArp/Table.antt =====
-- `arp_table` and `nif_list`: finding, learning, and who answers.
use dts_net.Base.{ℕ, zero, suc, ◌+◌, ◌-◌, Bool, Option, none, some, List, [], ◌∷◌}
use dts_net.Base.{if◌then◌else◌, ltb, ◌==◌, take, length}
use dts_net.Endian.{Buffer}
use dts_net.Arp.{ArpPacket}
use dts_net.Ip.{Ip, IpAddr, au32, ip_addr_equals, ip_addr_same_lan}
use dts_net.EtherArp.Defs.{FindLib, Ether, Nif, ArpItem}

-- `list_match_arpti`
abbrev pub matches : Buffer → ArpItem → Bool
matches ip item = au32 item.ip == au32 ip

-- What the timers say when a packet arrives: whether an item's has expired, and what remains of it.
pub record Clock : Type 0 where
  pub expired : ArpItem → Bool
  pub remain : ArpItem → ℕ

-- The items whose timer runs, and how many of the others `list_foreach_remove` takes out.
unfoldable pub unexpired : Clock → List ArpItem → List ArpItem
unexpired clock [] = []
unexpired clock (i ∷ is) =
    let rest = unexpired clock is in if clock.expired i then rest else i ∷ rest

-- The first of the items with the least time left; `best` is the one found so far.
unfoldable pub shortest : Clock → List ArpItem → Option ArpItem → Option ArpItem
shortest clock [] best = best
shortest clock (i ∷ is) none = shortest clock is (some i)
shortest clock (i ∷ is) (some b) =
    shortest clock is (some (if ltb (clock.remain i) (clock.remain b) then i else b))

-- `list_remove` of the item whose timer this is; an item is one object, and so is its timer.
unfoldable pub remove_item : ℕ → List ArpItem → List ArpItem
remove_item t [] = []
remove_item t (i ∷ is) = let rest = remove_item t is in if i.timer == t then is else i ∷ rest

abbrev pub remove_shortest : Option ArpItem → List ArpItem → List ArpItem
remove_shortest none is = is
remove_shortest (some i) is = remove_item i.timer is

-- Makes room: the expired items go, or else the one with the least time left.
unfoldable pub make_room : Clock → List ArpItem → List ArpItem
make_room clock is =
    let alive = unexpired clock is in
    if length alive == length is then remove_shortest (shortest clock alive none) alive else alive

-- The table, the items that the pool has left, and the name of the next timer.
pub record ArpTable : Type 0 where
  pub items : List ArpItem
  pub spare : ℕ
  pub next_timer : ℕ

abbrev pub new_item : ArpPacket → ℕ → ArpItem
new_item pkt timer = record { ip = take 4 pkt.spa; mac = take 6 pkt.sha; timer = timer }

module _ (lib : FindLib) where
  open lib use {list_add, list_find}

  abbrev pub add_item : ArpTable → ArpPacket → ArpTable
  add_item t pkt = record {
    items = list_add ArpItem t.items (new_item pkt t.next_timer);
    spare = t.spare - 1;
    next_timer = suc t.next_timer;
  }

  -- The loop for a reply in at most `fuel` rounds: it ends with an item added, and `none` is out
  -- of rounds. What `make_room` takes out goes back to the pool.
  unfoldable pub learn_loop : ℕ → Clock → ArpTable → ArpPacket → Option ArpTable
  learn_loop zero clock t pkt = none
  learn_loop (suc fuel) clock t pkt =
      let roomy = make_room clock t.items in
      let again =
        learn_loop fuel clock
          (record t { items = roomy; spare = t.spare + (length t.items - length roomy) }) pkt in
      if t.spare == 0 then again else some (add_item t pkt)

  -- A second round finds room.
  unfoldable pub learn : Clock → ArpTable → ArpPacket → Option ArpTable
  unfolding learn_loop
  learn clock t pkt = learn_loop 2 clock t pkt

  -- `list_match_ip_addr` copies the mask before it compares, `list_match_lan_addr` too.
  unfoldable pub nif_of_addr : List Nif → IpAddr → Option Nif
  nif_of_addr nifs a =
      list_find Nif (λ n. ip_addr_equals (record a { netmask = n.ip.addr.netmask }) n.ip.addr) nifs

  abbrev ip_of : Option Nif → Option Ip
  ip_of none = none
  ip_of (some n) = some n.ip

  unfoldable pub ether_arp_get_ip : List Nif → Ether → Option Ip
  ether_arp_get_ip nifs eth = ip_of (list_find Nif (λ n. n.eth.id == eth.id) nifs)

  -- The match writes the netmask of the interface into the address that it is given; what that holds
  -- afterwards, which no caller reads, is left out.
  unfoldable pub ether_arp_get_ip_by_addr : List Nif → IpAddr → Option Ip
  ether_arp_get_ip_by_addr nifs a = ip_of (
      list_find Nif (λ n. ip_addr_same_lan (record a { netmask = n.ip.addr.netmask }) n.ip.addr)
        nifs)

  -- `ip_find_netif` of dts_net_ip.c
  unfoldable pub ip_find_netif : List Nif → IpAddr → Option Ip
  ip_find_netif nifs a = if a.version == 4 then ether_arp_get_ip_by_addr nifs a else none

  -- `ether_arp_resgiter_pair`; `granted` is the answer of the pool. That `ip` sends through `eth` from
  -- then on is the pair itself.
  unfoldable pub ether_arp_resgiter_pair : Bool → List Nif → Ip → Ether → List Nif
  ether_arp_resgiter_pair granted nifs ip eth =
      if granted then list_add Nif nifs (record { ip = ip; eth = eth }) else nifs
