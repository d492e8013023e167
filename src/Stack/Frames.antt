-- ===== src/Stack/Frames.antt =====
-- The frames of an ARP request and of its answer, byte for byte.
use dts_net.Base.{ℕ, ◌≡◌, refl, true, none, some, List, [], ◌∷◌, ◌++◌, replicate}
use dts_net.Endian.{Buffer, bw16, br16}
use dts_net.Dblk.{dblk_copy_to, dblk_node_copy_to, dblk_size, dblk_node_size, dblk_node_init}
use dts_net.Ip.{Ip}
use dts_net.Ip.RoundTrip.{Quad, quad_bytes}
use dts_net.Arp.{arp_pack, arp_unpack, arp_write}
use dts_net.Ether.{EtherFrame, Wire, ether_hl_send, ether_pack, ether_header}
use dts_net.EtherArp.{FindLib, Ether, Nif, ArpItem, ArpTable, matches, ether_arp_get_ip}
use dts_net.Tcp.{ListLib}
use dts_net.Icmp.{Icmp}
use dts_net.Ether.{ether_received, ether_unpack}
use dts_net.EtherArp.{Clock, nif_of_addr, ether_arp_ether_recv}
use dts_net.Stack.Defs.{Host, ether_ll_recv, after_frame, dispatch}
use dts_net.EtherArp.{known_or_ask, ether_arp_get_mac_address, ether_arp_ask_ip}

-- The six bytes of a hardware address.
pub record Mac : Type 0 where
  pub a : ℕ
  pub b : ℕ
  pub c : ℕ
  pub d : ℕ
  pub e : ℕ
  pub f : ℕ

abbrev pub mac_bytes : Mac → Buffer
mac_bytes m = m.a ∷ m.b ∷ m.c ∷ m.d ∷ m.e ∷ m.f ∷ []

-- An interface with its address, and the IP object on it.
abbrev pub station : ℕ → Mac → Ether
station id m = record { id = id; mac_address = mac_bytes m }

abbrev pub on_network : ℕ → Quad → Buffer → Ip
on_network id q mask = record {
  id = id;
  addr = record { version = 4; v4 = quad_bytes q; netmask = mask };
}

-- Ethernet's header of an ARP packet, and the packet's fixed part.
abbrev arp_frame : Buffer → Mac → ℕ → Buffer → Buffer
arp_frame to m op addresses =
    to ++ (mac_bytes m ++ (0x08 ∷ 0x06 ∷ 0 ∷ 1 ∷ 0x08 ∷ 0x00 ∷ 6 ∷ 4 ∷ 0 ∷ op ∷ []) ++ addresses)

-- `m` at `q` asks everybody for the address of `t`.
abbrev pub request_bytes : Mac → Quad → Quad → Buffer
request_bytes m q t =
    arp_frame (replicate 6 0xff) m 1
      (mac_bytes m ++ (quad_bytes q ++ (replicate 6 0 ++ quad_bytes t)))

-- `m` at `q` answers `n` at `t`.
abbrev pub reply_bytes : Mac → Quad → Mac → Quad → Buffer
reply_bytes m q n t =
    arp_frame (mac_bytes n) m 2 (mac_bytes m ++ (quad_bytes q ++ (mac_bytes n ++ quad_bytes t)))

module _ (flib : FindLib) (junk : ℕ) (nifs : List Nif) (table : ArpTable) (wire : Wire) where
  pub asks :
      (id ip_id : ℕ) (m : Mac) (q t : Quad) (mask : Buffer)
      → ether_arp_get_ip flib nifs (station id m) ≡ some (on_network ip_id q mask)
      → flib.list_find ArpItem (matches (quad_bytes t)) table.items ≡ none
      → ether_arp_get_mac_address flib junk nifs table (station id m) (quad_bytes t) wire
        ≡ some (none, record wire { frames = wire.frames ++ (request_bytes m q t ∷ []) })
  unfolding ether_arp_get_mac_address known_or_ask ether_arp_ask_ip arp_pack arp_write bw16
      ether_hl_send ether_pack ether_header dblk_copy_to dblk_size dblk_node_size dblk_node_init
      dblk_node_copy_to
  asks id ip_id m q t mask here unknown = rw (unknown, here) refl

-- A frame of 64 bytes that `recv` filled: 42 bytes, and what the interface put behind them.
abbrev pub padded : Buffer → Buffer → EtherFrame
padded bytes tail = record {
  dest_mac_addr = [];
  src_mac_addr = [];
  payload = [];
  kind = 0;
  crc = 0;
  bytes = bytes ++ tail;
  size = 64;
}

module _ (lib : ListLib) (blank : Icmp) (flib : FindLib) (junk : ℕ) (clock : Clock) where
  -- Who has the address that is asked for answers the one who asks.
  pub answers :
      (id ip_id : ℕ) (m n : Mac) (q t : Quad) (mask tail : Buffer) (h : Host)
      → nif_of_addr flib h.nifs (record { version = 4; v4 = quad_bytes q; netmask = [] })
        ≡ some (record { ip = on_network ip_id q mask; eth = station id m })
      → ether_ll_recv lib blank flib junk clock (station id m) (padded (request_bytes n t q) tail) h
        ≡ some (
          record h {
            wire = record h.wire { frames = h.wire.frames ++ (reply_bytes m q n t ∷ []) };
          },
          true,
        )
  unfolding ether_ll_recv after_frame ether_received ether_unpack dispatch ether_arp_ether_recv
      arp_unpack br16 arp_pack arp_write bw16 ether_hl_send ether_pack ether_header dblk_copy_to
      dblk_size dblk_node_size dblk_node_init dblk_node_copy_to
  answers id ip_id m n q t mask tail h here = rw here refl
