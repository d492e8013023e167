-- ===== src/Stack/Send.antt =====
-- `udp_sendto` of dts_net_udp.c, `icmp_ip_recv` of dts_net_icmp.c and `ip_hl_send` of dts_net_ip.c on a host, down to the frames: `ll_send`
-- is the `ip_ether_send` of the interface, as `ether_arp_resgiter_pair` sets it.
use dts_net.Base.{ℕ, List, [], ◌∷◌, Bool, false, Option, none, some, if◌then◌else◌, ◌==◌}
use dts_net.Endian.{Buffer}
use dts_net.Dblk.{Node, Chain, Heap, dblk_list_delete}
use dts_net.Icmp.{Icmp, icmp_received}
use dts_net.Ip.{IpAddr, IpHeader, ip_addr_same_lan, hl_send_end, next_ident}
use dts_net.Udp.{header_to, block_to}
use dts_net.Ether.{Wire}
use dts_net.EtherArp.{FindLib, Ether, Nif, Sent, ip_ether_send}
use dts_net.Stack.Defs.{Host}

abbrev pub heap_of : Host → Heap
heap_of h = h.table.net.heap

-- What a send leaves of the host.
abbrev pub after_send : Heap → Wire → Host → Host
after_send heap wire h = record h {
  table = record h.table { net = record h.table.net { heap = heap } };
  wire = wire;
}

-- The result 0 goes with the fault.
abbrev pub after_ether_send : Host → Option (Sent × Bool) → Option Host × Bool
after_ether_send h none = (none, false)
after_ether_send h (some (s, done)) = (some (after_send s.heap s.wire h), done)

abbrev pub count_ident : Host → Host
count_ident h = record h { lower = record h.lower { ident = next_ident h.lower.ident } }

-- `dblk_list_delete` of each of them.
abbrev pub delete_all : List Chain → Option Host → Option Host
delete_all [] o = o
delete_all (ds ∷ dss) none = none
delete_all (ds ∷ dss) (some h) =
    delete_all dss (some (after_send (dblk_list_delete ds (heap_of h)) h.wire h))

module _ (flib : FindLib) where
  -- `ip->ll_send(ip->ll, datagram)`. After a read through NULL nothing is sent.
  unfoldable pub ether_ll_send : Ether → Option Host → IpHeader → Chain → Option Host × Bool
  ether_ll_send eth none hdr raw = (none, false)
  ether_ll_send eth (some h) hdr raw =
      after_ether_send h
        (ip_ether_send flib h.lower.junk h.nifs h.arp eth hdr.dest raw (heap_of h) h.wire)

  -- `ip_hl_send` of an interface with its `ip` and `eth`.
  unfoldable pub host_hl_send : Nif → IpHeader → Chain → Host → Option Host × Bool
  host_hl_send nif hdr payload h =
      let ((o, done), gone) =
        hl_send_end (ether_ll_send nif.eth) nif.ip hdr payload (next_ident h.lower.ident)
          h.lower.junk (some (count_ident h)) in
      (delete_all gone o, done)

  -- `icmp_ip_recv` on an interface with its `ip` and `eth`.
  unfoldable pub host_icmp_ip_recv : Icmp → Nif → IpHeader → Node → Host → Option Host
  unfolding host_hl_send
  host_icmp_ip_recv blank nif hdr payload h =
      icmp_received (λ back d. (host_hl_send nif back d h).0) (some h) blank nif.ip hdr payload

  -- The pair that `ip_find_netif` finds the `ip` of.
  unfoldable pub find_netif : Host → IpAddr → Option Nif
  find_netif h a =
      if a.version == 4
      then flib.list_find Nif
          (λ n. ip_addr_same_lan (record a { netmask = n.ip.addr.netmask }) n.ip.addr) h.nifs
      else none

  sendto_through : Option Nif → IpHeader → IpAddr → ℕ → Buffer → ℕ → Host → Option Host × Bool
  sendto_through none hdr dest port bytes size h = (some h, false)
  sendto_through (some nif) hdr dest port bytes size h =
      if dest.version == 4
      then host_hl_send nif (header_to nif.ip hdr dest)
          (block_to nif.ip dest port bytes size h.lower.junk) h
      else (some h, false)

  -- `udp_sendto`
  unfoldable pub host_udp_sendto : IpHeader → IpAddr → ℕ → Buffer → ℕ → Host → Option Host × Bool
  unfolding sendto_through
  host_udp_sendto hdr dest port bytes size h =
      sendto_through (find_netif h dest) hdr dest port bytes size h
