-- ===== src/Stack/Defs.antt =====
-- The calls that `ether_ll_recv` of dts_net_ether.c and `ip_ll_recv` of dts_net_ip.c make, on the
-- state of all layers. `none` is a read through NULL.
use dts_net.Base.{
  ℕ, Bool, true, false, Option, none, some, List, [], ◌∷◌, ◌++◌, if◌then◌else◌, replicate,
}
use dts_net.Dblk.{Node}
use dts_net.Ip.{Ip, IpAddr, IpHeader, Lower, Protocol, icmp, tcp, udp, unknown, ip_received}
use dts_net.Icmp.{Icmp, icmp_answer, icmp_ip_recv}
use dts_net.Udp.{Udp, Call, udp_ip_recv}
use dts_net.Tcp.{ListLib, Table, tcp_ip_recv}
use dts_net.Arp.{ArpPacket}
use dts_net.Ether.{EtherFrame, Wire, Upward, to_arp, to_ip, to_nobody, ether_received}
use dts_net.EtherArp.{FindLib, Ether, Nif, Clock, ArpTable, ether_arp_ether_recv, ether_arp_get_ip}

-- The state of all layers: what ICMP handed to IP, the calls of UDP callbacks (the last one at the
-- end), the bound ports, the TCP connections, the interfaces, and what ARP knows and sends.
pub record Host : Type 0 where
  pub lower : Lower
  pub calls : List Call
  pub udps : List Udp
  pub table : Table
  pub nifs : List Nif
  pub arp : ArpTable
  pub wire : Wire

abbrev pub add_call : List Call → Option Call → List Call
add_call cs none = cs
add_call cs (some c) = cs ++ (c ∷ [])

abbrev pub with_table : Host → Option Table → Option Host
with_table h none = none
with_table h (some tb) = some (record h { table = tb })

abbrev pub with_arp : Host → Option (ArpTable × Wire) → Option Host
with_arp h none = none
with_arp h (some (t, w)) = some (record h { arp = t; wire = w })

-- With the result 1.
abbrev pub after_dispatch : Option Host → Option (Host × Bool)
after_dispatch none = none
after_dispatch (some h) = some (h, true)

-- An echo is answered through `ip->addr`, which is read through NULL without an interface.
abbrev pub answer_nowhere : Host → Option Icmp → Option Host
answer_nowhere h none = some h
answer_nowhere h (some reply) = none

-- A packet over the payload of a frame; its other fields are 0.
abbrev pub packet_over : Node → ArpPacket
packet_over d = record {
  hrd = 0;
  pro = 0;
  hln = 0;
  pln = 0;
  op = 0;
  sha = [];
  spa = [];
  tha = [];
  tpa = [];
  bytes = d.bytes;
  size = d.size;
}

abbrev zero_address : IpAddr
zero_address = record { version = 0; v4 = replicate 4 0; netmask = replicate 4 0 }

-- A header of zeros.
abbrev pub zero_header : IpHeader
zero_header = record {
  version = 0;
  ihl = 0;
  type_of_service = 0;
  total_length = 0;
  identification = 0;
  flags = 0;
  fragment_offset = 0;
  time_to_live = 0;
  protocol = 0;
  checksum_field = 0;
  src = zero_address;
  dest = zero_address;
  options = [];
  option_size = 0;
}

module _ (lib : ListLib) (blank : Icmp) where
  -- The switch of `ip_ll_recv`. Without an interface no port and no connection matches.
  unfoldable pub to_protocol : Protocol → Option Ip → IpHeader → Node → Host → Option Host
  to_protocol icmp none hdr payload h =
      answer_nowhere h (icmp_answer blank payload.bytes payload.size)
  to_protocol icmp (some ip) hdr payload h =
      some (record h { lower = icmp_ip_recv blank ip hdr payload h.lower })
  to_protocol tcp none hdr payload h = some h
  to_protocol tcp (some ip) hdr payload h =
      with_table h (tcp_ip_recv lib h.table ip hdr.src hdr.dest payload)
  to_protocol udp none hdr payload h = some h
  to_protocol udp (some ip) hdr payload h = some (record h {
    calls = add_call h.calls (udp_ip_recv h.udps ip hdr.src hdr.dest hdr.protocol payload).0;
  })
  to_protocol unknown ip hdr payload h = some h

  -- `ip_ll_recv`; `hdr` is what the header held before.
  unfoldable pub ip_ll_recv : Option Ip → IpHeader → Node → Host → Option Host
  ip_ll_recv ip hdr raw h =
      let ((got, payload, protocol), valid) = ip_received hdr raw in
      if valid then to_protocol protocol ip got payload h else some h

  module _ (flib : FindLib) (junk : ℕ) (clock : Clock) (eth : Ether) where
    unfoldable pub dispatch : Upward → Host → Option Host
    dispatch (to_arp d) h =
        with_arp h (ether_arp_ether_recv flib junk clock h.nifs h.arp eth (packet_over d) h.wire)
    dispatch (to_ip d) h = ip_ll_recv (ether_arp_get_ip flib h.nifs eth) zero_header d h
    dispatch to_nobody h = some h

    unfoldable pub after_frame : Option Upward → Host → Option (Host × Bool)
    after_frame none h = some (h, false)
    after_frame (some up) h = after_dispatch (dispatch up h)

    -- `ether_ll_recv` on the interface `eth` of a frame that `recv` has filled; the flag is the result.
    unfoldable pub ether_ll_recv : EtherFrame → Host → Option (Host × Bool)
    ether_ll_recv frame h = after_frame (ether_received frame) h
