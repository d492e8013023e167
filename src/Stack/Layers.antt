-- ===== src/Stack/Layers.antt =====
-- What a frame can change: its own protocol's part of the state and no other.
use dts_net.Base.{ℕ, ◌≡◌, ◌≢◌, ◌≤◌, ◌<◌, refl, ap, arith, Bool, true, false, Option, none, some}
use dts_net.Base.{ltb, ◌==◌, if◌then◌else◌, dec_lt, sym, ◌∙◌}
use dts_net.Endian.{br16}
use dts_net.Dblk.{Node}
use dts_net.Ip.{Ip, IpHeader, Protocol, ip_received}
use dts_net.Icmp.{Icmp}
use dts_net.Tcp.{ListLib}
use dts_net.Ether.{EtherFrame, Upward, to_arp, to_ip, to_nobody, ether_received, ether_unpack}
use dts_net.EtherArp.{FindLib, Ether, Clock}
use dts_net.Stack.Defs.{Host, to_protocol, ip_ll_recv}
use dts_net.Stack.Defs.{ether_ll_recv, dispatch, after_dispatch, after_frame}

-- The address table is the one from before.
pub record IsArpKept (h h1 : Host) : Type 0 where
  pub arp : h1.arp ≡ h.arp

-- The parts of ICMP, UDP and TCP are those from before.
pub record IsIpKept (h h1 : Host) : Type 0 where
  pub lower : h1.lower ≡ h.lower
  pub calls : h1.calls ≡ h.calls
  pub table : h1.table ≡ h.table

to_protocol-IsArpKept :
    (lib : ListLib) (blank : Icmp) (p : Protocol) (ip : Option Ip) (hdr : IpHeader) (d : Node)
    (h h1 : Host)
    → to_protocol lib blank p ip hdr d h ≡ some h1
    → IsArpKept h h1
unfolding to_protocol
to_protocol-IsArpKept lib blank p ip hdr d h h1 e = ground arith

ip_ll_recv-IsArpKept :
    (lib : ListLib) (blank : Icmp) (ip : Option Ip) (hdr : IpHeader) (d : Node) (h h1 : Host)
    → ip_ll_recv lib blank ip hdr d h ≡ some h1
    → IsArpKept h h1
unfolding ip_ll_recv
ip_ll_recv-IsArpKept lib blank ip hdr d h h1 e =
    let ((got, payload, protocol), valid) = ip_received hdr d in
    ground (arith, to_protocol-IsArpKept lib blank protocol ip got payload h h1)

-- What `ether_ll_recv` of `frame` makes of the state `h`.
pub record IsLayered (frame : EtherFrame) (h h1 : Host) (result : Bool) : Type 0 where
  pub accepted : 64 ≤ frame.size → result ≡ true
  pub refused : frame.size < 64 → (result ≡ false) × (h1 ≡ h)
  pub no_arp : br16 frame.bytes 12 ≢ 0x0806 → IsArpKept h h1
  pub no_ip : br16 frame.bytes 12 ≢ 0x0800 → IsIpKept h h1
  pub same_ports : (h1.udps ≡ h.udps) × (h1.nifs ≡ h.nifs)

module _ (lib : ListLib) (blank : Icmp) (flib : FindLib) (junk : ℕ) (clock : Clock)
    (eth : Ether) where
  to_protocol-ports :
      (p : Protocol) (ip : Option Ip) (hdr : IpHeader) (d : Node) (h h1 : Host)
      → to_protocol lib blank p ip hdr d h ≡ some h1
      → (h1.udps ≡ h.udps) × (h1.nifs ≡ h.nifs)
  unfolding to_protocol
  to_protocol-ports p ip hdr d h h1 e = ground arith

  dispatch-ports :
      (up : Upward) (h h1 : Host)
      → dispatch lib blank flib junk clock eth up h ≡ some h1
      → (h1.udps ≡ h.udps) × (h1.nifs ≡ h.nifs)
  unfolding dispatch ip_ll_recv to_protocol
  dispatch-ports up h h1 e = ground arith

  dispatch-IsArpKept :
      (d : Node) (h h1 : Host)
      → dispatch lib blank flib junk clock eth (to_ip d) h ≡ some h1
      → IsArpKept h h1
  unfolding dispatch
  dispatch-IsArpKept d h h1 e = ip_ll_recv-IsArpKept lib blank _ _ d h h1 e

  dispatch-IsIpKept :
      (d : Node) (h h1 : Host)
      → dispatch lib blank flib junk clock eth (to_arp d) h ≡ some h1
      → IsIpKept h h1
  unfolding dispatch
  dispatch-IsIpKept d h h1 e = ground arith

  dispatch-nobody :
      (h h1 : Host)
      → dispatch lib blank flib junk clock eth to_nobody h ≡ some h1
      → IsIpKept h h1 × IsArpKept h h1
  unfolding dispatch
  dispatch-nobody h h1 e = ground arith

  module _ (frame : EtherFrame) where
    received-short : frame.size < 64 → ether_received frame ≡ none
    unfolding ether_received ether_unpack
    received-short short = ground arith

    -- What the type of the frame says that it is.
    abbrev kind_of : Node → Upward
    kind_of d =
        if br16 frame.bytes 12 == 0x0806
        then to_arp d
        else if br16 frame.bytes 12 == 0x0800
        then to_ip d
        else to_nobody

    received-long : 64 ≤ frame.size → (d : Node) × (ether_received frame ≡ some (kind_of d))
    unfolding ether_received ether_unpack
    received-long long =
        let e1 : ltb frame.size 64 ≡ false = ground arith in
        let e2 : ltb 0 frame.size ≡ true = ground arith in rw (e1, e2) (_, refl)

    kind_of-IsArpKept :
        (d : Node) (h h1 : Host)
        → br16 frame.bytes 12 ≢ 0x0806
        → dispatch lib blank flib junk clock eth (kind_of d) h ≡ some h1
        → IsArpKept h h1
    kind_of-IsArpKept d h h1 other e =
        ground (arith, dispatch-IsArpKept d h h1, dispatch-nobody h h1)

    kind_of-IsIpKept :
        (d : Node) (h h1 : Host)
        → br16 frame.bytes 12 ≢ 0x0800
        → dispatch lib blank flib junk clock eth (kind_of d) h ≡ some h1
        → IsIpKept h h1
    kind_of-IsIpKept d h h1 other e = ground (arith, dispatch-IsIpKept d h h1, dispatch-nobody h h1)

    dispatched :
        (o : Option Host) (h1 : Host) (result : Bool)
        → after_dispatch o ≡ some (h1, result)
        → (o ≡ some h1) × (result ≡ true)
    dispatched none h1 result e = ground arith
    dispatched (some h) h1 result e = ground arith

    from_short :
        (h h1 : Host) (result : Bool)
        → frame.size < 64
        → ether_ll_recv lib blank flib junk clock eth frame h ≡ some (h1, result)
        → (result ≡ false) × (h1 ≡ h)
    unfolding ether_ll_recv after_frame
    from_short h h1 result short e = ground (arith, received-short short)

    from_long :
        (h h1 : Host) (result : Bool)
        → 64 ≤ frame.size
        → ether_ll_recv lib blank flib junk clock eth frame h ≡ some (h1, result)
        → (d : Node) × (dispatch lib blank flib junk clock eth (kind_of d) h ≡ some h1)
          × (result ≡ true)
    unfolding ether_ll_recv after_frame
    from_long h h1 result long e =
        let (d, up) = received-long long in
        let then_dispatch = sym (ap (λ o. after_frame lib blank flib junk clock eth o h) up) ∙ e in
        let (found, ok) = dispatched _ h1 result then_dispatch in (d, found, ok)

    -- After `ether_ll_recv`, unless it reads through NULL: exactly a frame of less than 64 bytes is
    -- refused, with nothing changed; a frame of a type other than ARP leaves the address table as
    -- it was, and one of a type other than IP what IP, UDP and TCP hold;
    -- ports and interfaces stay in any case.
    pub ether_ll_recv-IsLayered :
        (h h1 : Host) (result : Bool)
        → ether_ll_recv lib blank flib junk clock eth frame h ≡ some (h1, result)
        → IsLayered frame h h1 result
    ether_ll_recv-IsLayered h h1 result e = elim (dec_lt frame.size 64) [
      | yes short ↦
          (let (refused, same) = from_short h h1 result short e in
            record {
              accepted = λ long. absurd (omega arith);
              refused = λ _. (refused, same);
              no_arp = λ _. record { arp = ap (λ x. x.arp) same };
              no_ip = λ _. record {
                lower = ap (λ x. x.lower) same;
                calls = ap (λ x. x.calls) same;
                table = ap (λ x. x.table) same;
              };
              same_ports = (ap (λ x. x.udps) same, ap (λ x. x.nifs) same);
            })
      | no long ↦
          (let (d, found, ok) = from_long h h1 result (omega arith) e in
            record {
              accepted = λ _. ok;
              refused = λ short. absurd (long short);
              no_arp = λ other. kind_of-IsArpKept d h h1 other found;
              no_ip = λ other. kind_of-IsIpKept d h h1 other found;
              same_ports = dispatch-ports (kind_of d) h h1 found;
            })
    ]
