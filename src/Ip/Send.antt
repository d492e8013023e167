-- ===== src/Ip/Send.antt =====
-- `ip_hl_send`, and what `ip_ll_recv` reads. `ll_send` is external (dts_net_ether_arp.c gives one): the
-- datagrams handed to it are recorded, and whether it takes one is an input.
use dts_net.Base.{
  ℕ, ◌+◌, ◌-◌, ◌*◌, ◌/◌, ◌%◌, ◌^◌, Bool, true, false, List, [], ◌∷◌, ◌++◌, replicate,
}
use dts_net.Base.{if◌then◌else◌, ltb, ◌==◌, length, drop, not}
use dts_net.Dblk.{Node, Chain, dblk_size, dblk_fragment, dblk_node_concat, dblk_node_init}
use dts_net.Ip.Addr.{Ip}
use dts_net.Ip.Header.{IpHeader, ip_header_pack, ip_header_unpack}

-- What is below IP: the datagrams handed to `ll_send` with their headers, its answers, the counter
-- `ident`, and what the 64 bytes on the stack hold.
pub record Lower : Type 0 where
  pub datagrams : List (IpHeader × Chain)
  pub accept : ℕ → Bool
  pub ident : ℕ
  pub junk : ℕ

abbrev pub hand_down : Lower → IpHeader → Chain → Lower × Bool
hand_down low hdr raw = (
  record low { datagrams = low.datagrams ++ ((hdr, raw) ∷ []) },
  low.accept (length low.datagrams),
)

-- The header goes into the node `raw`.
unfoldable pub pack_header : IpHeader → Node → IpHeader × Node
pack_header hdr raw =
    let (h, b, n) = ip_header_pack hdr raw.bytes raw.size in (h, record raw { bytes = b; size = n })

-- `MKFLAGS(0, more)`
abbrev pub mk_flags : Bool → ℕ
mk_flags more = if more then 1 else 0

abbrev pub is_nil : Chain → Bool
is_nil [] = true
is_nil (d ∷ ds) = false

-- After the last fragment the payload is deleted, and before it, where one was refused, that one and
-- those behind it.
abbrev pub to_delete : Chain → Chain → List Chain
to_delete [] payload = payload ∷ []
to_delete (f ∷ fs) payload = (f ∷ []) ∷ fs ∷ payload ∷ []

-- Over any `ll_send`, which changes a state and says whether it took the datagram.
module _ {ℓ} {S : Type ℓ} (ll_send : S → IpHeader → Chain → S × Bool) where
  -- The loop over the fragments, which are nodes of their own; it stops where one is refused, with
  -- that one and those behind it left.
  unfoldable pub send_left : IpHeader → Node → Chain → S → S × Chain
  send_left hdr raw [] s = (s, [])
  send_left hdr raw (f ∷ fs) s =
      let h1 = record hdr {
        total_length = dblk_size (f ∷ []) % 2 ^ 16;
        flags = mk_flags (not (is_nil fs));
      } in
      let (h2, raw1) = pack_header h1 raw in
      let (s1, taken) = ll_send s h2 (dblk_node_concat raw1 (f ∷ [])) in
      let h3 = record h2 {
        fragment_offset = (h2.fragment_offset + h2.total_length / 8) % 2 ^ 13;
      } in
      let rest = send_left h3 (record raw1 { more = true }) fs s1 in
      if taken then rest else (s1, f ∷ fs)

  -- The loop with its result.
  unfoldable pub send_each : IpHeader → Node → Chain → S → S × Bool
  unfolding send_left
  send_each hdr raw fs s = let (s1, left) = send_left hdr raw fs s in (s1, is_nil left)

  -- `ip_hl_send` of `payload`, with the header as the layer above filled it in, and with the
  -- counter `ident` counted up. With the result come the chains that it deletes before it returns.
  unfoldable pub hl_send_end : Ip → IpHeader → Chain → ℕ → ℕ → S → (S × Bool) × List Chain
  unfolding send_left
  hl_send_end ip hdr payload ident junk s =
      let size = dblk_size payload in
      let raw = dblk_node_init (replicate 64 junk) 64 in
      let h1 = record hdr {
        version = ip.addr.version % 2 ^ 4;
        src = ip.addr;
        identification = ident % 2 ^ 16;
        fragment_offset = 0;
      } in
      let (h2, raw1) = pack_header (record h1 { total_length = size % 2 ^ 16 }) raw in
      let whole = ll_send s h2 (dblk_node_concat raw1 payload) in
      let (s1, left) = send_left h1 raw (dblk_fragment payload 1400) s in
      if ltb size 1400 then (whole, []) else ((s1, is_nil left), to_delete left payload)

  -- Without what it deletes.
  unfoldable pub hl_send : Ip → IpHeader → Chain → ℕ → ℕ → S → S × Bool
  unfolding hl_send_end
  hl_send ip hdr payload ident junk s = (hl_send_end ip hdr payload ident junk s).0

abbrev pub next_ident : ℕ → ℕ
next_ident ident = (ident + 1) % 2 ^ 32

-- With the datagrams handed to `ll_send` recorded.
unfoldable pub send_fragments : IpHeader → Node → Chain → Lower → Lower × Bool
unfolding send_each
send_fragments = send_each hand_down

unfoldable pub ip_hl_send : Ip → IpHeader → Chain → Lower → Lower × Bool
unfolding hl_send
ip_hl_send ip hdr payload low =
    let ident = next_ident low.ident in
    hl_send hand_down ip hdr payload ident low.junk (record low { ident = ident })

-- The protocols that `ip_ll_recv` knows.
pub data Protocol : Type 0 where
  icmp tcp udp unknown : Protocol

unfoldable pub protocol_of : ℕ → Protocol
protocol_of n = if n == 1 then icmp else if n == 6 then tcp else if n == 17 then udp else unknown

-- What `ip_ll_recv` hands to the protocol: the header, and one node over the bytes behind it. The
-- size is the total length less the header, in 16 bits, whatever the size of the datagram is.
unfoldable pub ip_received : IpHeader → Node → (IpHeader × Node × Protocol) × Bool
ip_received hdr raw =
    let (h, valid) = ip_header_unpack hdr raw.bytes raw.size in
    let hdr_sz = h.ihl * 4 in
    let payload =
      dblk_node_init (drop hdr_sz raw.bytes) ((h.total_length + 2 ^ 16 - hdr_sz) % 2 ^ 16) in
    ((h, payload, protocol_of h.protocol), valid)
