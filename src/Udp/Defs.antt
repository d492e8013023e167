-- ===== src/Udp/Defs.antt =====
-- `udp_pack`, `udp_unpack`, `udp_list`, `udp_bind`, `udp_ip_recv` and `udp_sendto`. A callback is a
-- name, none of NULL; its calls are results.
use dts_net.Base.{ℕ, ◌+◌, ◌-◌, ◌%◌, ◌^◌, Bool, true, false, Option, none, some, List, [], ◌∷◌}
use dts_net.Base.{if◌then◌else◌, ltb, ◌==◌, ◌&&◌, drop, replicate}
use dts_net.Endian.{Buffer, br16, bw16}
use dts_net.Checksum.{checksum_accmulate, checksum_complete}
use dts_net.Dblk.{Node, Chain, dblk_node_init, dblk_node_concat}
use dts_net.Ip.{Ip, IpAddr, IpHeader, Lower, ip_hl_send, pseudo_header_pack}

pub record UdpDatagram : Type 0 where
  pub src_port : ℕ
  pub dest_port : ℕ
  pub length : ℕ
  pub checksum_field : ℕ
  pub payload : Node
  pub raw : Node

abbrev pub ip_protocol_udp : ℕ
ip_protocol_udp = 17

-- The header with its checksum cleared.
unfoldable pub udp_header : ℕ → ℕ → ℕ → Buffer → Buffer
udp_header src_port dest_port length buf =
    (bw16 0 (bw16 length (bw16 dest_port (bw16 src_port buf 0).0 2).0 4).0 6).0

-- The pseudo header, the header and the payload, summed up.
unfoldable pub udp_sum : IpAddr → IpAddr → ℕ → ℕ → Buffer → ℕ → Buffer → ℕ → ℕ
udp_sum src dest protocol length header hsize payload psize =
    let sum = checksum_accmulate 0 (pseudo_header_pack src dest protocol length) 12 in
    checksum_accmulate (checksum_accmulate sum header hsize) payload psize

-- The datagram, and its block.
unfoldable pub udp_pack : IpAddr → IpAddr → ℕ → UdpDatagram → UdpDatagram × Chain
udp_pack src dest protocol dg =
    let len = (dg.raw.size + dg.payload.size) % 2 ^ 16 in
    let header = udp_header dg.src_port dg.dest_port len dg.raw.bytes in
    let sum =
      checksum_complete
        (udp_sum src dest protocol len header dg.raw.size dg.payload.bytes dg.payload.size) in
    let raw = record dg.raw { bytes = (bw16 sum header 6).0 } in
    (
      record dg { length = len; checksum_field = sum; raw = raw },
      dblk_node_concat raw (dg.payload ∷ []),
    )

-- The payload is a node over the bytes behind the header; its size is the one that the header
-- tells, in 16 bits.
unfoldable pub udp_unpack : IpAddr → IpAddr → ℕ → UdpDatagram → UdpDatagram × Bool
udp_unpack src dest protocol dg =
    let b = dg.raw.bytes in
    let len = br16 b 4 in
    let cleared = (bw16 0 b 6).0 in
    let sum =
      checksum_accmulate (checksum_accmulate 0 (pseudo_header_pack src dest protocol len) 12)
        cleared dg.raw.size in
    let dg1 = record dg {
      src_port = br16 b 0;
      dest_port = br16 b 2;
      length = len;
      checksum_field = br16 b 6;
      payload = record dg.payload { bytes = drop 8 b; size = (len + 2 ^ 16 - 8) % 2 ^ 16 };
      raw = record dg.raw { bytes = cleared };
    } in
    if ltb dg.raw.size 8 then (dg, false) else (dg1, br16 b 6 == checksum_complete sum)

-- `udp_t`
pub record Udp : Type 0 where
  pub low_level : ℕ
  pub port : ℕ
  pub callback : Option ℕ
  pub cb_data : ℕ

unfoldable pub find_udp_by_addr : List Udp → Ip → ℕ → Option Udp
find_udp_by_addr [] ip port = none
find_udp_by_addr (u ∷ us) ip port =
    let rest = find_udp_by_addr us ip port in
    if u.low_level == ip.id && u.port == port then some u else rest

abbrev is_free : Option Udp → Bool
is_free none = true
is_free (some u) = false

-- `udp_bind`: `granted` says whether the pool gives an item, `list_add` is the list library's. The
-- flag says that the port was bound.
unfoldable pub udp_bind :
    (List Udp → Udp → List Udp) → Bool → List Udp → Ip → ℕ → Option ℕ → ℕ → List Udp × Bool
udp_bind list_add granted us ip port callback cb_data =
    let u : Udp = record {
      low_level = ip.id;
      port = port;
      callback = callback;
      cb_data = cb_data;
    } in
    if is_free (find_udp_by_addr us ip port)
    then (if granted then (list_add us u, true) else (us, false))
    else (us, false)

-- A call `callback(cb_data, bytes, size)`.
pub record Call : Type 0 where
  pub callback : ℕ
  pub cb_data : ℕ
  pub bytes : Buffer
  pub size : ℕ

call_of : Option Udp → Node → Option Call
call_of none d = none
call_of (some u) d = elim u.callback [
  | none ↦ none
  | some f ↦ some (record { callback = f; cb_data = u.cb_data; bytes = d.bytes; size = d.size })
]

abbrev pub blank_udp : Node → UdpDatagram
blank_udp raw = record {
  src_port = 0;
  dest_port = 0;
  length = 0;
  checksum_field = 0;
  payload = dblk_node_init [] 0;
  raw = raw;
}

-- `udp_ip_recv` of a datagram from `src` to `dest`: the call that it makes, and its result.
unfoldable pub udp_ip_recv : List Udp → Ip → IpAddr → IpAddr → ℕ → Node → Option Call × Bool
unfolding call_of
udp_ip_recv us ip src dest protocol raw =
    let (dg, valid) = udp_unpack src dest protocol (blank_udp raw) in
    if valid
    then (call_of (find_udp_by_addr us ip dg.dest_port) dg.payload, true)
    else (none, false)

-- The datagram and the header that `_sendto` makes; `hdr` is the header on the stack, whose flags are
-- not set.
abbrev pub datagram_to : ℕ → Buffer → ℕ → ℕ → UdpDatagram
datagram_to port bytes size junk = record {
  src_port = 12435;
  dest_port = port;
  length = 0;
  checksum_field = 0;
  payload = dblk_node_init bytes size;
  raw = dblk_node_init (replicate 8 junk) 8;
}

abbrev pub header_to : Ip → IpHeader → IpAddr → IpHeader
header_to ip hdr dest = record hdr {
  options = [];
  option_size = 0;
  type_of_service = 0;
  protocol = ip_protocol_udp;
  time_to_live = 128;
  src = ip.addr;
  dest = dest;
}

-- The block that `_sendto` hands to `ip_hl_send`.
abbrev pub block_to : Ip → IpAddr → ℕ → Buffer → ℕ → ℕ → Chain
block_to ip dest port bytes size junk =
    (udp_pack ip.addr dest ip_protocol_udp (datagram_to port bytes size junk)).1

-- `_sendto`
unfoldable pub send_to : Ip → IpHeader → IpAddr → ℕ → Buffer → ℕ → Lower → Lower × Bool
send_to ip hdr dest port bytes size low =
    ip_hl_send ip (header_to ip hdr dest) (block_to ip dest port bytes size low.junk) low

-- `udp_sendto`: `ip` is what `ip_find_netif(dest)` gave.
unfoldable pub udp_sendto : Option Ip → IpHeader → IpAddr → ℕ → Buffer → ℕ → Lower → Lower × Bool
udp_sendto none hdr dest port bytes size low = (low, false)
udp_sendto (some ip) hdr dest port bytes size low =
    if dest.version == 4 then send_to ip hdr dest port bytes size low else (low, false)
