-- ===== src/Icmp/Defs.antt =====
-- `icmp_t`, `icmp_pack`, `icmp_unpack` and `icmp_ip_recv`. The union `message` is one record: an
-- echo uses all of it, an unreachable only the data.
use dts_net.Base.{
  ℕ, ◌+◌, ◌-◌, Bool, true, false, Option, none, some, if◌then◌else◌, ltb, ◌==◌, ◌||◌, ◌&&◌,
}
use dts_net.Base.{set, drop, [], ◌∷◌}
use dts_net.Endian.{Buffer, byte_at, br16, bw16, bw32}
use dts_net.Bytes.{copy_at}
use dts_net.Checksum.{checksum}
use dts_net.Dblk.{Node, Chain}
use dts_net.Ip.{Ip, IpHeader, Lower, ip_hl_send}

pub record IcmpMessage : Type 0 where
  pub identifier : ℕ
  pub sequence_number : ℕ
  pub bytes : Buffer
  pub size : ℕ

pub record Icmp : Type 0 where
  pub kind : ℕ
  pub code : ℕ
  pub checksum_field : ℕ
  pub message : IcmpMessage
  pub bytes : Buffer
  pub size : ℕ

abbrev pub icmp_type_echo_reply : ℕ
icmp_type_echo_reply = 0

abbrev pub icmp_type_unreachable : ℕ
icmp_type_unreachable = 3

abbrev pub icmp_type_echo : ℕ
icmp_type_echo = 8

abbrev pub is_echo : ℕ → Bool
is_echo kind = kind == icmp_type_echo_reply || kind == icmp_type_echo

-- Type, code and a cleared checksum.
unfoldable pub icmp_head : Icmp → Buffer
icmp_head d = (bw16 0 (set (set d.bytes 0 d.kind) 1 0) 2).0

-- The message behind it, and the size; `memcpy` may work in place, `message.data` being the same
-- memory, so the bytes are those from before.
unfoldable pub icmp_body : Icmp → Buffer → Buffer × ℕ
icmp_body d b =
    let m = d.message in
    let echo = (bw16 m.sequence_number (bw16 m.identifier b 4).0 6).0 in
    if is_echo d.kind
    then (copy_at echo 8 m.bytes m.size, 8 + m.size)
    else if d.kind == icmp_type_unreachable
    then (copy_at (bw32 0 b 4).0 8 m.bytes m.size, 8 + m.size)
    else (b, d.size)

unfoldable pub icmp_pack : Icmp → Icmp × Bool
unfolding icmp_body icmp_head
icmp_pack d =
    let head = icmp_head d in
    let (b, n) = icmp_body d head in
    let sum = checksum b n in
    if is_echo d.kind && ltb d.size 8
    then (record d { code = 0; bytes = head }, false)
    else (record d { code = 0; checksum_field = sum; bytes = (bw16 sum b 2).0; size = n }, true)

unfoldable pub icmp_unpack : Icmp → Icmp × Bool
icmp_unpack d =
    let d1 = record d {
      kind = byte_at d.bytes 0;
      code = byte_at d.bytes 1;
      checksum_field = br16 d.bytes 2;
    } in
    let rest = record d.message { bytes = drop 8 d.bytes; size = d.size - 8 } in
    let echo = record rest { identifier = br16 d.bytes 4; sequence_number = br16 d.bytes 6 } in
    if ltb d.size 4
    then (d, false)
    else if is_echo d1.kind
    then (if ltb d.size 8 then (d1, false) else (record d1 { message = echo }, true))
    else if d1.kind == icmp_type_unreachable
    then (if ltb d.size 8 then (d1, false) else (record d1 { message = rest }, true))
    else (d1, false)

-- The answer to the `size` bytes at `bytes`, where there is one. `blank` is the `icmp_t` on the
-- stack.
unfoldable pub icmp_answer : Icmp → Buffer → ℕ → Option Icmp
icmp_answer blank bytes size =
    let (d, valid) = icmp_unpack (record blank { bytes = bytes; size = size }) in
    let reply =
      (icmp_pack (record d { kind = icmp_type_echo_reply; bytes = bytes; size = size })).0 in
    if valid then (if d.kind == icmp_type_echo then some reply else none) else none

-- Over any send, with what is there when nothing is sent.
module _ {ℓ} {R : Type ℓ} (send : IpHeader → Chain → R) (kept : R) where
  -- The datagram that arrived goes back with the answer in its payload.
  unfoldable pub send_back : Option Icmp → Ip → IpHeader → Node → R
  send_back none ip hdr payload = kept
  send_back (some reply) ip hdr payload =
      send (record hdr { dest = hdr.src; src = ip.addr })
        (record payload { bytes = reply.bytes } ∷ [])

  -- `icmp_ip_recv`
  unfoldable pub icmp_received : Icmp → Ip → IpHeader → Node → R
  unfolding send_back
  icmp_received blank ip hdr payload =
      send_back (icmp_answer blank payload.bytes payload.size) ip hdr payload

-- With what it hands down recorded.
unfoldable pub icmp_ip_recv : Icmp → Ip → IpHeader → Node → Lower → Lower
unfolding icmp_received
icmp_ip_recv blank ip hdr payload low =
    icmp_received (λ h d. (ip_hl_send ip h d low).0) low blank ip hdr payload
