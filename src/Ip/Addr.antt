-- ===== src/Ip/Addr.antt =====
-- `ip_addr_t`, `ip_t`, the address tests, and the pseudo header of
-- include/dts/net/pseudo_header.h. `au32` reads the four bytes of an address as the host does,
-- here a little-endian one; the tests only compare such words.
use dts_net.Base.{ℕ, ◌%◌, bit_and, Bool, false, [], ◌∷◌, ◌++◌, ◌||◌}
use dts_net.Base.{if◌then◌else◌, ◌==◌, take}
use dts_net.Endian.{Buffer, lr32, bw16}

pub record IpAddr : Type 0 where
  pub version : ℕ
  pub v4 : Buffer
  pub netmask : Buffer

-- An `ip_t`; `id` tells the objects apart, as their addresses do.
pub record Ip : Type 0 where
  pub id : ℕ
  pub addr : IpAddr

-- What TCP and UDP hand to `ip_hl_send`.
pub record IpDatagram : Type 0 where
  pub ip : Ip
  pub type_of_service : ℕ
  pub protocol : ℕ
  pub time_to_live : ℕ
  pub dest : IpAddr
  pub payload : Buffer

abbrev pub ip_protocol_tcp : ℕ
ip_protocol_tcp = 6

abbrev pub au32 : Buffer → ℕ
au32 b = lr32 b 0

unfoldable pub ip_addr_equals : IpAddr → IpAddr → Bool
ip_addr_equals a1 a2 = if a1.version == a2.version then au32 a1.v4 == au32 a2.v4 else false

unfoldable pub ip_addr_broadcast : IpAddr → Bool
ip_addr_broadcast a = if a.version == 4 then au32 a.v4 == 0xffff_ffff else false

unfoldable pub ip_addr_same_lan : IpAddr → IpAddr → Bool
ip_addr_same_lan a1 a2 =
    if a1.version == a2.version
    then bit_and (au32 a1.v4) (au32 a1.netmask) == bit_and (au32 a2.v4) (au32 a2.netmask)
      || ip_addr_broadcast a1
      || ip_addr_broadcast a2
    else false

-- `pseudo_header_pack` into its 12 bytes.
unfoldable pub pseudo_header_pack : IpAddr → IpAddr → ℕ → ℕ → Buffer
pseudo_header_pack src dest protocol length =
    (bw16 length (take 4 src.v4 ++ take 4 dest.v4 ++ 0 ∷ (protocol % 256) ∷ 0 ∷ 0 ∷ []) 10).0
