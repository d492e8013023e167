-- ===== src/Dhcp/Numbers.antt =====
-- The bytes of the numbers in a message that `dhcp_message_pack` of dts_net_dhcp.c makes.
use dts_net.Base.{ℕ, zero, suc, ◌+◌, ◌*◌, ◌/◌, ◌%◌, ◌^◌, ◌≡◌, ◌≤◌, ◌<◌, refl, arith, ap, sym, ◌∙◌}
use dts_net.Base.{bit_and, [], ◌∷◌, ◌++◌, length, take, drop}
use dts_net.Base.{bit_and-mask, bit_or-shifted, take-append-drop}
use dts_net.Endian.{Buffer, byte_at, lr16, lr32, lw16, lw32, ◌>>>◌}
use dts_net.Inet.{htonl, htons, ntohl}
use dts_net.Inet.Order.{lr32-four, htonl-four}
use dts_net.Dhcp.Defs.{DhcpMessage, write_numbers, read_numbers}

-- The first `n` cells, one by one.
abbrev cells : ℕ → Buffer → Buffer
cells zero b = []
cells (suc n) b = byte_at b 0 ∷ cells n (drop 1 b)

cells-take : (n : ℕ) (b : Buffer) → n ≤ length b → cells n b ≡ take n b
cells-take zero b h = refl
cells-take (suc n) [] h = absurd (omega arith)
cells-take (suc n) (x ∷ b) h = ap (◌∷◌ x) (cells-take n b (omega arith))

in_cells : (n : ℕ) (b : Buffer) → n ≤ length b → b ≡ cells n b ++ drop n b
in_cells n b h = sym (ap (λ c. c ++ drop n b) (cells-take n b h) ∙ take-append-drop n b)

-- A number of 32 or of 16 bits in the order of the host, before `rest`.
abbrev pub low32 : ℕ → Buffer → Buffer
low32 v rest =
    bit_and v 0xff
    ∷ bit_and (v >>> 8) 0xff
    ∷ bit_and (v >>> 16) 0xff
    ∷ bit_and (v >>> 24) 0xff
    ∷ rest

abbrev pub low16 : ℕ → Buffer → Buffer
low16 v rest = bit_and v 0xff ∷ bit_and (v >>> 8) 0xff ∷ rest

-- The 28 bytes of the numbers.
abbrev pub number_bytes : DhcpMessage → Buffer → Buffer
number_bytes m rest =
    m.op
    ∷ m.htype
    ∷ m.hlen
    ∷ m.hops
    ∷ low32 (htonl m.xid) (
        low16 (htons m.secs) (
          low16 (htons m.flags) (
            low32 (htonl m.ciaddr)
              (low32 (htonl m.yiaddr) (low32 (htonl m.siaddr) (low32 (htonl m.giaddr) rest))))))

pub write_numbers-number_bytes :
    (m : DhcpMessage) (b : Buffer) → 28 ≤ length b → write_numbers m b ≡ number_bytes m (drop 28 b)
unfolding write_numbers lw32 lw16
write_numbers-number_bytes m b h = ap (write_numbers m) (in_cells 28 b h)

-- The number that stands in a number's four bytes is the number.
lr32-low32 : (v : ℕ) → v < 2 ^ 32 → lr32 (low32 v []) 0 ≡ v
lr32-low32 v h =
    rw
      (
        bit_and-mask 8 v,
        bit_and-mask 8 (v >>> 8),
        bit_and-mask 8 (v >>> 16),
        bit_and-mask 8 (v >>> 24),
        lr32-four (v % 2 ^ 8) (v / 2 ^ 8 % 2 ^ 8) (v / 2 ^ 16 % 2 ^ 8) (v / 2 ^ 24 % 2 ^ 8)
            (omega arith) (omega arith) (omega arith) (omega arith),
      )
      (omega arith)

turned :
    (v : ℕ)
    → v < 2 ^ 32
    → htonl v
      ≡ v % 2 ^ 8 * 2 ^ 24 + v / 2 ^ 8 % 2 ^ 8 * 2 ^ 16 + v / 2 ^ 16 % 2 ^ 8 * 2 ^ 8 + v / 2 ^ 24
turned v h =
    let digits : v / 2 ^ 24 * 2 ^ 24
          + v / 2 ^ 16 % 2 ^ 8 * 2 ^ 16
          + v / 2 ^ 8 % 2 ^ 8 * 2 ^ 8
          + v % 2 ^ 8
        ≡ v =
      omega arith in
    ap htonl (sym digits)
    ∙ htonl-four (v % 2 ^ 8) (v / 2 ^ 8 % 2 ^ 8) (v / 2 ^ 16 % 2 ^ 8) (v / 2 ^ 24) (omega arith)
        (omega arith) (omega arith) (omega arith)

htonl-htonl : (v : ℕ) → v < 2 ^ 32 → htonl (htonl v) ≡ v
htonl-htonl v h =
    ap htonl (turned v h)
    ∙ (htonl-four (v / 2 ^ 24) (v / 2 ^ 16 % 2 ^ 8) (v / 2 ^ 8 % 2 ^ 8) (v % 2 ^ 8) (omega arith)
          (omega arith) (omega arith) (omega arith)
        ∙ omega arith)

-- A number of 32 bits comes back.
ntohl-low32 : (v : ℕ) → v < 2 ^ 32 → ntohl (lr32 (low32 (htonl v) []) 0) ≡ v
ntohl-low32 v h = ap ntohl (lr32-low32 (htonl v) (omega (arith, turned v h))) ∙ htonl-htonl v h

-- Of a number of 16 bits nothing comes back.
ntohl-low16 : (w : ℕ) → ntohl (lr16 (low16 w []) 0) % 2 ^ 16 ≡ 0
unfolding lr16
ntohl-low16 w =
    let low : bit_and w 0xff ≡ w % 2 ^ 8 = bit_and-mask 8 w in
    let high : bit_and (w >>> 8) 0xff ≡ w / 2 ^ 8 % 2 ^ 8 = bit_and-mask 8 (w >>> 8) in
    let sum = bit_or-shifted 8 (w / 2 ^ 8 % 2 ^ 8) (w % 2 ^ 8) (omega arith) in
    let back =
      htonl-four (w % 2 ^ 8) (w / 2 ^ 8 % 2 ^ 8) 0 0 (omega arith) (omega arith) (omega arith)
        (omega arith) in
    let same : w / 2 ^ 8 % 2 ^ 8 * 2 ^ 8 + w % 2 ^ 8
        ≡ 0 * 2 ^ 24 + 0 * 2 ^ 16 + w / 2 ^ 8 % 2 ^ 8 * 2 ^ 8 + w % 2 ^ 8 =
      omega arith in
    rw (low, high, sum, same, back) (omega arith)

-- `other` with the numbers of `m`, and 0 for `secs` and `flags`.
abbrev pub with_numbers_of : DhcpMessage → DhcpMessage → DhcpMessage
with_numbers_of m other = record other {
  op = m.op;
  htype = m.htype;
  hlen = m.hlen;
  hops = m.hops;
  xid = m.xid;
  secs = 0;
  flags = 0;
  ciaddr = m.ciaddr;
  yiaddr = m.yiaddr;
  siaddr = m.siaddr;
  giaddr = m.giaddr;
}

-- The numbers of 32 bits fit.
pub record AreNarrow (m : DhcpMessage) : Type 0 where
  pub xid_fits : m.xid < 2 ^ 32
  pub ciaddr_fits : m.ciaddr < 2 ^ 32
  pub yiaddr_fits : m.yiaddr < 2 ^ 32
  pub siaddr_fits : m.siaddr < 2 ^ 32
  pub giaddr_fits : m.giaddr < 2 ^ 32

pub read_numbers-number_bytes :
    (m other : DhcpMessage) (rest : Buffer)
    → AreNarrow m
    → other.raw_data ≡ number_bytes m rest
    → read_numbers other ≡ with_numbers_of m other
unfolding read_numbers lr16 lr32
read_numbers-number_bytes m other rest narrow same =
    rw
      (
        same,
        ntohl-low32 m.xid narrow.xid_fits,
        ntohl-low16 (htons m.secs),
        ntohl-low16 (htons m.flags),
        ntohl-low32 m.ciaddr narrow.ciaddr_fits,
        ntohl-low32 m.yiaddr narrow.yiaddr_fits,
        ntohl-low32 m.siaddr narrow.siaddr_fits,
        ntohl-low32 m.giaddr narrow.giaddr_fits,
      )
      refl
