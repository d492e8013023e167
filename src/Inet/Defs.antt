-- ===== src/Inet/Defs.antt =====
-- `htonl`, `htons`, `ntohl`, `ntohs` and `inet_addr` of include/arpa/inet.h. `atoi` and `strchr` are the C
-- library's: a pointer to text is what lies behind it, and the result of `strchr` may be NULL.
use dts_net.Base.{ℕ, zero, suc, ◌%◌, ◌^◌, bit_and, bit_or, Option, none, some, set, replicate, drop}
use dts_net.Endian.{Buffer, lr32, ◌<<<◌, ◌>>>◌}

unfoldable pub htonl : ℕ → ℕ
htonl hl =
    bit_or (bit_or (bit_or ((hl <<< 24) % 2 ^ 32) (hl >>> 24)) (bit_and hl 0x00ff_0000 >>> 8))
      (bit_and hl 0x0000_ff00 <<< 8)

unfoldable pub htons : ℕ → ℕ
htons hs = bit_or (hs <<< 8) (hs >>> 8) % 2 ^ 16

abbrev pub ntohl : ℕ → ℕ
ntohl nl = htonl nl

abbrev pub ntohs : ℕ → ℕ
ntohs ns = htons ns

-- `++str`: past the character found; from NULL it leads to an address where nothing may be read.
abbrev past : Option Buffer → Option Buffer
past none = none
past (some s) = some (drop 1 s)

abbrev host_order : Option Buffer → Option ℕ
host_order none = none
host_order (some hl) = some (htonl (lr32 hl 0))

module _ (atoi : Buffer → ℕ) (strchr : Buffer → ℕ → Option Buffer) where
  -- The loop with `left` rounds to go, for the byte `i`; it does not test for NULL, since `++str` has
  -- moved on. `none` is a read behind NULL.
  unfoldable pub inet_loop : ℕ → ℕ → Option Buffer → Buffer → Option Buffer
  inet_loop zero i str hl = some hl
  inet_loop (suc left) i none hl = none
  inet_loop (suc left) i (some s) hl =
      inet_loop left (suc i) (past (strchr s b'.')) (set hl i (atoi s % 2 ^ 8))

  unfoldable pub inet_addr : Option Buffer → Option ℕ
  inet_addr none = some (htonl 0)
  inet_addr (some s) = host_order (inet_loop 4 0 (some s) (replicate 4 0))
