-- ===== src/Endian/Defs.antt =====
-- The functions of include/dts/net/endian.h.
use dts_net.Base.{ℕ, ◌+◌, ◌*◌, ◌/◌, ◌^◌, bit_and, bit_or, List, get_or, set}

abbrev pub Buffer : Type 0
Buffer = List ℕ

-- `buf[i]`
abbrev pub byte_at : Buffer → ℕ → ℕ
byte_at buf i = get_or buf i 0

infixl 75 ◌<<<◌ ◌>>>◌
abbrev pub ◌<<<◌ : ℕ → ℕ → ℕ
x <<< k = x * 2 ^ k

abbrev pub ◌>>>◌ : ℕ → ℕ → ℕ
x >>> k = x / 2 ^ k

unfoldable pub lr16 : Buffer → ℕ → ℕ
lr16 buf p = bit_or (byte_at buf (p + 1) <<< 8) (byte_at buf p)

unfoldable pub lw16 : ℕ → Buffer → ℕ → Buffer × ℕ
lw16 v buf p = (set (set buf p (bit_and v 0xff)) (p + 1) (bit_and (v >>> 8) 0xff), p + 2)

unfoldable pub lr32 : Buffer → ℕ → ℕ
lr32 buf p =
    bit_or
      (bit_or (bit_or (byte_at buf (p + 3) <<< 24) (byte_at buf (p + 2) <<< 16))
        (byte_at buf (p + 1) <<< 8))
      (byte_at buf p)

unfoldable pub lw32 : ℕ → Buffer → ℕ → Buffer × ℕ
lw32 v buf p =
    let b0 = set buf p (bit_and v 0xff) in
    let b1 = set b0 (p + 1) (bit_and (v >>> 8) 0xff) in
    let b2 = set b1 (p + 2) (bit_and (v >>> 16) 0xff) in
    (set b2 (p + 3) (bit_and (v >>> 24) 0xff), p + 4)

unfoldable pub br16 : Buffer → ℕ → ℕ
br16 buf p = bit_or (byte_at buf p <<< 8) (byte_at buf (p + 1))

unfoldable pub bw16 : ℕ → Buffer → ℕ → Buffer × ℕ
bw16 v buf p = (set (set buf (p + 1) (bit_and v 0xff)) p (bit_and (v >>> 8) 0xff), p + 2)

unfoldable pub br32 : Buffer → ℕ → ℕ
br32 buf p =
    bit_or
      (bit_or (bit_or (byte_at buf p <<< 24) (byte_at buf (p + 1) <<< 16))
        (byte_at buf (p + 2) <<< 8))
      (byte_at buf (p + 3))

unfoldable pub bw32 : ℕ → Buffer → ℕ → Buffer × ℕ
bw32 v buf p =
    let b3 = set buf (p + 3) (bit_and v 0xff) in
    let b2 = set b3 (p + 2) (bit_and (v >>> 8) 0xff) in
    let b1 = set b2 (p + 1) (bit_and (v >>> 16) 0xff) in (set b1 p (bit_and (v >>> 24) 0xff), p + 4)
