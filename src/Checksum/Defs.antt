-- ===== src/Checksum/Defs.antt =====
-- The functions of include/dts/net/checksum.h.
use mathlib.Core.WellFounded.{Acc}
use dts_net.Base.{ℕ, zero, suc, ◌+◌, ◌-◌, ◌%◌, ◌^◌, ◌<◌, bit_and, drop, lt_wf}
use dts_net.Base.{dite, dec_lt, arith, bit_and-mask}
use dts_net.Endian.{Buffer, br16, ◌>>>◌}

-- The loop of `checksum_accmulate` over the bytes that are left: two a round, `data` moving on.
unfoldable pub checksum_accmulate : ℕ → Buffer → ℕ → ℕ
checksum_accmulate acc buf zero = acc
checksum_accmulate acc buf (suc zero) = (acc + br16 buf 0) % 2 ^ 64
checksum_accmulate acc buf (suc (suc n)) =
    checksum_accmulate ((acc + br16 buf 0) % 2 ^ 64) (drop 2 buf) n

-- The same loop in `checksum`, over a `uint32_t` sum.
unfoldable pub sum_words : ℕ → Buffer → ℕ → ℕ
sum_words sum buf zero = sum
sum_words sum buf (suc zero) = (sum + br16 buf 0) % 2 ^ 32
sum_words sum buf (suc (suc n)) = sum_words ((sum + br16 buf 0) % 2 ^ 32) (drop 2 buf) n

abbrev pub fold_step : ℕ → ℕ
fold_step acc = bit_and acc 0xffff + (acc >>> 16)

pub fold_step-lt : (acc : ℕ) → 0 < acc >>> 16 → fold_step acc < acc
fold_step-lt acc h = omega (arith, bit_and-mask 16 acc)

-- `while (acc >> 16) acc = (acc & 0xFFFF) + (acc >> 16)`, which ends since `acc` falls.
unfoldable pub fold_acc : (acc : ℕ) → Acc ◌<◌ acc → ℕ
unfolding dec_lt
fold_acc acc (Acc.intro _ smaller) =
    dite (dec_lt 0 (acc >>> 16))
      (λ h. fold_acc (fold_step acc) (smaller (fold_step acc) (fold_step-lt acc h))) (λ _. acc)

unfoldable pub fold : ℕ → ℕ
unfolding fold_acc lt_wf
fold acc = fold_acc acc (lt_wf.apply acc)

-- `return ~acc` as a `uint16_t`.
abbrev pub complement16 : ℕ → ℕ
complement16 acc = 2 ^ 16 - 1 - acc % 2 ^ 16

unfoldable pub checksum_complete : ℕ → ℕ
unfolding fold
checksum_complete acc = complement16 (fold acc)

unfoldable pub checksum : Buffer → ℕ → ℕ
unfolding fold sum_words
checksum buf size = complement16 (fold (sum_words 0 buf size))
