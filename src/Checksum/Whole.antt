-- ===== src/Checksum/Whole.antt =====
-- `checksum` against `checksum_accmulate` and `checksum_complete`.
use dts_net.Base.{ℕ, zero, suc, ◌+◌, ◌%◌, ◌^◌, ◌<◌, ◌≡◌, refl, arith, ap, ◌∙◌, drop}
use dts_net.Endian.{Buffer, br16}
use dts_net.Checksum.Defs.{
  checksum_accmulate, sum_words, checksum, checksum_complete, complement16, fold,
}

-- The 32-bit sum is the 64-bit one modulo 2 ^ 32.
sum_words-accmulate :
    (buf : Buffer) (n acc : ℕ)
    → sum_words (acc % 2 ^ 32) buf n ≡ checksum_accmulate acc buf n % 2 ^ 32
unfolding sum_words checksum_accmulate
sum_words-accmulate buf zero acc = refl
sum_words-accmulate buf (suc zero) acc = omega arith
sum_words-accmulate buf (suc (suc n)) acc =
    let w = br16 buf 0 in
    let e : (acc % 2 ^ 32 + w) % 2 ^ 32 ≡ (acc + w) % 2 ^ 64 % 2 ^ 32 = omega arith in
    rw e (sum_words-accmulate (drop 2 buf) n ((acc + w) % 2 ^ 64))

-- The checksum in one call is the one that summing and completing give, where the sum fits the
-- 32 bits that `checksum` sums in.
pub checksum-complete_accmulate :
    (buf : Buffer) (n : ℕ)
    → checksum_accmulate 0 buf n < 2 ^ 32
    → checksum buf n ≡ checksum_complete (checksum_accmulate 0 buf n)
unfolding checksum checksum_complete
checksum-complete_accmulate buf n h =
    let e : sum_words 0 buf n ≡ checksum_accmulate 0 buf n =
      sum_words-accmulate buf n 0 ∙ omega arith in
    ap (λ s. complement16 (fold s)) e
