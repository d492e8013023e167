-- ===== src/Checksum/Fold.antt =====
-- The folding loop against the residue modulo 65535 that it stands for.
use mathlib.Core.WellFounded.{Acc}
use dts_net.Base.{ℕ, zero, suc, ◌+◌, ◌%◌, ◌^◌, ◌<◌, lt_wf, ◌≡◌, refl, arith}
use dts_net.Base.{dec_lt, bit_and-mask, ◌≢◌}
use dts_net.Checksum.Defs.{fold_step, fold_acc, fold, checksum_complete}

-- What `fold` leaves: 16 bits of the same residue, zero only for a zero sum.
record IsFolded (acc r : ℕ) : Type 0 where
  below : r < 2 ^ 16
  residue : r % 65535 ≡ acc % 65535
  zero_of : r ≡ 0 → acc ≡ 0
  of_zero : acc ≡ 0 → r ≡ 0

fold_acc-IsFolded : (acc : ℕ) (w : Acc ◌<◌ acc) → IsFolded acc (fold_acc acc w)
unfolding fold_acc dec_lt
fold_acc-IsFolded acc (Acc.intro _ smaller) = grind (
  arith,
  bit_and-mask 16 acc,
  λ (p : fold_step acc < acc). fold_acc-IsFolded (fold_step acc) (smaller (fold_step acc) p),
)

fold-IsFolded : (acc : ℕ) → IsFolded acc (fold acc)
unfolding fold
fold-IsFolded acc = fold_acc-IsFolded acc (lt_wf.apply acc)

-- The closed form of the one's complement sum: 0 for 0, else the residue in 1 .. 65535.
abbrev pub ones_sum : ℕ → ℕ
ones_sum zero = 0
ones_sum (suc n) = n % 65535 + 1

pub fold-ones_sum : (acc : ℕ) → fold acc ≡ ones_sum acc
fold-ones_sum zero = (fold-IsFolded 0).of_zero refl
fold-ones_sum (suc n) =
    let folded = fold-IsFolded (suc n) in
    let nonzero : fold (suc n) ≢ 0 = λ e. absurd (omega (arith, folded.zero_of e)) in
    omega (arith, folded.below, folded.residue)

-- Folding a 64-bit sum ends with the complement of its closed form: the checksum of a sum 0 is
-- 65535, and of any other sum `acc` it is 65535 less the residue of `acc` in 1 .. 65535.
pub checksum_complete-ones_sum : (acc : ℕ) → checksum_complete acc + ones_sum acc ≡ 65535
unfolding checksum_complete
checksum_complete-ones_sum acc = omega (arith, fold-ones_sum acc, (fold-IsFolded acc).below)

-- RFC 1071: a sum together with its own checksum is congruent to 0 modulo 65535.
pub checksum_complete-verifies : (acc : ℕ) → (acc + checksum_complete acc) % 65535 ≡ 0
checksum_complete-verifies zero = omega (arith, checksum_complete-ones_sum 0)
checksum_complete-verifies (suc n) = omega (arith, checksum_complete-ones_sum (suc n))

-- A sum together with its checksum is congruent to 0 modulo 65535, as RFC 1071 asks, and the
-- checksum has a closed form: that of a sum 0 is 65535, and that of any other sum `acc` is 65535
-- less the residue of `acc` in 1 .. 65535.
pub checksum_complete-closes :
    (acc : ℕ)
    → (checksum_complete acc + ones_sum acc ≡ 65535) × ((acc + checksum_complete acc) % 65535 ≡ 0)
checksum_complete-closes acc = (checksum_complete-ones_sum acc, checksum_complete-verifies acc)
