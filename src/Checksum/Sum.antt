-- ===== src/Checksum/Sum.antt =====
-- The summing loop over a buffer in pieces, and at odd sizes.
use dts_net.Base.{ℕ, suc, ◌+◌, ◌%◌, ◌^◌, ◌<◌, ◌≡◌, arith, refl, [], ◌∷◌, ◌++◌}
use dts_net.Base.{length, bit_or-shifted}
use dts_net.Endian.{Buffer, br16}
use dts_net.Checksum.Defs.{checksum_accmulate, checksum_complete}

-- A block of even size and what follows it are summed one after the other, as `tcp_pack` sums the
-- pseudo header, the header and the payload: the result is the sum over their concatenation.
pub checksum_accmulate-append :
    (xs ys : Buffer) (acc m : ℕ)
    → length xs % 2 ≡ 0
    → checksum_accmulate (checksum_accmulate acc xs (length xs)) ys m
      ≡ checksum_accmulate acc (xs ++ ys) (length xs + m)
unfolding checksum_accmulate br16
checksum_accmulate-append [] ys acc m h = let e : 0 + m ≡ m = omega arith in rw e
checksum_accmulate-append (x ∷ []) ys acc m h = absurd (omega arith)
checksum_accmulate-append (x ∷ x' ∷ xs) ys acc m h =
    let e : suc (suc (length xs)) + m ≡ suc (suc (length xs + m)) = omega arith in
    rw e (checksum_accmulate-append xs ys ((acc + br16 (x ∷ x' ∷ []) 0) % 2 ^ 64) m (omega arith))

-- What lies behind a block of even size does not count.
pub checksum_accmulate_beyond :
    (xs tail : Buffer) (acc : ℕ)
    → length xs % 2 ≡ 0
    → checksum_accmulate acc (xs ++ tail) (length xs) ≡ checksum_accmulate acc xs (length xs)
unfolding checksum_accmulate br16
checksum_accmulate_beyond [] tail acc h = refl
checksum_accmulate_beyond (x ∷ []) tail acc h = absurd (omega arith)
checksum_accmulate_beyond (x ∷ x' ∷ xs) tail acc h =
    checksum_accmulate_beyond xs tail ((acc + br16 (x ∷ x' ∷ []) 0) % 2 ^ 64) (omega arith)

-- A block of odd size is not padded with zero: the loop reads one byte past its end, and the sum
-- is the sum with a zero there plus that byte.
checksum_accmulate_odd :
    (xs rest : Buffer) (next acc : ℕ)
    → length xs % 2 ≡ 1
    → next < 256
    → checksum_accmulate acc (xs ++ next ∷ rest) (length xs)
      ≡ (checksum_accmulate acc (xs ++ 0 ∷ rest) (length xs) + next) % 2 ^ 64
unfolding checksum_accmulate br16
checksum_accmulate_odd [] rest next acc h b = absurd (omega arith)
checksum_accmulate_odd (x ∷ []) rest next acc h b =
    omega (arith, bit_or-shifted 8 x next b, bit_or-shifted 8 x 0 (omega arith))
checksum_accmulate_odd (x ∷ x' ∷ xs) rest next acc h b =
    checksum_accmulate_odd xs rest next ((acc + br16 (x ∷ x' ∷ []) 0) % 2 ^ 64) (omega arith) b

-- The checksum has 16 bits.
pub complete-small : (acc : ℕ) → checksum_complete acc < 2 ^ 16
unfolding checksum_complete
complete-small acc = omega arith
