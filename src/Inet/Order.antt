-- ===== src/Inet/Order.antt =====
-- The order of the bytes of a number.
use dts_net.Base.{ℕ, ◌+◌, ◌*◌, ◌/◌, ◌%◌, ◌^◌, ◌≡◌, ◌<◌, arith, ap, ◌∙◌, [], ◌∷◌, bit_and, bit_or}
use dts_net.Base.{bit_or-shifted, bit_or-high, bit_and-high, bit_and-mask}
use dts_net.Endian.{lr32}
use dts_net.Inet.Defs.{htonl}

module _ (a b c d : ℕ) (a8 : a < 2 ^ 8) (b8 : b < 2 ^ 8) (c8 : c < 2 ^ 8) (d8 : d < 2 ^ 8) where
  pub lr32-four : lr32 (a ∷ b ∷ c ∷ d ∷ []) 0 ≡ d * 2 ^ 24 + c * 2 ^ 16 + b * 2 ^ 8 + a
  unfolding lr32
  lr32-four =
      let e1 = bit_or-shifted 24 d (c * 2 ^ 16) (omega arith) in
      let e2 = bit_or-shifted 16 (d * 2 ^ 8 + c) (b * 2 ^ 8) (omega arith) in
      let e3 = bit_or-shifted 8 (d * 2 ^ 16 + c * 2 ^ 8 + b) a a8 in
      let j2 : d * 2 ^ 24 + c * 2 ^ 16 ≡ (d * 2 ^ 8 + c) * 2 ^ 16 = omega arith in
      let j3 : (d * 2 ^ 8 + c) * 2 ^ 16 + b * 2 ^ 8 ≡ (d * 2 ^ 16 + c * 2 ^ 8 + b) * 2 ^ 8 =
        omega arith in
      rw (e1, j2, e2, j3, e3) (omega arith)

  -- `htonl` turns the four bytes round.
  pub htonl-four :
      htonl (d * 2 ^ 24 + c * 2 ^ 16 + b * 2 ^ 8 + a) ≡ a * 2 ^ 24 + b * 2 ^ 16 + c * 2 ^ 8 + d
  unfolding htonl
  htonl-four =
      let n = d * 2 ^ 24 + c * 2 ^ 16 + b * 2 ^ 8 + a in
      let top : n * 2 ^ 24 % 2 ^ 32 ≡ a * 2 ^ 24 = omega arith in
      let low : n / 2 ^ 24 ≡ d = omega arith in
      let at_c : n ≡ (d * 2 ^ 8 + c) * 2 ^ 16 + (b * 2 ^ 8 + a) = omega arith in
      let at_b : n ≡ (d * 2 ^ 16 + c * 2 ^ 8 + b) * 2 ^ 8 + a = omega arith in
      let masked_c : bit_and n 0x00ff_0000 ≡ bit_and (d * 2 ^ 8 + c) 255 * 2 ^ 16 =
        ap (λ x. bit_and x 0x00ff_0000) at_c
        ∙ bit_and-high 16 (d * 2 ^ 8 + c) (b * 2 ^ 8 + a) 255 (omega arith) in
      let masked_b : bit_and n 0x0000_ff00 ≡ bit_and (d * 2 ^ 16 + c * 2 ^ 8 + b) 255 * 2 ^ 8 =
        ap (λ x. bit_and x 0x0000_ff00) at_b
        ∙ bit_and-high 8 (d * 2 ^ 16 + c * 2 ^ 8 + b) a 255 a8 in
      let c_field : bit_and n 0x00ff_0000 / 2 ^ 8 ≡ c * 2 ^ 8 =
        omega (arith, masked_c, bit_and-mask 8 (d * 2 ^ 8 + c)) in
      let b_field : bit_and n 0x0000_ff00 * 2 ^ 8 ≡ b * 2 ^ 16 =
        omega (arith, masked_b, bit_and-mask 8 (d * 2 ^ 16 + c * 2 ^ 8 + b)) in
      let outer = bit_or-shifted 24 a d (omega arith) in
      let pair : a * 2 ^ 24 + d ≡ (a * 2 ^ 16) * 2 ^ 8 + d = omega arith in
      let with_c : bit_or (a * 2 ^ 24 + d) (c * 2 ^ 8) ≡ (a * 2 ^ 16 + c) * 2 ^ 8 + d =
        ap (λ x. bit_or x (c * 2 ^ 8)) pair
        ∙ (bit_or-high 8 (a * 2 ^ 16) d c d8
            ∙ ap (λ x. x * 2 ^ 8 + d) (bit_or-shifted 16 a c (omega arith))) in
      let triple : (a * 2 ^ 16 + c) * 2 ^ 8 + d ≡ (a * 2 ^ 8) * 2 ^ 16 + (c * 2 ^ 8 + d) =
        omega arith in
      let with_b : bit_or ((a * 2 ^ 16 + c) * 2 ^ 8 + d) (b * 2 ^ 16)
          ≡ (a * 2 ^ 8 + b) * 2 ^ 16 + (c * 2 ^ 8 + d) =
        ap (λ x. bit_or x (b * 2 ^ 16)) triple
        ∙ (bit_or-high 16 (a * 2 ^ 8) (c * 2 ^ 8 + d) b (omega arith)
            ∙ ap (λ x. x * 2 ^ 16 + (c * 2 ^ 8 + d)) (bit_or-shifted 8 a b b8)) in
      rw (top, low, c_field, b_field, outer, with_c, with_b) (omega arith)
