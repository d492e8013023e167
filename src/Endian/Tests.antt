-- ===== src/Endian/Tests.antt =====
-- The byte-order functions on concrete buffers.
use dts_net.Base.{◌≡◌, refl, [], ◌∷◌}
use dts_net.Endian.Defs.{br16, bw16, br32, bw32}

-- A value of 33 bits, written at the end of five bytes.
low_16_bits : br16 (bw16 0x1_c0a8_0001 (9 ∷ 1 ∷ 2 ∷ 3 ∷ 4 ∷ []) 1).0 1 ≡ 1
unfolding br16 bw16
low_16_bits = refl

low_32_bits : br32 (bw32 0x1_c0a8_0001 (9 ∷ 1 ∷ 2 ∷ 3 ∷ 4 ∷ []) 1).0 1 ≡ 0xc0a8_0001
unfolding br32 bw32
low_32_bits = refl
