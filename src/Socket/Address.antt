-- ===== src/Socket/Address.antt =====
-- The address that a socket makes of a text, by way of `inet_addr`.
use dts_net.Base.{ℕ, ◌/◌, ◌%◌, ◌^◌, ◌≡◌, ◌<◌, refl, arith, ◌∙◌, some, List, [], ◌∷◌}
use dts_net.Endian.{Buffer}
use dts_net.Inet.{inet_addr}
use dts_net.Inet.Text.{CText, AreNumbers, decimal, dotted, address, inet_addr-address}
use dts_net.Socket.Defs.{nacv}

nacv-address :
    (a b c d : ℕ)
    → a < 2 ^ 8
    → b < 2 ^ 8
    → c < 2 ^ 8
    → d < 2 ^ 8
    → (nacv (address a b c d)).v4 ≡ a ∷ b ∷ c ∷ d ∷ []
unfolding nacv
nacv-address a b c d a8 b8 c8 d8 =
    let n = address a b c d in
    let e0 : n / 2 ^ 24 % 256 ≡ a = omega arith in
    let e1 : n / 2 ^ 16 % 256 ≡ b = omega arith in
    let e2 : n / 2 ^ 8 % 256 ≡ c = omega arith in
    let e3 : n % 256 ≡ d = omega arith in rw (e0, e1, e2, e3) refl

-- Decimal numbers below 256, at least four of them with dots between them: `inet_addr` makes a number
-- of the text, and the address that the sockets make of that number has the first four as its bytes,
-- in the order of the text.
pub nacv-inet_addr :
    (c : CText) (rest p0 p1 p2 p3 : Buffer) (more : List Buffer)
    → AreNumbers (p0 ∷ p1 ∷ p2 ∷ p3 ∷ more)
    → decimal p0 < 2 ^ 8
    → decimal p1 < 2 ^ 8
    → decimal p2 < 2 ^ 8
    → decimal p3 < 2 ^ 8
    → (a : ℕ) × (inet_addr c.atoi c.strchr (some (dotted p0 (p1 ∷ p2 ∷ p3 ∷ more) rest)) ≡ some a)
      × ((nacv a).v4 ≡ decimal p0 ∷ decimal p1 ∷ decimal p2 ∷ decimal p3 ∷ [])
nacv-inet_addr c rest p0 p1 p2 p3 more numbers b0 b1 b2 b3 =
    let small : (p : Buffer) → decimal p < 2 ^ 8 → decimal p % 2 ^ 8 ≡ decimal p =
      λ p h. omega arith in
    (
      address (decimal p0) (decimal p1) (decimal p2) (decimal p3),
      inet_addr-address c rest p0 p1 p2 p3 more numbers
          ∙ (rw (small p0 b0, small p1 b1, small p2 b2, small p3 b3) refl),
      nacv-address (decimal p0) (decimal p1) (decimal p2) (decimal p3) b0 b1 b2 b3,
    )
