-- ===== src/Base/Bits.antt =====
-- Laws of `&` with a low mask and `|` of disjoint fields, at every width. The native operations
-- mean `bitwise`, a recursion on binary digits whose fuel is dropped here.
use Prim.Native.Nat.{ℕ, zero, suc, ◌+◌, ◌-◌, ◌*◌, ◌/◌, ◌%◌, ◌^◌, ◌≤◌, ◌<◌, min, max}
use Prim.Native.Nat.{bit_and, bit_or, digits, bit_and-bitwise, bit_or-bitwise}
use mathlib.Core.Path.{◌≡◌, refl, ap, ◌∙◌}
use native.Mathlib.Nat.{pow-suc, one-le-pow}
use native.Mathlib.Omega.{arith}

-- More fuel than the number itself changes nothing.
module _ (z : ℕ → ℕ) (f : ℕ → ℕ → ℕ) where
  digits-fuel : (k l x y : ℕ) → x ≤ k → x ≤ l → digits z f k x y ≡ digits z f l x y
  digits-fuel zero zero zero y h h' = refl
  digits-fuel zero (suc l) zero y h h' = refl
  digits-fuel (suc k) zero zero y h h' = refl
  digits-fuel (suc k) (suc l) zero y h h' = refl
  digits-fuel zero l (suc x) y h h' = absurd (omega arith)
  digits-fuel (suc k) zero (suc x) y h h' = absurd (omega arith)
  digits-fuel (suc k) (suc l) (suc x) y h h' =
      omega (arith, digits-fuel k l (suc x / 2) (y / 2) (omega arith) (omega arith))

zero-bit_or : (y : ℕ) → bit_or 0 y ≡ y
zero-bit_or y = bit_or-bitwise 0 y

zero-bit_and : (y : ℕ) → bit_and 0 y ≡ 0
zero-bit_and y = bit_and-bitwise 0 y

bit_or-halves : (x y : ℕ) → bit_or x y ≡ 2 * bit_or (x / 2) (y / 2) + max (x % 2) (y % 2)
bit_or-halves zero y = omega (arith, zero-bit_or y, zero-bit_or (y / 2))
bit_or-halves (suc x) y = omega (
  arith,
  bit_or-bitwise (suc x) y,
  bit_or-bitwise (suc x / 2) (y / 2),
  digits-fuel (λ b. b) max x (suc x / 2) (suc x / 2) (y / 2) (omega arith) (omega arith),
)

bit_and-halves : (x y : ℕ) → bit_and x y ≡ 2 * bit_and (x / 2) (y / 2) + min (x % 2) (y % 2)
bit_and-halves zero y = omega (arith, zero-bit_and y, zero-bit_and (y / 2))
bit_and-halves (suc x) y = omega (
  arith,
  bit_and-bitwise (suc x) y,
  bit_and-bitwise (suc x / 2) (y / 2),
  digits-fuel (λ b. 0) min x (suc x / 2) (suc x / 2) (y / 2) (omega arith) (omega arith),
)

-- A number below `n` halves to zero in `n` steps, so `n` bounds the induction.
bit_or-zero_fuel : (n x : ℕ) → x ≤ n → bit_or x 0 ≡ x
bit_or-zero_fuel n zero h = refl
bit_or-zero_fuel zero (suc x) h = absurd (omega arith)
bit_or-zero_fuel (suc n) (suc x) h =
    omega (arith, bit_or-halves (suc x) 0, bit_or-zero_fuel n (suc x / 2) (omega arith))

bit_and-zero_fuel : (n x : ℕ) → x ≤ n → bit_and x 0 ≡ 0
bit_and-zero_fuel n zero h = refl
bit_and-zero_fuel zero (suc x) h = absurd (omega arith)
bit_and-zero_fuel (suc n) (suc x) h =
    omega (arith, bit_and-halves (suc x) 0, bit_and-zero_fuel n (suc x / 2) (omega arith))

-- `(hi << k) | lo` is a sum where `lo` fits `k` bits.
pub bit_or-shifted : (k hi lo : ℕ) → lo < 2 ^ k → bit_or (hi * 2 ^ k) lo ≡ hi * 2 ^ k + lo
bit_or-shifted zero hi zero fits = omega (arith, bit_or-zero_fuel (hi * 2 ^ 0) (hi * 2 ^ 0))
bit_or-shifted zero hi (suc lo) fits = absurd (omega arith)
bit_or-shifted (suc k) hi lo fits =
    let double : hi * 2 ^ suc k ≡ 2 * (hi * 2 ^ k) =
      omega (arith, ap (λ (t : ℕ). hi * t) (pow-suc 2 k)) in
    let fits' : lo / 2 < 2 ^ k = omega (arith, pow-suc 2 k) in
    ground (arith, double, bit_or-halves (hi * 2 ^ suc k) lo, bit_or-shifted k hi (lo / 2) fits')

-- The mask of the `k` low bits keeps the part below `2 ^ k`.
bit_and-low : (k x hi lo : ℕ) → x ≡ hi * 2 ^ k + lo → lo < 2 ^ k → bit_and x (2 ^ k - 1) ≡ lo
bit_and-low zero x hi lo e fits = omega (arith, bit_and-zero_fuel x x)
bit_and-low (suc k) x hi lo e fits =
    let double : hi * 2 ^ suc k ≡ 2 * (hi * 2 ^ k) =
      omega (arith, ap (λ (t : ℕ). hi * t) (pow-suc 2 k)) in
    let half : x / 2 ≡ hi * 2 ^ k + lo / 2 = omega arith in
    let fits' : lo / 2 < 2 ^ k = omega (arith, pow-suc 2 k) in
    ground (
      arith,
      bit_and-halves x (2 ^ suc k - 1),
      pow-suc 2 k,
      bit_and-low k (x / 2) hi (lo / 2) half fits',
    )

pub bit_and-mask : (k x : ℕ) → bit_and x (2 ^ k - 1) ≡ x % 2 ^ k
bit_and-mask k x = ground (arith, one-le-pow k 2, bit_and-low k x (x / 2 ^ k) (x % 2 ^ k))

bit_and-le_fuel : (n x y : ℕ) → y ≤ n → bit_and x y ≤ y
bit_and-le_fuel n x zero h = omega (arith, bit_and-zero_fuel x x)
bit_and-le_fuel zero x (suc y) h = absurd (omega arith)
bit_and-le_fuel (suc n) x (suc y) h =
    omega (arith, bit_and-halves x (suc y), bit_and-le_fuel n (x / 2) (suc y / 2) (omega arith))

-- A mask bounds what is left.
pub bit_and-le : (x y : ℕ) → bit_and x y ≤ y
bit_and-le x y = bit_and-le_fuel y x y (omega arith)

-- A mask of high digits cuts the low ones.
pub bit_and-high :
    (k hi lo mask : ℕ)
    → lo < 2 ^ k
    → bit_and (hi * 2 ^ k + lo) (mask * 2 ^ k) ≡ bit_and hi mask * 2 ^ k
bit_and-high zero hi zero mask fits =
    let e1 : hi * 2 ^ 0 + 0 ≡ hi = omega arith in
    let e2 : mask * 2 ^ 0 ≡ mask = omega arith in rw (e1, e2) (omega arith)
bit_and-high zero hi (suc lo) mask fits = absurd (omega arith)
bit_and-high (suc k) hi lo mask fits =
    let x = hi * 2 ^ suc k + lo in
    let y = mask * 2 ^ suc k in
    let double : hi * 2 ^ suc k ≡ 2 * (hi * 2 ^ k) =
      omega (arith, ap (λ (t : ℕ). hi * t) (pow-suc 2 k)) in
    let double_mask : mask * 2 ^ suc k ≡ 2 * (mask * 2 ^ k) =
      omega (arith, ap (λ (t : ℕ). mask * t) (pow-suc 2 k)) in
    let double_and : bit_and hi mask * 2 ^ suc k ≡ 2 * (bit_and hi mask * 2 ^ k) =
      omega (arith, ap (λ (t : ℕ). bit_and hi mask * t) (pow-suc 2 k)) in
    let half : x / 2 ≡ hi * 2 ^ k + lo / 2 = omega arith in
    let half_mask : y / 2 ≡ mask * 2 ^ k = omega arith in
    let even : y % 2 ≡ 0 = omega arith in
    let fits' : lo / 2 < 2 ^ k = omega (arith, pow-suc 2 k) in
    bit_and-halves x y
    ∙ rw (half, half_mask, even) (omega (arith, bit_and-high k hi (lo / 2) mask fits'))

-- Fields above the low digits are joined above them.
pub bit_or-high :
    (k x lo y : ℕ) → lo < 2 ^ k → bit_or (x * 2 ^ k + lo) (y * 2 ^ k) ≡ bit_or x y * 2 ^ k + lo
bit_or-high zero x zero y fits =
    let e1 : x * 2 ^ 0 + 0 ≡ x = omega arith in
    let e2 : y * 2 ^ 0 ≡ y = omega arith in rw (e1, e2) (omega arith)
bit_or-high zero x (suc lo) y fits = absurd (omega arith)
bit_or-high (suc k) x lo y fits =
    let u = x * 2 ^ suc k + lo in
    let v = y * 2 ^ suc k in
    let double : x * 2 ^ suc k ≡ 2 * (x * 2 ^ k) =
      omega (arith, ap (λ (t : ℕ). x * t) (pow-suc 2 k)) in
    let double_y : y * 2 ^ suc k ≡ 2 * (y * 2 ^ k) =
      omega (arith, ap (λ (t : ℕ). y * t) (pow-suc 2 k)) in
    let double_or : bit_or x y * 2 ^ suc k ≡ 2 * (bit_or x y * 2 ^ k) =
      omega (arith, ap (λ (t : ℕ). bit_or x y * t) (pow-suc 2 k)) in
    let half : u / 2 ≡ x * 2 ^ k + lo / 2 = omega arith in
    let half_y : v / 2 ≡ y * 2 ^ k = omega arith in
    let even : v % 2 ≡ 0 = omega arith in
    let fits' : lo / 2 < 2 ^ k = omega (arith, pow-suc 2 k) in
    bit_or-halves u v ∙ rw (half, half_y, even) (omega (arith, bit_or-high k x (lo / 2) y fits'))
