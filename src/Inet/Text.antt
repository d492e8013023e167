-- ===== src/Inet/Text.antt =====
-- `inet_addr` of decimal numbers with dots between them, and the bytes that `nacv` makes of it.
use dts_net.Base.{ℕ, zero, suc, ◌+◌, ◌-◌, ◌*◌, ◌%◌, ◌^◌, ◌≡◌, ◌≤◌, ◌<◌, refl, arith}
use dts_net.Base.{Option, none, some, List, [], ◌∷◌, ◌++◌, set, replicate, length}
use dts_net.Endian.{Buffer}
use dts_net.Inet.Order.{lr32-four, htonl-four}
use dts_net.Inet.Defs.{inet_loop, inet_addr}

-- Digits only.
abbrev pub IsDigit : ℕ → Type 0
IsDigit c = (b'0' ≤ c) × (c ≤ b'9')

abbrev pub AreDigits : Buffer → Type 0
AreDigits [] = Unit {0}
AreDigits (c ∷ s) = IsDigit c × AreDigits s

abbrev pub value : ℕ → Buffer → ℕ
value n [] = n
value n (c ∷ s) = value (n * 10 + (c - b'0')) s

-- The number that digits spell.
abbrev pub decimal : Buffer → ℕ
decimal s = value 0 s

-- What `atoi` and `strchr` do: the digits up to a dot or the end are a number, and the first dot is
-- found, unless the text ends before.
pub record CText : Type 0 where
  pub atoi : Buffer → ℕ
  pub strchr : Buffer → ℕ → Option Buffer
  pub atoi_dot : (s rest : Buffer) → AreDigits s → atoi (s ++ (b'.' ∷ rest)) ≡ decimal s
  pub atoi_end : (s rest : Buffer) → AreDigits s → atoi (s ++ (0 ∷ rest)) ≡ decimal s
  pub strchr_dot :
      (s rest : Buffer) → AreDigits s → strchr (s ++ (b'.' ∷ rest)) b'.' ≡ some (b'.' ∷ rest)
  pub strchr_end : (s rest : Buffer) → AreDigits s → strchr (s ++ (0 ∷ rest)) b'.' ≡ none

abbrev pub AreNumbers : List Buffer → Type 0
AreNumbers [] = Unit {0}
AreNumbers (p ∷ ps) = AreDigits p × AreNumbers ps

-- Numbers with dots between them, the end of the text, and what lies behind it.
abbrev pub dotted : Buffer → List Buffer → Buffer → Buffer
dotted p [] rest = p ++ (0 ∷ rest)
dotted p (q ∷ ps) rest = p ++ (b'.' ∷ dotted q ps rest)

abbrev text_of : List Buffer → Buffer → Option Buffer
text_of [] rest = none
text_of (p ∷ ps) rest = some (dotted p ps rest)

-- The bytes that the rounds write.
abbrev written : ℕ → ℕ → List Buffer → Buffer → Option Buffer
written zero i ps hl = some hl
written (suc left) i [] hl = none
written (suc left) i (p ∷ ps) hl = written left (suc i) ps (set hl i (decimal p % 2 ^ 8))

module _ (c : CText) (rest : Buffer) where
  inet_loop-written :
      (left i : ℕ) (ps : List Buffer) (hl : Buffer)
      → AreNumbers ps
      → inet_loop c.atoi c.strchr left i (text_of ps rest) hl ≡ written left i ps hl
  unfolding inet_loop
  inet_loop-written zero i ps hl h = refl
  inet_loop-written (suc left) i [] hl h = refl
  inet_loop-written (suc left) i (p ∷ []) hl (d, h) =
      rw (c.atoi_end p rest d, c.strchr_end p rest d) (inet_loop-written left (suc i) [] _ h)
  inet_loop-written (suc left) i (p ∷ q ∷ ps) hl (d, h) =
      rw (c.atoi_dot p (dotted q ps rest) d, c.strchr_dot p (dotted q ps rest) d)
        (inet_loop-written left (suc i) (q ∷ ps) _ h)

too_few :
    (p : Buffer) (ps : List Buffer) → length ps < 3 → written 4 0 (p ∷ ps) (replicate 4 0) ≡ none
too_few p [] few = refl
too_few p (_ ∷ []) few = refl
too_few p (_ ∷ _ ∷ []) few = refl
too_few p (_ ∷ _ ∷ _ ∷ ps) few = absurd (omega arith)

-- The number whose digits to the base 256 these are.
abbrev pub address : ℕ → ℕ → ℕ → ℕ → ℕ
address a b c d = a * 2 ^ 24 + b * 2 ^ 16 + c * 2 ^ 8 + d

module _ (c : CText) (rest : Buffer) where
  pub inet_addr-address :
      (p0 p1 p2 p3 : Buffer) (more : List Buffer)
      → AreNumbers (p0 ∷ p1 ∷ p2 ∷ p3 ∷ more)
      → inet_addr c.atoi c.strchr (some (dotted p0 (p1 ∷ p2 ∷ p3 ∷ more) rest))
        ≡ some (
            address
              (decimal p0 % 2 ^ 8)
              (decimal p1 % 2 ^ 8)
              (decimal p2 % 2 ^ 8)
              (decimal p3 % 2 ^ 8))
  unfolding inet_addr
  inet_addr-address p0 p1 p2 p3 more numbers =
      let v : Buffer → ℕ = λ p. decimal p % 2 ^ 8 in
      let small : (p : Buffer) → v p < 2 ^ 8 = λ p. omega arith in
      let looped =
        inet_loop-written c rest 4 0 (p0 ∷ p1 ∷ p2 ∷ p3 ∷ more) (replicate 4 0) numbers in
      let little =
        lr32-four (v p0) (v p1) (v p2) (v p3) (small p0) (small p1) (small p2) (small p3) in
      let turned =
        htonl-four (v p0) (v p1) (v p2) (v p3) (small p0) (small p1) (small p2) (small p3) in
      rw (looped, little, turned) refl

  -- A text of at least one and at most three decimal numbers with dots between them: `inet_addr` goes on
  -- past the NULL that `strchr` gives behind the last number, and reads there.
  pub inet_addr-short :
      (p : Buffer) (ps : List Buffer)
      → AreNumbers (p ∷ ps)
      → length ps < 3
      → inet_addr c.atoi c.strchr (some (dotted p ps rest)) ≡ none
  unfolding inet_addr
  inet_addr-short p ps numbers few =
      rw (inet_loop-written c rest 4 0 (p ∷ ps) (replicate 4 0) numbers, too_few p ps few) refl
