-- ===== src/Inet/Tests.antt =====
-- `atoi` and `strchr` as the C library has them, and texts that are no addresses.
use dts_net.Base.{ℕ, ◌+◌, ◌-◌, ◌*◌, ◌≡◌, refl, arith, Option, none, some, [], ◌∷◌, ◌++◌}
use dts_net.Base.{if◌then◌else◌, leb, ◌==◌, ◌&&◌}
use dts_net.Endian.{Buffer}
use dts_net.Inet.Defs.{inet_addr}
use dts_net.Inet.Text.{CText, AreDigits, value, inet_addr-short}

-- Digits up to the first other character.
pub leading : ℕ → Buffer → ℕ
leading n [] = n
leading n (c ∷ s) =
    let rest = leading (n * 10 + (c - b'0')) s in if leb b'0' c && leb c b'9' then rest else n

-- From the first `x` on, unless the text ends before.
pub find_char : ℕ → Buffer → Option Buffer
find_char x [] = none
find_char x (c ∷ s) =
    let rest = find_char x s in if c == x then some (c ∷ s) else if c == 0 then none else rest

pub leading-dot :
    (n : ℕ) (s rest : Buffer) → AreDigits s → leading n (s ++ (b'.' ∷ rest)) ≡ value n s
unfolding leading
leading-dot n [] rest h = refl
leading-dot n (c ∷ s) rest (d, h) = ground (arith, leading-dot (n * 10 + (c - b'0')) s rest h)

pub leading-end : (n : ℕ) (s rest : Buffer) → AreDigits s → leading n (s ++ (0 ∷ rest)) ≡ value n s
unfolding leading
leading-end n [] rest h = refl
leading-end n (c ∷ s) rest (d, h) = ground (arith, leading-end (n * 10 + (c - b'0')) s rest h)

pub find_char-dot :
    (s rest : Buffer) → AreDigits s → find_char b'.' (s ++ (b'.' ∷ rest)) ≡ some (b'.' ∷ rest)
unfolding find_char
find_char-dot [] rest h = refl
find_char-dot (c ∷ s) rest (d, h) = ground (arith, find_char-dot s rest h)

pub find_char-end : (s rest : Buffer) → AreDigits s → find_char b'.' (s ++ (0 ∷ rest)) ≡ none
unfolding find_char
find_char-end [] rest h = refl
find_char-end (c ∷ s) rest (d, h) = ground (arith, find_char-end s rest h)

abbrev pub c_text : CText
c_text = record {
  atoi = leading 0;
  strchr = λ s x. find_char x s;
  atoi_dot = leading-dot 0;
  atoi_end = leading-end 0;
  strchr_dot = find_char-dot;
  strchr_end = find_char-end;
}

-- "10.7"
inet_addr-short_example :
    inet_addr c_text.atoi c_text.strchr (some (b'1' ∷ b'0' ∷ b'.' ∷ b'7' ∷ 0 ∷ [])) ≡ none
inet_addr-short_example =
    inet_addr-short c_text [] (b'1' ∷ b'0' ∷ []) ((b'7' ∷ []) ∷ []) (omega arith) (omega arith)
