-- ===== src/Bytes.antt =====
-- Writing blocks of bytes into memory: `memcpy`, `memset` and `*ptr++ = x` at an index of a buffer.
use dts_net.Base.{ℕ, zero, suc, ◌+◌, ◌-◌, ◌%◌, ◌≤◌, ◌<◌, ◌≡◌, refl, arith, sym, ap₂, ◌∙◌, ◌⊎◌}
use dts_net.Base.{[], ◌∷◌, ◌++◌, ltb, if◌then◌else◌, length, set, take, drop, replicate}
use dts_net.Base.{length-append, length-take, length-drop}
use dts_net.Endian.{Buffer, byte_at, br16, bw16, byte_at-bw16, length-bw16}

-- `memcpy(buf + p, src, n)`
abbrev pub copy_at : Buffer → ℕ → Buffer → ℕ → Buffer
copy_at buf p src n = take p buf ++ (take n src ++ drop (p + n) buf)

-- `memset(buf, 0, n)`
abbrev pub clear : Buffer → ℕ → Buffer
clear buf n = replicate n 0 ++ drop n buf

-- `buf[p] = v` for a value of any width.
abbrev pub put8 : ℕ → ℕ → Buffer → Buffer
put8 p v buf = set buf p (v % 256)

-- `n` bytes from `p` on.
abbrev pub slice : Buffer → ℕ → ℕ → Buffer
slice buf p n = take n (drop p buf)

byte_at-append :
    (xs ys : Buffer) (j : ℕ)
    → byte_at (xs ++ ys) j
      ≡ (if ltb j (length xs) then byte_at xs j else byte_at ys (j - length xs))
byte_at-append [] ys j = let e : j - 0 ≡ j = omega arith in rw e (ground arith)
byte_at-append (x ∷ xs) ys zero = ground arith
byte_at-append (x ∷ xs) ys (suc j) = ground (arith, byte_at-append xs ys j)

byte_at-take : (n : ℕ) (xs : Buffer) (j : ℕ) → j < n → byte_at (take n xs) j ≡ byte_at xs j
byte_at-take zero xs j h = absurd (omega arith)
byte_at-take (suc n) [] j h = refl
byte_at-take (suc n) (x ∷ xs) zero h = refl
byte_at-take (suc n) (x ∷ xs) (suc j) h = byte_at-take n xs j (omega arith)

pub byte_at-drop : (n : ℕ) (xs : Buffer) (j : ℕ) → byte_at (drop n xs) j ≡ byte_at xs (n + j)
byte_at-drop zero xs j = let e : 0 + j ≡ j = omega arith in rw e
byte_at-drop (suc n) [] j = refl
byte_at-drop (suc n) (x ∷ xs) j =
    let e : suc n + j ≡ suc (n + j) = omega arith in rw e (byte_at-drop n xs j)

-- What a read sees after a block was written.
pub byte_at-copy_at :
    (buf src : Buffer) (p n j : ℕ)
    → p + n ≤ length buf
    → n ≤ length src
    → byte_at (copy_at buf p src n) j ≡ (
        if ltb j p
        then byte_at buf j
        else if ltb j (p + n)
        then byte_at src (j - p)
        else byte_at buf j)
byte_at-copy_at buf src p n j h m = ground (
  arith,
  byte_at-append (take p buf) (take n src ++ drop (p + n) buf) j,
  byte_at-append (take n src) (drop (p + n) buf) (j - p),
  byte_at-take p buf j,
  byte_at-take n src (j - p),
  byte_at-drop (p + n) buf (j - p - length (take n src)),
  byte_at-drop (p + n) buf (j - length (take p buf) - length (take n src)),
  byte_at-append (take n src) (drop (p + n) buf) (j - length (take p buf)),
  byte_at-take n src (j - length (take p buf)),
  length-take p buf,
  length-take n src,
)

pub length-copy_at :
    (buf src : Buffer) (p n : ℕ)
    → p + n ≤ length buf
    → n ≤ length src
    → length (copy_at buf p src n) ≡ length buf
length-copy_at buf src p n h m = omega (
  arith,
  length-append (take p buf) (take n src ++ drop (p + n) buf),
  length-append (take n src) (drop (p + n) buf),
  length-take p buf,
  length-take n src,
  length-drop (p + n) buf,
)

prefix_same :
    (n : ℕ) (xs ys : Buffer)
    → n ≤ length xs
    → n ≤ length ys
    → ((j : ℕ) → j < n → byte_at xs j ≡ byte_at ys j)
    → take n xs ≡ take n ys
prefix_same zero xs ys h m same = refl
prefix_same (suc n) [] ys h m same = absurd (omega arith)
prefix_same (suc n) (x ∷ xs) [] h m same = absurd (omega arith)
prefix_same (suc n) (x ∷ xs) (y ∷ ys) h m same =
    ap₂ ◌∷◌ (same 0 (omega arith))
      (prefix_same n xs ys (omega arith) (omega arith) (λ j l. same (suc j) (omega arith)))

-- A slice is its bytes.
pub slice_same :
    (xs ys : Buffer) (p q n : ℕ)
    → p + n ≤ length xs
    → q + n ≤ length ys
    → ((j : ℕ) → j < n → byte_at xs (p + j) ≡ byte_at ys (q + j))
    → slice xs p n ≡ slice ys q n
slice_same xs ys p q n h m same =
    prefix_same n (drop p xs) (drop q ys) (omega (arith, length-drop p xs))
      (omega (arith, length-drop q ys))
      (λ j l. byte_at-drop p xs j ∙ same j l ∙ sym (byte_at-drop q ys j))

module _ (buf src : Buffer) (q m : ℕ) (h : q + m ≤ length buf) (l : m ≤ length src) where
  -- What was copied in is read back.
  pub slice-copy_at : slice (copy_at buf q src m) q m ≡ take m src
  slice-copy_at =
      slice_same (copy_at buf q src m) src q 0 m (omega (arith, length-copy_at buf src q m h l))
        (omega arith) (λ j b. ground (arith, byte_at-copy_at buf src q m (q + j) h l))

  -- What lies beside it is not touched.
  pub slice-copy_at_other :
      (p n : ℕ)
      → p + n ≤ length buf
      → (p + n ≤ q) ⊎ (q + m ≤ p)
      → slice (copy_at buf q src m) p n ≡ slice buf p n
  slice-copy_at_other p n b apart =
      slice_same (copy_at buf q src m) buf p p n (omega (arith, length-copy_at buf src q m h l)) b
        (λ j i. ground (arith, byte_at-copy_at buf src q m (p + j) h l))

  pub br16-copy_at_other :
      (p : ℕ) → (p + 2 ≤ q) ⊎ (q + m ≤ p) → br16 (copy_at buf q src m) p ≡ br16 buf p
  unfolding br16
  br16-copy_at_other p apart =
      ground (arith, byte_at-copy_at buf src q m p h l, byte_at-copy_at buf src q m (p + 1) h l)

  pub byte_at-copy_at_other :
      (p : ℕ) → (p < q) ⊎ (q + m ≤ p) → byte_at (copy_at buf q src m) p ≡ byte_at buf p
  byte_at-copy_at_other p apart = ground (arith, byte_at-copy_at buf src q m p h l)

-- 16-bit reads and writes beside each other.
pub br16-bw16_other :
    (v : ℕ) (buf : Buffer) (p q : ℕ)
    → q + 2 ≤ length buf
    → (p + 2 ≤ q) ⊎ (q + 2 ≤ p)
    → br16 (bw16 v buf q).0 p ≡ br16 buf p
unfolding br16
br16-bw16_other v buf p q h apart =
    ground (arith, byte_at-bw16 v buf q p h, byte_at-bw16 v buf q (p + 1) h)

pub slice-bw16_other :
    (v : ℕ) (buf : Buffer) (p n q : ℕ)
    → q + 2 ≤ length buf
    → p + n ≤ length buf
    → (p + n ≤ q) ⊎ (q + 2 ≤ p)
    → slice (bw16 v buf q).0 p n ≡ slice buf p n
slice-bw16_other v buf p n q h b apart =
    slice_same (bw16 v buf q).0 buf p p n (omega (arith, length-bw16 v buf q)) b
      (λ j i. ground (arith, byte_at-bw16 v buf q (p + j) h))
