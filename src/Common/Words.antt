-- ===== src/Common/Words.antt =====
-- Shifts, masks and unions of 16-bit words, read as arithmetic.
use Prim.Native.Nat.{
  ℕ, zero, suc, ◌+◌, ◌*◌, ◌/◌, ◌%◌, ◌≤◌, ◌<◌, min, max, bit_and, bit_or, digits, bit_and-bitwise,
  bit_or-bitwise,
}
use mathlib.Core.Path.{◌≡◌, refl, ap}
use native.Mathlib.Omega.{arith}

-- The count of digits to go does not matter once it covers the first number.
module _ (z : ℕ → ℕ) (f : ℕ → ℕ → ℕ) where
  digits-enough : (n m a b : ℕ) → a ≤ n → a ≤ m → digits z f n a b ≡ digits z f m a b
  digits-enough zero zero a b h k = refl
  digits-enough zero (suc m) zero b h k = refl
  digits-enough zero (suc m) (suc a) b h k = absurd (omega arith)
  digits-enough (suc n) m zero b h k = all_digits m
    where
      all_digits : (m : ℕ) → z b ≡ digits z f m zero b
      all_digits zero = refl
      all_digits (suc m) = refl
  digits-enough (suc n) zero (suc a) b h k = absurd (omega arith)
  digits-enough (suc n) (suc m) (suc a) b h k =
      omega (arith, digits-enough n m (suc a / 2) (b / 2) (omega arith) (omega arith))

bit_or_halves : (a b : ℕ) → bit_or a b ≡ bit_or (a / 2) (b / 2) * 2 + max (a % 2) (b % 2)
bit_or_halves zero b = omega (arith, bit_or-bitwise 0 b, bit_or-bitwise 0 (b / 2))
bit_or_halves (suc a) b = omega (
  arith,
  bit_or-bitwise (suc a) b,
  bit_or-bitwise (suc a / 2) (b / 2),
  digits-enough (λ b. b) max a (suc a / 2) (suc a / 2) (b / 2) (omega arith) (omega arith),
)

bit_and_halves : (a b : ℕ) → bit_and a b ≡ bit_and (a / 2) (b / 2) * 2 + min (a % 2) (b % 2)
bit_and_halves zero b = omega (arith, bit_and-bitwise 0 b, bit_and-bitwise 0 (b / 2))
bit_and_halves (suc a) b = omega (
  arith,
  bit_and-bitwise (suc a) b,
  bit_and-bitwise (suc a / 2) (b / 2),
  digits-enough (λ b. 0) min a (suc a / 2) (suc a / 2) (b / 2) (omega arith) (omega arith),
)

bit_or_double : (a b : ℕ) {c d : ℕ} → c ≡ a * 2 → d ≡ b / 2 → bit_or c b ≡ bit_or a d * 2 + b % 2
bit_or_double a b {c} {d} p q =
    rw (p, q) (let half : a * 2 / 2 ≡ a = omega arith in rw half at (unfolded_double a b))
  where
    unfolded_double : (a b : ℕ) → bit_or (a * 2) b ≡ bit_or (a * 2 / 2) (b / 2) * 2 + b % 2
    unfolded_double a b = omega (arith, bit_or_halves (a * 2) b)

-- n doublings, n halvings, n ones, and the n lowest digits.
abbrev shl : ℕ → ℕ → ℕ
shl zero x = x
shl (suc n) x = shl n x * 2

abbrev shr : ℕ → ℕ → ℕ
shr zero x = x
shr (suc n) x = shr n (x / 2)

abbrev ones : ℕ → ℕ
ones zero = 0
ones (suc n) = ones n * 2 + 1

abbrev low_digits : ℕ → ℕ → ℕ
low_digits zero a = 0
low_digits (suc n) a = low_digits n (a / 2) * 2 + a % 2

bit_or-zero_fuel : (fuel : ℕ) → (m : ℕ) → m ≤ fuel → bit_or m 0 ≡ m
bit_or-zero_fuel zero (suc m) small = absurd (omega arith)
bit_or-zero_fuel (suc fuel) (suc m) small =
    let half = bit_or-zero_fuel fuel (suc m / 2) (omega arith) in
    omega (arith, half, bit_or_halves (suc m) 0)
bit_or-zero_fuel fuel zero small = refl

bit_or-zero : (a : ℕ) → bit_or a 0 ≡ a
bit_or-zero a = bit_or-zero_fuel a a (omega arith)

bit_and-zero_fuel : (fuel : ℕ) → (m : ℕ) → m ≤ fuel → bit_and m 0 ≡ 0
bit_and-zero_fuel zero (suc m) small = absurd (omega arith)
bit_and-zero_fuel (suc fuel) (suc m) small =
    let half = bit_and-zero_fuel fuel (suc m / 2) (omega arith) in
    omega (arith, half, bit_and_halves (suc m) 0)
bit_and-zero_fuel fuel zero small = refl

-- Below n zeros the other number's digits are kept.
bit_or-shl : (n h k l : ℕ) → l < shl n 1 → bit_or (shl n h) (shl n k + l) ≡ shl n (bit_or h k) + l
bit_or-shl zero h k l p =
    let e : k + l ≡ k = omega arith in
    let e' : bit_or h (k + l) ≡ bit_or h k = ap (bit_or h) e in omega arith
bit_or-shl (suc n) h k l p = omega (
  arith,
  bit_or_double (shl n h) (shl n k * 2 + l) {d = shl n k + l / 2} refl (omega arith),
  bit_or-shl n h k (l / 2) (omega arith),
)

bit_or-ones : (n a : ℕ) → bit_or a (ones n) ≡ shl n (shr n a) + ones n
bit_or-ones zero a = omega (arith, bit_or-zero a)
bit_or-ones (suc n) a =
    let e : (ones n * 2 + 1) / 2 ≡ ones n = omega arith in
    let e' : bit_or (a / 2) ((ones n * 2 + 1) / 2) ≡ bit_or (a / 2) (ones n) =
      ap (bit_or (a / 2)) e in
    omega (arith, bit_or_halves a (ones n * 2 + 1), bit_or-ones n (a / 2))

bit_and-ones : (n a : ℕ) → bit_and a (ones n) ≡ low_digits n a
bit_and-ones zero a = bit_and-zero_fuel a a (omega arith)
bit_and-ones (suc n) a =
    let e : (ones n * 2 + 1) / 2 ≡ ones n = omega arith in
    let e' : bit_and (a / 2) ((ones n * 2 + 1) / 2) ≡ bit_and (a / 2) (ones n) =
      ap (bit_and (a / 2)) e in
    omega (arith, bit_and_halves a (ones n * 2 + 1), bit_and-ones n (a / 2))

-- `w & 0xFF`
pub bit_and_low_byte : (w : ℕ) → bit_and w 0xff ≡ w % 256
bit_and_low_byte w = omega (arith, bit_and-ones 8 w)

bit_or_bytes :
    (high k low : ℕ) {a b : ℕ}
    → a ≡ shl 8 high
    → b ≡ shl 8 k + low
    → low < 256
    → bit_or a b ≡ shl 8 (bit_or high k) + low
bit_or_bytes high k low p q h = rw (p, q) (bit_or-shl 8 high k low h)

-- `(high << 8) | low`
pub bit_or_word : (high low : ℕ) → low < 256 → bit_or (high * 256) low ≡ high * 256 + low
bit_or_word high low p = omega (
  arith,
  bit_or_bytes high 0 low {a = high * 256} {b = low} (omega arith) (omega arith) p,
  bit_or-zero high,
)

-- The same where a sign extension has filled the upper byte: it stays filled.
pub bit_or_extended :
    (high low : ℕ) → low < 256 → bit_or (high * 256) (low + 0xff00) % 65536 ≡ low + 0xff00
bit_or_extended high low q = omega (
  arith,
  bit_or_bytes high 255 low {a = high * 256} {b = low + 0xff00} (omega arith) (omega arith) q,
  bit_or-ones 8 high,
)
