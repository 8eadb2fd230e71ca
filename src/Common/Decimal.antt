-- ===== src/Common/Decimal.antt =====
-- `std::to_string` of an unsigned number, and `std::stoul` and `std::stoull` in base ten.
use Prim.Native.Nat.{ℕ, zero, suc, ◌+◌, ◌-◌, ◌*◌, ◌/◌, ◌%◌, ◌^◌}
use mathlib.Core.Path.{◌≡◌, refl, sym, subst}
use mathlib.Core.Bool.{Bool, true, false, ◌&&◌, ◌||◌}
use mathlib.Core.List.{[], ◌∷◌}
use mathlib.Core.Logic.{inl, inr}
use native.Mathlib.Omega.{arith}
use cpp_tftp.Common.Bools.{Bool-cases, ltb, leb, ◌==◌, if◌then◌else◌}
use cpp_tftp.Common.Chars.{Bytes}
use cpp_tftp.Common.Outcome.{
  Settled, Settled-bind, Outcome, ok, throw, ◌>>=◌, invalid_argument, out_of_range,
}

-- The digits of n in front of `rest`, the last first; n rounds are enough for n digits and more.
unfoldable pub digits_before : ℕ → ℕ → Bytes → Bytes
digits_before zero n rest = rest
digits_before (suc fuel) n rest =
    let text = (b'0' + n % 10) ∷ rest in
    let more = digits_before fuel (n / 10) text in if ltb n 10 then text else more

unfoldable pub to_string : ℕ → Bytes
unfolding digits_before
to_string n = digits_before (suc n) n []

is_digit : ℕ → Bool
is_digit c = leb b'0' c && leb c b'9'

-- `isspace` in the C locale.
is_space : ℕ → Bool
is_space c = c == b' ' || (leb 9 c && leb c 13)

skip_spaces : Bytes → Bytes
unfolding is_space
skip_spaces [] = []
skip_spaces (c ∷ s) = if is_space c then skip_spaces s else c ∷ s

-- The value of the digits in front, after those that gave `acc`.
read_digits : ℕ → Bytes → ℕ
unfolding is_digit
read_digits acc [] = acc
read_digits acc (c ∷ s) =
    let more = read_digits (acc * 10 + (c - b'0')) s in if is_digit c then more else acc

-- At least one digit, and a value that fits 64 bits.
read_number : Bytes → Outcome ℕ
unfolding is_digit read_digits
read_number [] = throw invalid_argument
read_number (c ∷ s) =
    let value = read_digits 0 (c ∷ s) in
    if is_digit c
    then (if ltb value (2 ^ 64) then ok value else throw out_of_range)
    else throw invalid_argument

-- A sign; a minus negates the value in 64 bits.
read_signed : Bytes → Outcome ℕ
unfolding read_number
read_signed [] = throw invalid_argument
read_signed (c ∷ s) =
    if c == b'-'
    then (read_number s >>= λ n. ok ((2 ^ 64 - n) % 2 ^ 64))
    else if c == b'+'
    then read_number s
    else read_number (c ∷ s)

unfoldable pub stoul : Bytes → Outcome ℕ
unfolding skip_spaces read_signed
stoul s = read_signed (skip_spaces s)

read_number-Settled : (s : Bytes) → Settled (read_number s)
unfolding read_number
read_number-Settled [] = inl (_, refl)
read_number-Settled (c ∷ s) = elim (Bool-cases (is_digit c)) [
  | inr e ↦ inl (invalid_argument, ground arith)
  | inl e ↦ elim (Bool-cases (ltb (read_digits 0 (c ∷ s)) (2 ^ 64))) [
    | inl f ↦ inr (read_digits 0 (c ∷ s), ground arith)
    | inr f ↦ inl (out_of_range, ground arith)
  ]
]

read_signed-Settled : (s : Bytes) → Settled (read_signed s)
unfolding read_signed
read_signed-Settled [] = inl (_, refl)
read_signed-Settled (c ∷ s) = elim (Bool-cases (c == b'-')) [
  | inl e ↦
      subst Settled (sym (step true e))
        (Settled-bind (read_number s) _ (read_number-Settled s) λ _ _. inr (_, refl))
  | inr e ↦ subst Settled (sym (step false e)) (elim (Bool-cases (c == b'+')) [
    | inl f ↦ rw f (read_number-Settled s)
    | inr f ↦ rw f (read_number-Settled (c ∷ s))
  ])
]
  where
    step :
        (b : Bool)
        → (c == b'-') ≡ b
        → read_signed (c ∷ s) ≡ (
            if b
            then (read_number s >>= λ n. ok ((2 ^ 64 - n) % 2 ^ 64))
            else if c == b'+'
            then read_number s
            else read_number (c ∷ s))
    step b e = rw e refl

pub stoul-Settled : (s : Bytes) → Settled (stoul s)
unfolding stoul
stoul-Settled s = read_signed-Settled (skip_spaces s)

stoul_tests :
    (stoul (b'5' ∷ b'1' ∷ b'2' ∷ []) ≡ ok 512) × (stoul (b'-' ∷ b'1' ∷ []) ≡ ok (2 ^ 64 - 1))
unfolding stoul
stoul_tests = (refl, refl)
