-- ===== src/Text/Number/Digits.antt =====
-- The decimal digits of a number: which bytes they are, and the three of a reply code.
use icesmtp.Prelude.{
  ℕ, zero, suc, ◌+◌, ◌/◌, ◌%◌, ◌<◌, ◌≤◌, Bool, true, false, [], ◌∷◌, ◌++◌, Bytes, all, ltb, ◌≡◌,
  refl, arith, Bool-cases, inl, inr,
}
use icesmtp.Text.Number.{decimal, decimal_onto, is_digit}

pub all-append :
    (p : ℕ → Bool) (s t : Bytes) → all p s ≡ true → all p t ≡ true → all p (s ++ t) ≡ true
all-append p [] t h g = g
all-append p (c ∷ s) t h g = ground (arith, all-append p s t)

all-is_digit-decimal_onto :
    (fuel n : ℕ) (out : Bytes)
    → n < fuel
    → all is_digit out ≡ true
    → all is_digit (decimal_onto fuel n out) ≡ true
unfolding decimal_onto is_digit
all-is_digit-decimal_onto zero n out enough h = ground arith
all-is_digit-decimal_onto (suc fuel) n out enough h = elim (Bool-cases (ltb n 10)) [
  | inl small ↦ rw small (ground arith)
  | inr big ↦ rw big (
      all-is_digit-decimal_onto fuel (n / 10) ((b'0' + n % 10) ∷ out) (ground arith) (ground arith))
]

-- `%d` prints digits only.
pub all-is_digit-decimal : (n : ℕ) → all is_digit (decimal n) ≡ true
unfolding decimal
all-is_digit-decimal n = all-is_digit-decimal_onto (suc n) n [] (omega arith) refl

-- A number of three digits is printed as these three.
pub decimal_three :
    (n : ℕ)
    → 100 ≤ n
    → n < 1000
    → decimal n ≡ (b'0' + n / 10 / 10) ∷ (b'0' + n / 10 % 10) ∷ (b'0' + n % 10) ∷ []
unfolding decimal decimal_onto
decimal_three zero low high = ground arith
decimal_three (suc zero) low high = ground arith
decimal_three (suc (suc n)) low high =
    let a : ltb (suc (suc n)) 10 ≡ false = ground arith in
    let b : ltb (suc (suc n) / 10) 10 ≡ false = ground arith in
    let c : ltb (suc (suc n) / 10 / 10) 10 ≡ true = ground arith in rw (a, b, c)
