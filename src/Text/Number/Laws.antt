-- ===== src/Text/Number/Laws.antt =====
-- A number that is printed in decimal is read back, as far as an int64 can hold it.
use icesmtp.Prelude.{
  ℕ, zero, suc, ◌+◌, ◌-◌, ◌*◌, ◌/◌, ◌%◌, ◌<◌, true, false, [], ◌∷◌, Bytes, ltb, ◌≡◌, ap, ◌∙◌, arith,
  Bool-cases, inl, inr,
}
use icesmtp.Text.Number.{
  decimal, decimal_onto, is_digit, scan_digits, starts_with_digit, bounded, sscanf_int64,
}

digit : (d : ℕ) → d < 10 → is_digit (b'0' + d) ≡ true
unfolding is_digit
digit d small = ground arith

same_digit : (m d : ℕ) → m * 10 + (b'0' + d - b'0') ≡ m * 10 + d
same_digit m d = omega arith

pub shorter : (fuel n : ℕ) → n < suc fuel → ltb n 10 ≡ false → n / 10 < fuel
shorter fuel n enough big = ground arith

zero_add : (n : ℕ) → 0 * 10 + n ≡ n
zero_add n = omega arith

pub quotient : (n : ℕ) → n / 10 * 10 + n % 10 ≡ n
quotient n = omega arith

scan_digits-step :
    (m d : ℕ) (out : Bytes)
    → d < 10
    → scan_digits m ((b'0' + d) ∷ out) ≡ scan_digits (m * 10 + d) out
unfolding scan_digits is_digit
scan_digits-step m d out small =
    rw (digit d small) (ap (λ (k : ℕ). scan_digits k out) (same_digit m d))

pub scan_digits-decimal_onto :
    (fuel n : ℕ) (out : Bytes)
    → n < fuel
    → scan_digits 0 (decimal_onto fuel n out) ≡ scan_digits n out
unfolding decimal_onto
scan_digits-decimal_onto zero n out enough = ground arith
scan_digits-decimal_onto (suc fuel) n out enough = elim (Bool-cases (ltb n 10)) [
  | inl small ↦
      rw small
        (scan_digits-step 0 n out (ground arith) ∙ ap (λ (k : ℕ). scan_digits k out) (zero_add n))
  | inr big ↦ rw big (
      scan_digits-decimal_onto fuel (n / 10) ((b'0' + n % 10) ∷ out) (shorter fuel n enough big)
      ∙ scan_digits-step (n / 10) (n % 10) out (omega arith)
      ∙ ap (λ (k : ℕ). scan_digits k out) (quotient n))
]

pub starts_with_digit-decimal_onto :
    (fuel n : ℕ) (out : Bytes) → n < fuel → starts_with_digit (decimal_onto fuel n out) ≡ true
unfolding decimal_onto is_digit
starts_with_digit-decimal_onto zero n out enough = ground arith
starts_with_digit-decimal_onto (suc fuel) n out enough = elim (Bool-cases (ltb n 10)) [
  | inl small ↦ rw small (ground arith)
  | inr big ↦ rw big (
      starts_with_digit-decimal_onto fuel (n / 10) ((b'0' + n % 10) ∷ out)
        (shorter fuel n enough big))
]

sscanf_int64-digits :
    (s : Bytes) → starts_with_digit s ≡ true → sscanf_int64 s ≡ bounded (scan_digits 0 s)
unfolding sscanf_int64 is_digit
sscanf_int64-digits [] h = cc
sscanf_int64-digits (c ∷ s) h = ground arith

-- What `%d` prints of a number, `Sscanf` reads back, if it is below 2 ^ 63, and else leaves 0.
pub sscanf_int64-decimal : (n : ℕ) → sscanf_int64 (decimal n) ≡ bounded n
unfolding decimal scan_digits
sscanf_int64-decimal n =
    sscanf_int64-digits (decimal n) (starts_with_digit-decimal_onto (suc n) n [] (omega arith))
    ∙ ap bounded (scan_digits-decimal_onto (suc n) n [] (omega arith))
