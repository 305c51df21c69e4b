-- ===== src/Logger/Numbers.antt =====
-- The digits of the logger are those of `%d`.
use icesmtp.Logger.{digits_onto, int_to_str, buffer_size}
use icesmtp.Prelude.{
  ℕ, zero, suc, ◌+◌, ◌*◌, ◌/◌, ◌%◌, ◌^◌, ◌<◌, ◌≤◌, true, false, [], ◌∷◌, some, Bytes, codes, length,
  ltb, leb, ◌==◌, ◌≡◌, refl, ap, ◌∙◌, arith, Bool-cases, inl, inr,
}
use icesmtp.Text.Number.Laws.{
  sscanf_int64-decimal, scan_digits-decimal_onto, starts_with_digit-decimal_onto,
}
use icesmtp.Text.Number.{
  sscanf_int64, bounded, negated, scan_digits, starts_with_digit, ℤ, pos, negsuc, decimal,
  decimal_onto,
}

abbrev ten_to : ℕ → ℕ
ten_to zero = 1
ten_to (suc i) = 10 * ten_to i

-- Behind the last digit the loop is over.
digits_onto_zero : (i : ℕ) (out : Bytes) → digits_onto i 0 out ≡ some out
unfolding digits_onto
digits_onto_zero zero out = refl
digits_onto_zero (suc i) out = refl

digits_onto-decimal_onto :
    (i fuel n : ℕ) (out : Bytes)
    → 0 < n
    → n < ten_to i
    → n < fuel
    → digits_onto i n out ≡ some (decimal_onto fuel n out)
unfolding digits_onto decimal_onto
digits_onto-decimal_onto zero fuel n out some_left small enough = ground arith
digits_onto-decimal_onto (suc i) zero n out some_left small enough = ground arith
digits_onto-decimal_onto (suc i) (suc fuel) n out some_left small enough =
    let nonzero : (n == 0) ≡ false = ground arith in
    elim (Bool-cases (ltb n 10)) [
      | inl last ↦
          let over : n / 10 ≡ 0 = ground arith in
          let digit : n % 10 ≡ n = ground arith in
          rw (nonzero, last, over, digit) (digits_onto_zero i ((b'0' + n) ∷ out))
      | inr more ↦
          rw (nonzero, more)
            (digits_onto-decimal_onto i fuel (n / 10) ((b'0' + n % 10) ∷ out) (ground arith)
              (ground arith) (ground arith))
    ]

length-decimal_onto :
    (i fuel n : ℕ) (out : Bytes)
    → 0 < n
    → n < ten_to i
    → n < fuel
    → length (decimal_onto fuel n out) ≤ i + length out
unfolding decimal_onto
length-decimal_onto zero fuel n out some_left small enough = ground arith
length-decimal_onto (suc i) zero n out some_left small enough = ground arith
length-decimal_onto (suc i) (suc fuel) n out some_left small enough = elim (Bool-cases (ltb n 10)) [
  | inl last ↦ rw last (omega arith)
  | inr more ↦
      let rest =
        length-decimal_onto i fuel (n / 10) ((b'0' + n % 10) ∷ out) (ground arith) (ground arith)
          (ground arith) in
      rw more (omega (arith, rest))
]

-- The numbers that `-n` negates: an int64 other than the least.
abbrev pub IsNegatable : ℤ → Type 0
IsNegatable (pos n) = n < 2 ^ 63
IsNegatable (negsuc n) = suc n < 2 ^ 63

-- The number as `%d` prints it.
abbrev pub shown : ℤ → Bytes
shown (pos n) = decimal n
shown (negsuc n) = b'-' ∷ decimal (suc n)

digits_onto-decimal : (n : ℕ) → 0 < n → n < 2 ^ 63 → digits_onto buffer_size n [] ≡ some (decimal n)
unfolding decimal buffer_size
digits_onto-decimal n some_left small =
    digits_onto-decimal_onto 20 (suc n) n [] some_left (omega arith) (omega arith)

length-decimal : (n : ℕ) → 0 < n → n < 2 ^ 63 → ltb (length (decimal n)) buffer_size ≡ true
unfolding decimal buffer_size
length-decimal n some_left small =
    let short = length-decimal_onto 19 (suc n) n [] some_left (omega arith) (omega arith) in
    ground arith

decimal_of_zero : decimal 0 ≡ codes "0"
unfolding decimal decimal_onto
decimal_of_zero = refl

int_to_str_shown : (z : ℤ) → IsNegatable z → int_to_str z ≡ some (shown z)
unfolding int_to_str
int_to_str_shown (pos zero) h = rw decimal_of_zero
int_to_str_shown (pos (suc n)) h =
    let nonzero : (suc n == 0) ≡ false = ground arith in
    rw (nonzero, int_to_str) (digits_onto-decimal (suc n) (omega arith) h)
int_to_str_shown (negsuc n) h =
    let below : ltb (suc n) (2 ^ 63) ≡ true = ground arith in
    rw (below, digits_onto-decimal (suc n) (omega arith) h, length-decimal (suc n) (omega arith) h)

scan_minus :
    (s : Bytes) → starts_with_digit s ≡ true → sscanf_int64 (b'-' ∷ s) ≡ negated (scan_digits 0 s)
unfolding sscanf_int64
scan_minus s h = rw h

scan_digits-decimal :
    (n : ℕ) → (starts_with_digit (decimal n) ≡ true) × (scan_digits 0 (decimal n) ≡ n)
unfolding decimal scan_digits
scan_digits-decimal n = (
  starts_with_digit-decimal_onto (suc n) n [] (omega arith),
  scan_digits-decimal_onto (suc n) n [] (omega arith),
)

scan_shown : (z : ℤ) → IsNegatable z → sscanf_int64 (shown z) ≡ z
unfolding bounded negated
scan_shown (pos n) h =
    let below : ltb n (2 ^ 63) ≡ true = ground arith in sscanf_int64-decimal n ∙ rw below
scan_shown (negsuc n) h =
    let (digits, number) = scan_digits-decimal (suc n) in
    let nonzero : (suc n == 0) ≡ false = ground arith in
    let below : leb (suc n) (2 ^ 63) ≡ true = ground arith in
    scan_minus (decimal (suc n)) digits
    ∙ ap negated number
    ∙ rw (below, nonzero) (ap negsuc (omega arith))

-- Every int64 other than the least, which has no negative, is printed into the buffer of 20 bytes
-- without a panic, as `%d` prints it, and reading that gives the number back.
pub int_to_str-shown :
    (z : ℤ) → IsNegatable z → (int_to_str z ≡ some (shown z)) × (sscanf_int64 (shown z) ≡ z)
int_to_str-shown z h = (int_to_str_shown z h, scan_shown z h)
