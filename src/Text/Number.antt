-- ===== src/Text/Number.antt =====
-- `fmt`'s verb `%d`: printing a number, and reading one with `Sscanf`.
pub mod Laws
pub mod Digits
use icesmtp.Prelude.{
  ℕ, zero, suc, ◌+◌, ◌-◌, ◌*◌, ◌/◌, ◌%◌, ◌^◌, Bool, false, ◌&&◌, [], ◌∷◌, Bytes, ltb, leb, ◌==◌,
  if◌then◌else◌,
}

-- One more round than there are digits is enough, and `n` has at most `n` of them.
unfoldable pub decimal_onto : ℕ → ℕ → Bytes → Bytes
decimal_onto zero n out = out
decimal_onto (suc fuel) n out =
    let rest = decimal_onto fuel (n / 10) ((b'0' + n % 10) ∷ out) in
    if ltb n 10 then (b'0' + n) ∷ out else rest

unfoldable pub decimal : ℕ → Bytes
unfolding decimal_onto
decimal n = decimal_onto (suc n) n []

-- A signed integer: `negsuc n` is -(n + 1).
pub data ℤ : Type 0 where
  pos : ℕ → ℤ
  negsuc : ℕ → ℤ

unfoldable pub is_digit : ℕ → Bool
is_digit c = leb b'0' c && leb c b'9'

-- The digits at the front, read on to `n`.
unfoldable pub scan_digits : ℕ → Bytes → ℕ
unfolding is_digit
scan_digits n [] = n
scan_digits n (c ∷ s) =
    let more = scan_digits (n * 10 + (c - b'0')) s in if is_digit c then more else n

abbrev pub starts_with_digit : Bytes → Bool
starts_with_digit [] = false
starts_with_digit (c ∷ s) = is_digit c

-- `strconv.ParseInt` with its range: out of it the scan fails, and 0 stays.
unfoldable pub bounded : ℕ → ℤ
bounded n = if ltb n (2 ^ 63) then pos n else pos 0

unfoldable pub negated : ℕ → ℤ
negated n = if n == 0 then pos 0 else if leb n (2 ^ 63) then negsuc (n - 1) else pos 0

-- What is left of an `int64` that `Sscanf(s, "%d", &n)` was to set from 0: with no digit, or with a
-- number out of range, the scan fails and the variable keeps its 0. `s` has no white space.
unfoldable pub sscanf_int64 : Bytes → ℤ
unfolding scan_digits bounded negated
sscanf_int64 [] = pos 0
sscanf_int64 (c ∷ s) =
    if c == b'-'
    then (if starts_with_digit s then negated (scan_digits 0 s) else pos 0)
    else if c == b'+'
    then (if starts_with_digit s then bounded (scan_digits 0 s) else pos 0)
    else if is_digit c
    then bounded (scan_digits 0 (c ∷ s))
    else pos 0

-- `size > limit` for a limit that is not negative.
abbrev pub exceeds : ℤ → ℕ → Bool
exceeds (pos n) limit = ltb limit n
exceeds (negsuc n) limit = false
