-- ===== src/Text/Search/Laws.antt =====
-- What the searches find, and what cutting a suffix leaves.
use mathlib.Core.List.{reverse-append, reverse-reverse}
use icesmtp.Prelude.{
  ℕ, Bool, not, all, ◌==◌, ◌-◌, true, List, [], ◌∷◌, ◌++◌, ◌≡◌, refl, sym, ap, ◌∙◌, ◌⊎◌, inl, inr,
  reverse, length, length-append, drop, take, Bytes, arith, Bool-cases,
}
use icesmtp.Text.Search.{has_prefix, has_suffix, trim_suffix, split, split_from}

module _ {ℓ} {A : Type ℓ} where
  pub take-append : (xs ys : List A) → take (length xs) (xs ++ ys) ≡ xs
  take-append [] [] = refl
  take-append [] (y ∷ ys) = refl
  take-append (x ∷ xs) ys = ap (x ∷◌) (take-append xs ys)

  pub drop-append : (xs ys : List A) → drop (length xs) (xs ++ ys) ≡ ys
  drop-append [] ys = refl
  drop-append (x ∷ xs) ys = drop-append xs ys

  pub length-reverse : (xs : List A) → length (reverse xs) ≡ length xs
  length-reverse [] = refl
  length-reverse (x ∷ xs) =
      ap length (reverse-append (x ∷ []) xs)
      ∙ omega (arith, length-append (reverse xs) (x ∷ []), length-reverse xs)

pub has_prefix-append : (s p : Bytes) → has_prefix s p ≡ true → s ≡ p ++ drop (length p) s
unfolding has_prefix
has_prefix-append s [] h = refl
has_prefix-append [] (p ∷ ps) h = cc
has_prefix-append (c ∷ s) (p ∷ ps) h = ground (arith, has_prefix-append s ps)

pub append-has_prefix : (p s : Bytes) → has_prefix (p ++ s) p ≡ true
unfolding has_prefix
append-has_prefix [] [] = refl
append-has_prefix [] (c ∷ s) = refl
append-has_prefix (c ∷ p) s = ground (arith, append-has_prefix p s)

pub has_suffix-append :
    (s suffix : Bytes) → has_suffix s suffix ≡ true → (r : Bytes) × (s ≡ r ++ suffix)
unfolding has_suffix
has_suffix-append s suffix h =
    let rest = drop (length (reverse suffix)) (reverse s) in
    (
      reverse rest,
      sym (reverse-reverse s)
          ∙ ap reverse (has_prefix-append (reverse s) (reverse suffix) h)
          ∙ reverse-append (reverse suffix) rest
          ∙ ap (reverse rest ++◌) (reverse-reverse suffix),
    )

pub trim_suffix-append : (r suffix : Bytes) → trim_suffix (r ++ suffix) suffix ≡ r
unfolding trim_suffix
trim_suffix-append r suffix =
    let found : has_suffix (r ++ suffix) suffix ≡ true =
      ap (λ (t : Bytes). has_prefix t (reverse suffix)) (reverse-append r suffix)
      ∙ append-has_prefix (reverse suffix) (reverse r) in
    let here : length (r ++ suffix) - length suffix ≡ length r =
      omega (arith, length-append r suffix) in
    rw (found, here) (take-append r suffix)

-- The suffix is cut off once, where it is there.
pub trim_suffix_cases :
    (s suffix : Bytes) → (trim_suffix s suffix ≡ s) ⊎ (s ≡ trim_suffix s suffix ++ suffix)
trim_suffix_cases s suffix = elim (Bool-cases (has_suffix s suffix)) [
  | inr absent ↦ inl (unfold trim_suffix in rw absent)
  | inl present ↦
      let (r, cut) = has_suffix-append s suffix present in
      inr (
        cut
        ∙ ap (◌++ suffix)
            (sym (ap (λ (t : Bytes). trim_suffix t suffix) cut ∙ trim_suffix-append r suffix)))
]

-- None of the texts has this byte in it.
abbrev pub AllFree : ℕ → List Bytes → Type 0
AllFree c [] = Unit
AllFree c (s ∷ ss) = (all (λ (x : ℕ). not (x == c)) s ≡ true) × AllFree c ss

all-snoc :
    (p : ℕ → Bool) (s : Bytes) (x : ℕ) → all p s ≡ true → p x ≡ true → all p (s ++ x ∷ []) ≡ true
all-snoc p [] x h g = ground arith
all-snoc p (c ∷ s) x h g = ground (arith, all-snoc p s x)

AllFree-split_from :
    (c : ℕ) (field s : Bytes)
    → all (λ (x : ℕ). not (x == c)) field ≡ true
    → AllFree c (split_from c field s)
unfolding split_from
AllFree-split_from c field [] h = (h, tt)
AllFree-split_from c field (x ∷ s) h = elim (Bool-cases (x == c)) [
  | inl found ↦ rw found (h, AllFree-split_from c [] s refl)
  | inr other ↦ rw other (
      AllFree-split_from c (field ++ x ∷ []) s
        (all-snoc (λ (y : ℕ). not (y == c)) field x h (rw other)))
]

-- The fields of a split have no separator in them.
pub AllFree-split : (c : ℕ) (s : Bytes) → AllFree c (split c s)
unfolding split
AllFree-split c s = AllFree-split_from c [] s refl
