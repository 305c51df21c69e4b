-- ===== src/Custom/Blocked.antt =====
-- Which senders the policy of the example refuses.
use icesmtp.Custom.{RestrictedSenderPolicy, check_domains, validate_sender}
use icesmtp.Mem.Mailbox.{domain_of}
use icesmtp.Parser.{MailPath}
use icesmtp.Prelude.{
  ℕ, suc, Bool, true, false, not, ◌||◌, List, [], ◌∷◌, ◌++◌, Option, none, some, Bytes, all, drop,
  take, length, equal, equal_iff, reverse, ◌==◌, ◌≡◌, refl, sym, ap, ◌∙◌, arith, Bool-cases,
  Option-cases, inl, inr,
}
use icesmtp.Text.Case.{to_lower}
use icesmtp.Text.Search.Laws.{AllFree, has_suffix-append, append-has_prefix}
use icesmtp.Text.Search.{last_index_byte, has_suffix}
use icesmtp.Parser.Path.Laws.{last_index_byte-append}
use mathlib.Core.List.{reverse-append}
use mathlib.Core.Option.{some-injective}

append-has_suffix : (r s : Bytes) → has_suffix (r ++ s) s ≡ true
unfolding has_suffix
append-has_suffix r s = rw (reverse-append r s) (append-has_prefix (reverse s) (reverse r))

absent : (c : ℕ) (s : Bytes) → all (λ (x : ℕ). not (x == c)) s ≡ true → last_index_byte c s ≡ none
unfolding last_index_byte
absent c [] h = refl
absent c (x ∷ s) h = ground (arith, absent c s)

last_index_byte_lem :
    (c : ℕ) (r s : Bytes)
    → all (λ (x : ℕ). not (x == c)) s ≡ true
    → last_index_byte c (r ++ c ∷ s) ≡ some (length r)
unfolding last_index_byte
last_index_byte_lem c [] s h = ground (arith, absent c s h)
last_index_byte_lem c (x ∷ r) s h = rw (last_index_byte_lem c r s h)

-- The address ends with this domain.
abbrev ends_with : Option Bytes → Bytes → Bool
ends_with none b = false
ends_with (some d) b = equal d b

drop_past : (r s : Bytes) (c : ℕ) → drop (suc (length r)) (r ++ c ∷ s) ≡ s
drop_past [] s c = refl
drop_past (x ∷ r) s c = drop_past r s c

domain_of_lem :
    (r b : Bytes) → all (λ (x : ℕ). not (x == b'@')) b ≡ true → domain_of (r ++ b'@' ∷ b) ≡ some b
unfolding domain_of
domain_of_lem r b h = rw (last_index_byte_lem b'@' r b h, domain_of) (ap some (drop_past r b b'@'))

-- An address with this domain has it for its end.
has_suffix_of_domain :
    (addr b : Bytes) → domain_of addr ≡ some b → has_suffix addr (b'@' ∷ b) ≡ true
unfolding domain_of
has_suffix_of_domain addr b h = elim (Option-cases (last_index_byte b'@' addr)) [
  | inl missing ↦ cc
  | inr (at, found) ↦
      let whole = last_index_byte-append b'@' addr at found in
      let tail : drop (suc at) addr ≡ b = some-injective _ _ (rw (found, domain_of) at h) in
      ap (λ (t : Bytes). has_suffix t (b'@' ∷ b))
        (whole ∙ ap (λ (t : Bytes). take at addr ++ b'@' ∷ t) tail)
      ∙ append-has_suffix (take at addr) (b'@' ∷ b)
]

has_suffix-domain_of :
    (addr b : Bytes)
    → all (λ (x : ℕ). not (x == b'@')) b ≡ true
    → has_suffix addr (b'@' ∷ b) ≡ ends_with (domain_of addr) b
has_suffix-domain_of addr b free = elim (Bool-cases (has_suffix addr (b'@' ∷ b))) [
  | inl there ↦
      let (r, is) = has_suffix-append addr (b'@' ∷ b) there in
      let domain : domain_of addr ≡ some b = ap domain_of is ∙ domain_of_lem r b free in
      rw (there, domain) (sym ((equal_iff b b).1 refl))
  | inr other ↦ elim (Option-cases (domain_of addr)) [
    | inl missing ↦ rw (other, missing)
    | inr (d, found) ↦ elim (Bool-cases (equal d b)) [
      | inl same ↦
          let there = has_suffix_of_domain addr b (found ∙ ap some ((equal_iff d b).0 same)) in cc
      | inr apart ↦ rw (other, found, apart)
    ]
  ]
]

-- Some of the names is the domain of the address.
abbrev pub is_blocked : List Bytes → Option Bytes → Bool
is_blocked [] d = false
is_blocked (b ∷ bs) d = ends_with d b || is_blocked bs d

check_domains_lem :
    (bs : List Bytes) (addr : Bytes)
    → AllFree b'@' bs
    → (check_domains bs addr).accepted ≡ not (is_blocked bs (domain_of addr))
unfolding check_domains
check_domains_lem [] addr h = refl
check_domains_lem (b ∷ bs) addr (free, h) =
    let here = has_suffix-domain_of addr b free in
    elim (Bool-cases (ends_with (domain_of addr) b)) [
      | inl blocks ↦ rw (here, blocks)
      | inr passes ↦ rw (here, passes) (check_domains_lem bs addr h)
    ]

-- With blocked domains that have no @ in their names, the policy accepts a sender exactly when it
-- is the null path or when what stands behind the last @ of its address, in lower case, is none of
-- them.
pub validate_sender-is_blocked :
    (wide : Bytes → Bytes) (p : RestrictedSenderPolicy) (sender : MailPath)
    → AllFree b'@' p.blocked_domains
    → (validate_sender wide p sender).accepted ≡ (
        sender.is_null
        || not (is_blocked p.blocked_domains (domain_of (to_lower wide sender.address))))
unfolding validate_sender
validate_sender-is_blocked wide p sender free = elim (Bool-cases sender.is_null) [
  | inl null ↦ rw null
  | inr real ↦ rw real (check_domains_lem p.blocked_domains (to_lower wide sender.address) free)
]
