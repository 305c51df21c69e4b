-- ===== src/Parser/Path/Laws.antt =====
-- parser.go: what the address of a path that `ParseMailPath` accepts looks like.
use icesmtp.Parser.Error.{ok}
use icesmtp.Parser.Path.{
  MailPath, is_valid_domain_char, is_valid_parts, is_valid_address, read_inner, extract_path,
  parse_mail_path,
}
use icesmtp.Prelude.{
  ==_iff, if◌then◌else◌, ℕ, zero, suc, ◌+◌, ◌-◌, Bool, true, false, ◌||◌, [], ◌∷◌, ◌++◌, some,
  Bytes, codes, length, take, drop, equal, all, ◌==◌, ◌≡◌, ◌≢◌, ap, ◌∙◌, arith, ◌⊎◌, inl, inr,
  Option-cases,
}
use icesmtp.Text.Search.{index_byte, last_index_byte, has_prefix, has_suffix}
use icesmtp.Text.Space.{trim_space}

-- A local part and a domain as `isValidAddress` wants them.
pub record IsAddress (addr local_part domain : Bytes) : Type 0 where
  pub parts : addr ≡ local_part ++ b'@' ∷ domain
  pub some_local_part : local_part ≢ []
  pub some_domain : domain ≢ []
  pub inner_dots : has_prefix domain (codes ".") || has_suffix domain (codes ".") ≡ false
  pub inner_hyphens : has_prefix domain (codes "-") || has_suffix domain (codes "-") ≡ false
  pub chars : all is_valid_domain_char domain ≡ true

next : (n : ℕ) → suc n ≡ n + 1
next n = omega arith

last_index_byte-tail :
    (c x : ℕ) (s : Bytes) (i : ℕ)
    → last_index_byte c (x ∷ s) ≡ some (suc i)
    → last_index_byte c s ≡ some i
unfolding last_index_byte
last_index_byte-tail c x s i h = ground arith

last_index_byte-head : (c x : ℕ) (s : Bytes) → last_index_byte c (x ∷ s) ≡ some 0 → x ≡ c
unfolding last_index_byte
last_index_byte-head c x s h = ground (arith, (==_iff x c).0)

pub last_index_byte-append :
    (c : ℕ) (s : Bytes) (i : ℕ) → last_index_byte c s ≡ some i → s ≡ take i s ++ c ∷ drop (suc i) s
unfolding last_index_byte
last_index_byte-append c [] i h = cc
last_index_byte-append c (x ∷ s) zero h = ap (◌∷ s) (last_index_byte-head c x s h)
last_index_byte-append c (x ∷ s) (suc i) h =
    ap (x ∷◌) (last_index_byte-append c s i (last_index_byte-tail c x s i h))

false-true : false ≡ true → ⊥
false-true p = cc

ne-nil : (s : Bytes) → equal s [] ≡ false → s ≢ []
ne-nil [] h = cc
ne-nil (c ∷ s) h = λ p. ground arith

is_valid_parts-IsAddress :
    (addr local_part domain : Bytes)
    → addr ≡ local_part ++ b'@' ∷ domain
    → is_valid_parts local_part domain ≡ true
    → IsAddress addr local_part domain
unfolding is_valid_parts
is_valid_parts-IsAddress addr local_part domain parts h = record {
  parts = parts;
  some_local_part = ne-nil local_part (ground arith);
  some_domain = ne-nil domain (ground arith);
  inner_dots = ground arith;
  inner_hyphens = ground arith;
  chars = ground arith;
}

-- An address that `isValidAddress` accepts is a local part and a domain, neither empty, around an
-- @, where the domain has only letters, digits, dots and hyphens, of which the last two kinds
-- stand neither first nor last. The local part is not looked at.
pub is_valid_address-IsAddress :
    (addr : Bytes)
    → is_valid_address addr ≡ true
    → (local_part : Bytes) × (domain : Bytes) × IsAddress addr local_part domain
unfolding is_valid_address
is_valid_address-IsAddress addr h = elim (Option-cases (last_index_byte b'@' addr)) [
  | inl absent ↦ absurd (false-true (rw (absent, is_valid_address) at h))
  | inr (at, found) ↦ (
    take at addr,
    drop (at + 1) addr,
    is_valid_parts-IsAddress addr (take at addr) (drop (at + 1) addr)
        (last_index_byte-append b'@' addr at found
          ∙ ap (λ (n : ℕ). take at addr ++ b'@' ∷ drop n addr) (next at))
        (inner (at == 0 || at == length addr - 1) (rw (found, is_valid_address) at h)),
  )
]
  where
    inner : {b : Bool} (a : Bool) → (if a then false else b) ≡ true → b ≡ true
    inner true p = cc
    inner false p = p

-- The null path, or a path with an address.
abbrev pub IsPath : MailPath → Type 0
IsPath path =
    ((path.is_null ≡ true) × (path.address ≡ []))
    ⊎ ((path.is_null ≡ false)
        × ((local_part : Bytes) × (domain : Bytes) × IsAddress path.address local_part domain))

read_inner-valid :
    (inner : Bytes) (path : MailPath)
    → read_inner inner ≡ ok path
    → ((path.is_null ≡ true) × (path.address ≡ []))
      ⊎ ((path.is_null ≡ false) × (is_valid_address path.address ≡ true))
unfolding read_inner
read_inner-valid inner path h = ground arith

read_inner_sound : (inner : Bytes) (path : MailPath) → read_inner inner ≡ ok path → IsPath path
read_inner_sound inner path h = elim (read_inner-valid inner path h) [
  | inl null ↦ inl null
  | inr (not_null, valid) ↦ inr (not_null, is_valid_address-IsAddress path.address valid)
]

extract_path-read_inner :
    (s : Bytes) (path : MailPath)
    → extract_path s ≡ ok path
    → (inner : Bytes) × (read_inner inner ≡ ok path)
unfolding extract_path
extract_path-read_inner s path h = elim (Option-cases (index_byte b'>' (trim_space s))) [
  | inl unclosed ↦ ground arith
  | inr (close, found) ↦ (drop 1 (take close (trim_space s)), ground arith)
]

extract_path_sound : (s : Bytes) (path : MailPath) → extract_path s ≡ ok path → IsPath path
extract_path_sound s path h =
    let (inner, read) = extract_path-read_inner s path h in read_inner_sound inner path read

-- A path that `ParseMailPath` accepts is the null path, without an address, or it is not, and its
-- address is a local part and a domain, neither empty, around an @, where the domain has only
-- letters, digits, dots and hyphens, of which the last two kinds stand neither first nor last. The
-- local part is not looked at.
pub parse_mail_path-IsPath :
    (wide : Bytes → Bytes) (raw prefix : Bytes) (path : MailPath)
    → parse_mail_path wide raw prefix ≡ ok path
    → IsPath path
unfolding parse_mail_path
parse_mail_path-IsPath wide raw prefix path h =
    extract_path_sound (trim_space (drop (length prefix + 1) (trim_space raw))) path (ground arith)
