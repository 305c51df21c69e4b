-- ===== src/Text/Search.antt =====
-- Searching and cutting: `Index`, `LastIndex`, `IndexByte`, `HasPrefix`, `HasSuffix`, `TrimSuffix`
-- and `Split`, each at the arguments that the source gives them.
pub mod Laws
use icesmtp.Prelude.{
  ℕ, suc, ◌-◌, Bool, true, false, ◌&&◌, List, [], ◌∷◌, ◌++◌, Option, none, some, reverse, length,
  take, Bytes, ◌==◌, if◌then◌else◌,
}
use mathlib.Core.Option

-- `strings.Index(s, c)` for a text of one byte, and `bytes.IndexByte`; -1 is `none`.
unfoldable pub index_byte : ℕ → Bytes → Option ℕ
index_byte c [] = none
index_byte c (x ∷ s) = if x == c then some 0 else Option.map suc (index_byte c s)

-- `strings.LastIndex(s, c)` for a text of one byte.
unfoldable pub last_index_byte : ℕ → Bytes → Option ℕ
last_index_byte c [] = none
last_index_byte c (x ∷ s) = elim (last_index_byte c s) [
  | some i ↦ some (suc i)
  | none ↦ if x == c then some 0 else none
]

unfoldable pub has_prefix : Bytes → Bytes → Bool
has_prefix s [] = true
has_prefix [] (p ∷ prefix) = false
has_prefix (c ∷ s) (p ∷ prefix) = c == p && has_prefix s prefix

unfoldable pub has_suffix : Bytes → Bytes → Bool
unfolding has_prefix
has_suffix s suffix = has_prefix (reverse s) (reverse suffix)

unfoldable pub trim_suffix : Bytes → Bytes → Bytes
unfolding has_suffix
trim_suffix s suffix = if has_suffix s suffix then take (length s - length suffix) s else s

-- `strings.Split(s, c)` for a text of one byte: the field read so far, then the others.
split_from : ℕ → Bytes → Bytes → List Bytes
split_from c field [] = field ∷ []
split_from c field (x ∷ s) =
    if x == c then field ∷ split_from c [] s else split_from c (field ++ x ∷ []) s

unfoldable pub split : ℕ → Bytes → List Bytes
unfolding split_from
split c = split_from c []
