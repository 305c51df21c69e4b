-- ===== src/Table.antt =====
-- A Go map with string keys: an association list in which each key stands once. The order of the
-- list has no meaning, as that of a `range` over the map has none.
pub mod Laws
use icesmtp.Prelude.{
  Bool, true, false, List, [], ◌∷◌, Option, none, some, Bytes, equal, if◌then◌else◌,
}

abbrev pub Table {ℓ} : Type ℓ → Type ℓ
Table A = List (Bytes × A)

module _ {ℓ} {A : Type ℓ} where
  -- `v, ok := m[k]`.
  unfoldable pub get : Bytes → Table A → Option A
  get k [] = none
  get k ((j, v) ∷ m) = if equal j k then some v else get k m

  -- `_, ok := m[k]`.
  abbrev pub has : Bytes → Table A → Bool
  unfolding get
  has k m = elim (get k m) [ none ↦ false | some _ ↦ true ]

  -- `m[k] = v`.
  unfoldable pub put : Bytes → A → Table A → Table A
  put k v [] = (k, v) ∷ []
  put k v ((j, w) ∷ m) = let rest = put k v m in if equal j k then (k, v) ∷ m else (j, w) ∷ rest

  -- `delete(m, k)`.
  unfoldable pub delete : Bytes → Table A → Table A
  delete k [] = []
  delete k ((j, w) ∷ m) = let rest = delete k m in if equal j k then rest else (j, w) ∷ rest

  -- The keys, in the order in which a `range` meets them.
  unfoldable pub keys : Table A → List Bytes
  keys [] = []
  keys ((j, _) ∷ m) = j ∷ keys m
