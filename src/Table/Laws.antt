-- ===== src/Table/Laws.antt =====
-- A table reads as a function that each write changes at one key.
use icesmtp.Prelude.{
  suc, ◌≤◌, true, [], ◌∷◌, none, some, Bytes, equal, equal_iff, length, ◌≡◌, refl, arith,
  if◌then◌else◌, sym, ◌∙◌,
}
use icesmtp.Table.{Table, get, has, put, delete}

-- A function, changed at one key.
abbrev pub update {ℓ} : {A : Type ℓ} → Bytes → A → (Bytes → A) → Bytes → A
update k v f q = if equal k q then v else f q

equal-trans_false : (j k q : Bytes) → equal j q ≡ true → equal k q ≡ true → equal j k ≡ true
equal-trans_false j k q h g = (equal_iff j k).1 ((equal_iff j q).0 h ∙ sym ((equal_iff k q).0 g))

module _ {ℓ} {A : Type ℓ} where
  pub get-put :
      (k : Bytes) (v : A) (m : Table A) (q : Bytes)
      → get q (put k v m) ≡ update k (some v) (λ p. get p m) q
  unfolding get put
  get-put k v [] q = ground arith
  get-put k v ((j, w) ∷ m) q =
      ground (
        arith,
        get-put k v m q,
        equal-trans_false j k q,
        equal_iff j k,
        equal_iff j q,
        equal_iff k q,
      )

  pub get-delete :
      (k : Bytes) (m : Table A) (q : Bytes) → get q (delete k m) ≡ update k none (λ p. get p m) q
  unfolding get delete
  get-delete k [] q = ground arith
  get-delete k ((j, w) ∷ m) q =
      ground (arith, get-delete k m q, equal_iff j k, equal_iff j q, equal_iff k q)

  pub length-put :
      (k : Bytes) (v : A) (m : Table A)
      → length (put k v m) ≡ (if has k m then length m else suc (length m))
  unfolding put get
  length-put k v [] = refl
  length-put k v ((j, w) ∷ m) = ground (arith, length-put k v m)

  pub length-delete : (k : Bytes) (m : Table A) → length (delete k m) ≤ length m
  unfolding delete
  length-delete k [] = omega arith
  length-delete k ((j, w) ∷ m) = ground (arith, length-delete k m)
