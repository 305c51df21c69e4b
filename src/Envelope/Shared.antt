-- ===== src/Envelope/Shared.antt =====
-- envelope_builder.go: the `bytes.Buffer` of a builder, and the slice of it that an envelope gets.
-- A buffer that nothing is read from is an array and a length; `Bytes` is the front of that array,
-- `Reset` keeps the array, and a write goes into it if it has the room, and else into a new one.
use icesmtp.Prelude.{
  ℕ, zero, suc, ◌+◌, ◌≤◌, ◌<◌, [], ◌∷◌, ◌++◌, Bytes, take, drop, length, length-append, leb, ◌==◌,
  if◌then◌else◌, ◌≡◌, refl, sym, ap, ◌∙◌, arith, Bool-cases, inl, inr,
}
use icesmtp.Text.Search.Laws.{take-append}
use mathlib.Core.List.{append_assoc}

-- The arrays by their addresses, the first free address, and the builder's buffer.
pub record Memory : Type 0 where
  pub arrays : ℕ → Bytes
  pub next : ℕ
  pub array : ℕ
  pub filled : ℕ

-- `data` of an envelope.
pub record Slice : Type 0 where
  pub array : ℕ
  pub size : ℕ

-- What `Data` of an envelope returns.
unfoldable pub contents : Memory → Slice → Bytes
contents m s = take s.size (m.arrays s.array)

-- `b.data.Bytes()`.
abbrev pub slice : Memory → Slice
slice m = record { array = m.array; size = m.filled }

abbrev pub store_at : ℕ → Bytes → (ℕ → Bytes) → ℕ → Bytes
store_at a xs f b = if b == a then xs else f b

-- Into the array, over what stands there.
abbrev pub overwrite : ℕ → Bytes → Bytes → Bytes
overwrite at p xs = take at xs ++ (p ++ drop (at + length p) xs)

-- The room of a new array beyond what is put there is up to `append`.
unfoldable pub write : Bytes → Bytes → Memory → Memory
write room p m =
    let xs = m.arrays m.array in
    if leb (m.filled + length p) (length xs)
    then record m {
      arrays = store_at m.array (overwrite m.filled p xs) m.arrays;
      filled = m.filled + length p;
    }
    else record {
      arrays = store_at m.next (take m.filled xs ++ (p ++ room)) m.arrays;
      next = suc m.next;
      array = m.next;
      filled = m.filled + length p;
    }

unfoldable pub reset : Memory → Memory
reset m = record m { filled = 0 }

same_address : (a : ℕ) (xs : Bytes) (f : ℕ → Bytes) → store_at a xs f a ≡ xs
same_address a xs f = ground arith

other_address : (a b : ℕ) (xs : Bytes) (f : ℕ → Bytes) → b < a → store_at a xs f b ≡ f b
other_address a b xs f h = ground arith

-- What an envelope that was finalized before shows after a reset of the builder and a write to it:
-- if the array, whose address is not free, has the room, the new data stand over the old, and else the envelope
-- keeps its data.
pub contents-write :
    (room p : Bytes) (m : Memory)
    → m.array < m.next
    → contents (write room p (reset m)) (slice m) ≡ (
        if leb (length p) (length (m.arrays m.array))
        then take m.filled (p ++ drop (length p) (m.arrays m.array))
        else contents m (slice m))
unfolding contents write reset
contents-write room p m h =
    let front : 0 + length p ≡ length p = omega arith in
    elim (Bool-cases (leb (length p) (length (m.arrays m.array)))) [
      | inl fits ↦
          rw (front, contents, write, fits)
            (ap (take m.filled)
              (same_address m.array (p ++ drop (length p) (m.arrays m.array)) m.arrays))
      | inr grows ↦
          rw (front, contents, write, grows)
            (ap (take m.filled) (other_address m.next m.array (p ++ room) m.arrays h))
    ]

length-take : (n : ℕ) (xs : Bytes) → n ≤ length xs → length (take n xs) ≡ n
length-take zero xs h = refl
length-take (suc n) [] h = ground arith
length-take (suc n) (x ∷ xs) h = ap suc (length-take n xs (omega arith))

take_two :
    (n : ℕ) (xs p rest : Bytes)
    → n ≤ length xs
    → take (n + length p) (take n xs ++ (p ++ rest)) ≡ take n xs ++ p
take_two n xs p rest h =
    let size : n + length p ≡ length (take n xs ++ p) =
      omega (arith, length-append (take n xs) p, length-take n xs h) in
    ap (take (n + length p)) (sym (append_assoc (take n xs) p rest))
    ∙ ap (λ (k : ℕ). take k ((take n xs ++ p) ++ rest)) size
    ∙ take-append (take n xs ++ p) rest

-- The buffer holds what `Write` of a builder appends, wherever the array stands.
pub write-contents :
    (room p : Bytes) (m : Memory)
    → m.filled ≤ length (m.arrays m.array)
    → contents (write room p m) (slice (write room p m)) ≡ contents m (slice m) ++ p
unfolding contents write
write-contents room p m h =
    let xs = m.arrays m.array in
    elim (Bool-cases (leb (m.filled + length p) (length xs))) [
      | inl fits ↦
          rw (contents, write, fits)
            (ap (take (m.filled + length p))
                (same_address m.array (overwrite m.filled p xs) m.arrays)
              ∙ take_two m.filled xs p (drop (m.filled + length p) xs) h)
      | inr grows ↦
          rw (contents, write, grows)
            (ap (take (m.filled + length p))
                (same_address m.next (take m.filled xs ++ (p ++ room)) m.arrays)
              ∙ take_two m.filled xs p room h)
    ]
