-- ===== src/Harness/Returns.antt =====
-- Reading a response comes to an end with the buffer.
use icesmtp.Harness.Client.{
  Harness, Reading, Round, again, done, Answer, out_of_fuel, round, read_rounds, read_response,
  reading, ends_response, after_line,
}
use icesmtp.Harness.Pipe.{LineRead, LineStep, line, broken, take_line, read_line}
use icesmtp.Prelude.{
  ℕ, zero, suc, ◌<◌, Bool, [], ◌∷◌, ◌++◌, Option, Bytes, length, ◌==◌, ◌≡◌, ◌≢◌, ◌⊎◌, refl, arith,
  Bool-cases, Option-cases, inl, inr,
}
use icesmtp.Session.Connection.{Failure}
use mathlib.Core.Path.{subst}

-- If a line was read, then some byte was taken.
abbrev Took : LineRead → Bytes → Bytes → Type 0
Took (line _) rest b = length rest < length b
Took (broken _ _) rest b = Unit
Took (LineRead.waits _) rest b = Unit

longer : (r : LineRead) (rest b : Bytes) (c : ℕ) → Took r rest b → Took r rest (c ∷ b)
longer (line _) rest b c h = omega (arith, h)
longer (broken _ _) rest b c h = tt
longer (LineRead.waits _) rest b c h = tt

take_line-Took :
    (context : ℕ → Option Failure) (closed : Bool) (n : ℕ) (taken b : Bytes)
    → Took (take_line context closed n taken b).result (take_line context closed n taken b).rest b
unfolding take_line
take_line-Took context closed n taken [] = elim (Option-cases (context n)) [
  | inl live ↦ elim (Bool-cases closed) [
    | inl h ↦ rw (live, take_line, h) tt
    | inr h ↦ rw (live, take_line, h) tt
  ]
  | inr (f, over) ↦ rw (over, take_line) tt
]
take_line-Took context closed n taken (c ∷ b) = elim (Option-cases (context n)) [
  | inl live ↦ elim (Bool-cases (c == b'\n')) [
    | inl ends ↦ rw (live, take_line, ends) (omega arith)
    | inr other ↦
        let more = take_line context closed (suc n) (taken ++ c ∷ []) b in
        rw (live, take_line, other)
          (longer more.result more.rest b c
            (take_line-Took context closed (suc n) (taken ++ c ∷ []) b))
  ]
  | inr (f, over) ↦ rw (over, take_line) tt
]

-- A round is the last, or the buffer is shorter behind it.
abbrev Shortens : Bytes → Round → Type 0
Shortens b (again q) = length q.output.buf < length b
Shortens b (done _ a) = a ≢ out_of_fuel

after_line-Shortens :
    (q : Reading) (s : LineStep) (r : LineRead)
    → Took r s.rest q.output.buf
    → Shortens q.output.buf (after_line q s r)
after_line-Shortens q s (line l) h = elim (Bool-cases (ends_response l)) [
  | inl ends ↦ rw ends (λ e. cc)
  | inr goes_on ↦ rw goes_on h
]
after_line-Shortens q s (broken _ f) h = λ e. cc
after_line-Shortens q s (LineRead.waits _) h = λ e. cc

round-Shortens :
    (context : ℕ → Option Failure) (q : Reading) → Shortens q.output.buf (round context q)
unfolding round read_line
round-Shortens context q = elim (Option-cases (context q.clock)) [
  | inl live ↦
      let s = take_line context q.output.closed (suc q.clock) [] q.output.buf in
      rw (live, round)
        (after_line-Shortens q s s.result
          (take_line-Took context q.output.closed (suc q.clock) [] q.output.buf))
  | inr (f, over) ↦ rw (over, round) (λ e. cc)
]

Round-cases :
    (x : Round) → ((q : Reading) × (x ≡ again q)) ⊎ ((q : Reading) × (a : Answer) × (x ≡ done q a))
Round-cases (again q) = inl (q, refl)
Round-cases (done q a) = inr (q, a, refl)

read_rounds_return :
    (fuel : ℕ) (context : ℕ → Option Failure) (q : Reading)
    → length q.output.buf < fuel
    → (read_rounds fuel context q).1 ≢ out_of_fuel
unfolding read_rounds
read_rounds_return zero context q h = ground arith
read_rounds_return (suc fuel) context q h = elim (Round-cases (round context q)) [
  | inl (p, step) ↦
      let shorter = subst (Shortens q.output.buf) step (round-Shortens context q) in
      rw (step, read_rounds) (read_rounds_return fuel context p (omega (arith, shorter)))
  | inr (p, a, step) ↦
      let real = subst (Shortens q.output.buf) step (round-Shortens context q) in
      rw (step, read_rounds) real
]

-- Reading a response comes to an answer, to an error or to waiting for more, whatever stands in
-- the buffer and whatever the context says: the rounds it is given, one more than the bytes in the
-- buffer, always suffice.
pub read_response_returns :
    (context : ℕ → Option Failure) (h : Harness) → (read_response context h).1 ≢ out_of_fuel
unfolding read_response
read_response_returns context h =
    read_rounds_return (suc (length h.output.buf)) context (reading h) (omega arith)
