-- ===== src/Harness/Replies.antt =====
-- What the harness reads of a response that the engine has written.
use icesmtp.Harness.Client.{
  Reading, Answer, answered, again, done, round, next_lines, read_rounds, ends_response,
}
use icesmtp.Harness.Transcript.{Transcript, record_server}
use icesmtp.Harness.Pipe.{LineStep, take_line, read_line, line}
use icesmtp.Prelude.{
  joined, ℕ, suc, ◌+◌, Bool, true, false, not, List, [], ◌∷◌, ◌++◌, Option, none, if◌then◌else◌,
  zero, ◌<◌, ◌≤◌, length-append, Bytes, all, length, ◌==◌, ◌≡◌, refl, ap, ◌∙◌, arith,
}
use icesmtp.Session.Connection.{Failure}
use mathlib.Core.List.{append_assoc}

abbrev pub is_inside : ℕ → Bool
is_inside c = not (c == b'\n')

abbrev pub IsInside : Bytes → Type 0
IsInside s = all is_inside s ≡ true

-- A line with its end, which is the only one in it.
abbrev pub IsLine : Bytes → Type 0
IsLine l = (s : Bytes) × IsInside s × (l ≡ s ++ b'\n' ∷ [])

abbrev pub IsResponse : List Bytes → Type 0
IsResponse [] = ⊥
IsResponse (l ∷ []) = IsLine l × (ends_response l ≡ true)
IsResponse (l ∷ m ∷ ls) = IsLine l × (ends_response l ≡ false) × IsResponse (m ∷ ls)

abbrev stepped : Bytes → ℕ → Bytes → LineStep
stepped rest clock l = record { rest = rest; clock = clock; result = line l }

take_line_lem :
    (context : ℕ → Option Failure) (closed : Bool) (n : ℕ) (taken s rest : Bytes)
    → ((k : ℕ) → context k ≡ none)
    → IsInside s
    → take_line context closed n taken (s ++ b'\n' ∷ rest)
      ≡ stepped rest (n + suc (length s)) (taken ++ (s ++ b'\n' ∷ []))
unfolding take_line
take_line_lem context closed n taken [] rest live h =
    rw (live n) (ap (λ (k : ℕ). stepped rest k (taken ++ b'\n' ∷ [])) (omega arith))
take_line_lem context closed n taken (c ∷ s) rest live h =
    let other : (c == b'\n') ≡ false = ground arith in
    let clock : suc n + suc (length s) ≡ n + suc (suc (length s)) = omega arith in
    rw (live n, other)
      (take_line_lem context closed (suc n) (taken ++ c ∷ []) s rest live (ground arith)
        ∙ ap (λ (k : ℕ). stepped rest k ((taken ++ c ∷ []) ++ (s ++ b'\n' ∷ []))) clock
        ∙ ap (stepped rest (n + suc (suc (length s))))
            (append_assoc taken (c ∷ []) (s ++ b'\n' ∷ [])))

-- The transcript, with these lines of the server behind it.
abbrev pub heard : List Bytes → Transcript → Transcript
unfolding record_server
heard [] t = t
heard (l ∷ ls) t = heard ls (record_server l t)

-- What reading these lines from `q` comes to, with `rest` left in the buffer.
pub record HasRead (q : Reading) (ls : List Bytes) (rest : Bytes) (x : Reading × Answer)
    : Type 0 where
  pub answer : x.1 ≡ answered (q.lines ++ ls)
  pub output : x.0.output ≡ record q.output { buf = rest }
  pub transcript : x.0.transcript ≡ heard ls q.transcript

positive : (l : Bytes) → IsLine l → 0 < length l
positive l (s, inside, is) = rw is (omega (arith, length-append s (b'\n' ∷ [])))

-- A round over a line.
round_lem :
    (context : ℕ → Option Failure) (q : Reading) (l rest : Bytes)
    → ((k : ℕ) → context k ≡ none)
    → IsLine l
    → q.output.buf ≡ l ++ rest
    → (k : ℕ) × (round context q ≡ (
        if ends_response l
        then done (next_lines q l (stepped rest k l)) (answered (q.lines ++ l ∷ []))
        else again (next_lines q l (stepped rest k l))))
unfolding round read_line ends_response record_server
round_lem context q l rest live (s, inside, is) here =
    let split : q.output.buf ≡ s ++ b'\n' ∷ rest =
      here ∙ ap (◌++ rest) is ∙ append_assoc s (b'\n' ∷ []) rest in
    let clock = suc q.clock + suc (length s) in
    (
      clock,
      rw
          (
            live q.clock,
            round,
            split,
            take_line_lem context q.output.closed (suc q.clock) [] s rest live inside,
            is,
          )
          refl,
    )

pub length-joined : (ls : List Bytes) → IsResponse ls → length ls ≤ length (joined ls)
length-joined [] h = omega arith
length-joined (l ∷ []) h = omega (arith, positive l h.0, length-append l [])
length-joined (l ∷ m ∷ ls) (is_line, _, h) =
    omega (arith, positive l is_line, length-append l (joined (m ∷ ls)), length-joined (m ∷ ls) h)

-- Reading goes to the end of the response, and no further.
pub read_rounds_lem :
    (context : ℕ → Option Failure) (fuel : ℕ) (q : Reading) (ls : List Bytes) (rest : Bytes)
    → ((k : ℕ) → context k ≡ none)
    → IsResponse ls
    → q.output.buf ≡ joined ls ++ rest
    → length ls ≤ fuel
    → HasRead q ls rest (read_rounds fuel context q)
unfolding read_rounds record_server
read_rounds_lem context fuel q [] rest live h here enough = absurd h
read_rounds_lem context zero q (l ∷ ls) rest live h here enough = ground arith
read_rounds_lem context (suc fuel) q (l ∷ []) rest live (is_line, ends) here enough =
    let (k, step) = round_lem context q l rest live is_line (here ∙ append_assoc l [] rest) in
    rw (step, read_rounds, ends) (record { answer = refl; output = refl; transcript = refl })
read_rounds_lem context (suc fuel) q (l ∷ m ∷ ls) rest live (is_line, goes_on, h) here enough =
    let (k, step) =
      round_lem context q l (joined (m ∷ ls) ++ rest) live is_line
        (here ∙ append_assoc l (joined (m ∷ ls)) rest) in
    let next = next_lines q l (stepped (joined (m ∷ ls) ++ rest) k l) in
    let g = read_rounds_lem context fuel next (m ∷ ls) rest live h refl (omega arith) in
    rw (step, read_rounds, goes_on)
      (record {
        answer = g.answer ∙ ap answered (append_assoc q.lines (l ∷ []) (m ∷ ls));
        output = g.output;
        transcript = g.transcript;
      })
