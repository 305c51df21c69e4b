-- ===== src/Harness/Pipe.antt =====
-- harness/harness.go: `PipeBuffer`. Where a reader waits on the condition variable, its call has no
-- result yet, which is `waits`, with what it has taken so far.
use icesmtp.Prelude.{
  ℕ, suc, Bool, true, false, [], ◌∷◌, ◌++◌, Option, none, some, Bytes, take, drop, leb, ◌==◌,
  if◌then◌else◌,
}
use icesmtp.Session.Connection.{Failure, eof, closed_pipe, timed_out}

-- A deadline is a time; `none` is Go's zero time.
pub record PipeBuffer : Type 0 where
  pub buf : Bytes
  pub closed : Bool
  pub read_deadline : Option ℕ

unfoldable pub new_pipe_buffer : PipeBuffer
new_pipe_buffer = record { buf = []; closed = false; read_deadline = none }

unfoldable pub write : Bytes → PipeBuffer → PipeBuffer × Option Failure
write bytes p =
    if p.closed then (p, some closed_pipe) else (record p { buf = p.buf ++ bytes }, none)

-- What a call of `Read` comes to.
pub data Taken : Type 0 where
  got : Bytes → Taken
  failed : Failure → Taken
  waits : Taken

abbrev pub is_past : Option ℕ → ℕ → Bool
is_past none now = false
is_past (some t) now = leb t now

abbrev pub take_some : ℕ → PipeBuffer → Bytes → PipeBuffer × Taken
take_some size p [] = (p, failed eof)
take_some size p (c ∷ s) = (record p { buf = drop size (c ∷ s) }, got (take size (c ∷ s)))

-- One pass of `Read` into `size` bytes, at the time `now`. The deadline is the one that stood when
-- the call began: a reader that waits does not look at `readDeadline` again.
unfoldable pub read : Option ℕ → ℕ → ℕ → PipeBuffer → PipeBuffer × Taken
read deadline now size p = elim p.buf [
  | [] ↦
      if p.closed
      then (p, failed eof)
      else if is_past deadline now
      then (p, failed timed_out)
      else (p, waits)
  | c ∷ s ↦ take_some size p (c ∷ s)
]

unfoldable pub set_read_deadline : Option ℕ → PipeBuffer → PipeBuffer
set_read_deadline t p = record p { read_deadline = t }

unfoldable pub close : PipeBuffer → PipeBuffer
close p = record p { closed = true }

-- What a call of `ReadLine` comes to: a line with its end, an error behind a part of a line, or a
-- part of a line with more to wait for.
pub data LineRead : Type 0 where
  line : Bytes → LineRead
  broken : Bytes → Failure → LineRead
  waits : Bytes → LineRead

-- What is left of the buffer, the clock of the context, and the result.
pub record LineStep : Type 0 where
  pub rest : Bytes
  pub clock : ℕ
  pub result : LineRead

-- The loop of `ReadLine`: the context is asked before each byte, and not while the call waits.
unfoldable pub take_line : (ℕ → Option Failure) → Bool → ℕ → Bytes → Bytes → LineStep
take_line context closed n taken [] = elim (context n) [
  | some f ↦ record { rest = []; clock = suc n; result = broken taken f }
  | none ↦ record {
    rest = [];
    clock = suc n;
    result = if closed then broken taken eof else waits taken;
  }
]
take_line context closed n taken (c ∷ s) =
    let more = take_line context closed (suc n) (taken ++ c ∷ []) s in
    elim (context n) [
      | some f ↦ record { rest = c ∷ s; clock = suc n; result = broken taken f }
      | none ↦
          if c == b'\n'
          then record { rest = s; clock = suc n; result = line (taken ++ c ∷ []) }
          else more
    ]

unfoldable pub read_line : (ℕ → Option Failure) → ℕ → PipeBuffer → LineStep
unfolding take_line
read_line context n p = take_line context p.closed n [] p.buf
