-- ===== src/Engine/Stream.antt =====
-- engine.go: `streamData`, the loop that reads a message.
pub mod Transparency
use icesmtp.Envelope.Build
use icesmtp.Envelope.Build.{Builder, BuilderError}
use icesmtp.Limits.{SessionLimits}
use icesmtp.Parser.{is_terminator, unstuff_line}
use icesmtp.Prelude.{
  ℕ, suc, ◌+◌, ◌&&◌, List, [], ◌∷◌, Option, none, some, Bytes, length, ltb, if◌then◌else◌,
}
use icesmtp.Session.Connection.{Failure, Read, line, failed}

-- Why the loop ended: by the terminator, or by an error.
pub data StreamEnd : Type 0 where
  complete too_large too_long : StreamEnd
  lost : Failure → StreamEnd
  unwritten : BuilderError → StreamEnd

-- What the loop leaves: the reads to come, the clock, the builder with the bytes that were
-- written, `totalBytes` and the bytes read.
pub record Streamed : Type 0 where
  pub reads : List Read
  pub clock : ℕ
  pub builder : Builder
  pub total : ℕ
  pub bytes_read : ℕ
  pub ended : StreamEnd

-- The variables of the loop.
pub record Progress : Type 0 where
  pub clock : ℕ
  pub builder : Builder
  pub total : ℕ
  pub bytes_read : ℕ

abbrev pub stop : List Read → Progress → StreamEnd → Streamed
stop reads p why = record {
  reads = reads;
  clock = p.clock;
  builder = p.builder;
  total = p.total;
  bytes_read = p.bytes_read;
  ended = why;
}

-- The result of one round of the loop.
pub data Round : Type 0 where
  goes_on : Progress → Round
  ends : Progress → StreamEnd → Round

abbrev written : Progress → ℕ → Builder × Option BuilderError → Round
written p n (b, none) = goes_on (record p { builder = b; total = p.total + n })
written p n (b, some why) = ends (record p { builder = b }) (unwritten why)

-- One round, behind the read of a line.
unfoldable pub take_line : SessionLimits → Bytes → Progress → Round
unfolding Build.write unstuff_line
take_line limits l before =
    let p = record before { clock = suc before.clock; bytes_read = before.bytes_read + length l } in
    let unstuffed = unstuff_line l in
    if is_terminator l
    then ends p complete
    else if ltb 0 limits.max_line_length && ltb limits.max_line_length (length l)
    then ends p too_long
    else if ltb 0 limits.max_message_size
        && ltb limits.max_message_size (p.total + length unstuffed)
    then ends p too_large
    else written p (length unstuffed) (Build.write unstuffed p.builder)

-- The loop: the context is looked at before each read.
unfoldable pub stream_data :
    (ℕ → Option Failure) → SessionLimits → Failure → List Read → Progress → Streamed
stream_data context limits at_end [] p = elim (context p.clock) [
  | some f ↦ stop [] p (lost f)
  | none ↦ stop [] (record p { clock = suc p.clock }) (lost at_end)
]
stream_data context limits at_end (failed f ∷ rs) p = elim (context p.clock) [
  | some g ↦ stop (failed f ∷ rs) p (lost g)
  | none ↦ stop rs (record p { clock = suc p.clock }) (lost f)
]
stream_data context limits at_end (line l ∷ rs) p = elim (context p.clock) [
  | some f ↦ stop (line l ∷ rs) p (lost f)
  | none ↦ elim (take_line limits l p) [
    | ends q why ↦ stop rs q why
    | goes_on q ↦ stream_data context limits at_end rs q
  ]
]
