-- ===== src/Engine/Stream/Transparency.antt =====
-- A message that a client stuffs and sends arrives as it was.
use icesmtp.Engine.Stream.{Progress, goes_on, ends, complete, stop, take_line, stream_data}
use icesmtp.Limits.{SessionLimits}
use icesmtp.Parser.Dots.Laws.{is_terminator-stuff_line, unstuff_line-stuff_line}
use icesmtp.Parser.{is_terminator, stuff_line}
use mathlib.Core.List.{append_assoc, append-nil}
use icesmtp.Prelude.{
  joined, ℕ, suc, ◌+◌, ◌≤◌, ◌<◌, false, List, [], ◌∷◌, ◌++◌, Option, none, some, Bytes, codes,
  length, length-append, ◌≡◌, refl, ap, ◌∙◌, arith,
}
use icesmtp.Session.Connection.{Failure, Read, line}

-- The lines as they go over the wire, the terminator behind them, and what the client sends next.
abbrev pub wire : List Bytes → List Read → List Read
wire [] rest = line (codes ".\r\n") ∷ rest
wire (l ∷ ls) rest = line (stuff_line l) ∷ wire ls rest

-- The number of bytes on the wire.
abbrev pub wire_length : List Bytes → ℕ
wire_length [] = 3
wire_length (l ∷ ls) = length (stuff_line l) + wire_length ls

-- Every stuffed line keeps to the limit on lines, if there is one.
abbrev pub LinesFit : SessionLimits → List Bytes → Type 0
LinesFit limits [] = Unit
LinesFit limits (l ∷ ls) =
    (0 < limits.max_line_length → length (stuff_line l) ≤ limits.max_line_length)
    × LinesFit limits ls

-- The progress after these lines.
abbrev pub received : List Bytes → Progress → Progress
received ls p = record {
  clock = p.clock + length ls + 1;
  builder = record p.builder { content = p.builder.content ++ joined ls };
  total = p.total + length (joined ls);
  bytes_read = p.bytes_read + wire_length ls;
}

take_line-stuff_line :
    (limits : SessionLimits) (l : Bytes) (p : Progress)
    → p.builder.data_writer ≡ some false
    → (0 < limits.max_line_length → length (stuff_line l) ≤ limits.max_line_length)
    → (0 < limits.max_message_size → p.total + length l ≤ limits.max_message_size)
    → take_line limits (stuff_line l) p
      ≡ goes_on (record {
        clock = suc p.clock;
        builder = record p.builder { content = p.builder.content ++ l };
        total = p.total + length l;
        bytes_read = p.bytes_read + length (stuff_line l);
      })
unfolding take_line
take_line-stuff_line limits l p open_writer fits small =
    rw (is_terminator-stuff_line l, unstuff_line-stuff_line l) (ground arith)

take_line_end :
    (limits : SessionLimits) (p : Progress)
    → take_line limits (codes ".\r\n") p
      ≡ ends (record p { clock = suc p.clock; bytes_read = p.bytes_read + 3 }) complete
unfolding take_line is_terminator
take_line_end limits p = refl

received-nil :
    (p : Progress) → record p { clock = suc p.clock; bytes_read = p.bytes_read + 3 } ≡ received [] p
received-nil p = ground (arith, append-nil p.builder.content)

abbrev one : Bytes → Progress → Progress
one l p = record {
  clock = suc p.clock;
  builder = record p.builder { content = p.builder.content ++ l };
  total = p.total + length l;
  bytes_read = p.bytes_read + length (stuff_line l);
}

received-cons :
    (l : Bytes) (ls : List Bytes) (p : Progress) → received ls (one l p) ≡ received (l ∷ ls) p
received-cons l ls p =
    ground (arith, append_assoc p.builder.content l (joined ls), length-append l (joined ls))

-- A message of any lines, stuffed by the client and sent with the terminator behind it, is read
-- to the end: exactly its lines, joined, are added to the envelope's data, and what the client
-- sent behind the terminator is left to be read. The context is not done, a writer is open, each
-- stuffed line keeps to the line limit and the message to the size limit, where there are such.
pub stream_data-wire :
    (context : ℕ → Option Failure) (limits : SessionLimits) (at_end : Failure) (ls : List Bytes)
    (rest : List Read) (p : Progress)
    → ((n : ℕ) → context n ≡ none)
    → p.builder.data_writer ≡ some false
    → LinesFit limits ls
    → (0 < limits.max_message_size → p.total + length (joined ls) ≤ limits.max_message_size)
    → stream_data context limits at_end (wire ls rest) p ≡ stop rest (received ls p) complete
unfolding stream_data
stream_data-wire context limits at_end [] rest p live w fit small =
    rw (live p.clock, stream_data, take_line_end limits p)
      (ap (λ (q : Progress). stop rest q complete) (received-nil p))
stream_data-wire context limits at_end (l ∷ ls) rest p live w fit small =
    let less : 0 < limits.max_message_size → p.total + length l ≤ limits.max_message_size =
      λ h. omega (arith, small h, length-append l (joined ls)) in
    let left_small : 0 < limits.max_message_size
        → p.total + length l + length (joined ls) ≤ limits.max_message_size =
      λ h. omega (arith, small h, length-append l (joined ls)) in
    rw (live p.clock, stream_data, take_line-stuff_line limits l p w fit.0 less)
      (stream_data-wire context limits at_end ls rest (one l p) live w fit.1 left_small
        ∙ ap (λ (q : Progress). stop rest q complete) (received-cons l ls p))
