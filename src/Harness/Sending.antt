-- ===== src/Harness/Sending.antt =====
-- What the harness writes when it sends a message, and how it comes in at the other end.
pub mod Received
use icesmtp.Engine.Stream.Transparency.{wire, received, LinesFit, stream_data-wire}
use icesmtp.Engine.Stream.{Progress, stream_data, stop, complete}
use icesmtp.Harness.Client.{Harness, send, send_raw, stuffed, send_lines, send_data}
use icesmtp.Harness.Framing.{IsLine-cons, IsLine-crlf}
use icesmtp.Harness.Pipe
use icesmtp.Harness.Replies.{IsInside, is_inside, IsLine}
use icesmtp.Harness.Transcript.{record_client}
use icesmtp.Limits.{SessionLimits}
use icesmtp.Parser.{stuff_line}
use icesmtp.Prelude.{
  ℕ, ◌+◌, ◌≤◌, ◌<◌, Bool, true, false, not, List, [], ◌∷◌, ◌++◌, Option, none, some, Bytes, codes,
  all, equal, joined, map, length, ◌==◌, if◌then◌else◌, ◌≡◌, refl, sym, ap, ◌∙◌, arith, Bool-cases,
  inl, inr,
}
use icesmtp.Session.Connection.{Failure, Read, line}
use icesmtp.Text.Search.Laws.{AllFree, AllFree-split, trim_suffix_cases}
use icesmtp.Text.Search.{has_prefix, trim_suffix, split}
use mathlib.Core.List.{append_assoc, append-nil}

-- `ReadBytes('\n')`, again and again, on these bytes; behind the last line end, the read waits.
unfoldable pub arrivals : Bytes → Bytes → List Read
arrivals field [] = []
arrivals field (c ∷ s) =
    let next = arrivals [] s in
    let more = arrivals (field ++ c ∷ []) s in
    if c == b'\n' then line (field ++ c ∷ []) ∷ next else more

arrivals-line :
    (field s rest : Bytes)
    → IsInside s
    → arrivals field (s ++ b'\n' ∷ rest) ≡ line (field ++ (s ++ b'\n' ∷ [])) ∷ arrivals [] rest
unfolding arrivals
arrivals-line field [] rest h = refl
arrivals-line field (c ∷ s) rest h =
    let other : (c == b'\n') ≡ false = ground arith in
    rw other (
      arrivals-line (field ++ c ∷ []) s rest (ground arith)
      ∙ ap (λ (l : Bytes). line l ∷ arrivals [] rest)
          (append_assoc field (c ∷ []) (s ++ b'\n' ∷ [])))

pub arrivals-IsLine :
    (l rest : Bytes) → IsLine l → arrivals [] (l ++ rest) ≡ line l ∷ arrivals [] rest
arrivals-IsLine l rest (s, inside, is) =
    ap (λ (t : Bytes). arrivals [] (t ++ rest)) is
    ∙ ap (arrivals []) (append_assoc s (b'\n' ∷ []) rest)
    ∙ arrivals-line [] s rest inside
    ∙ ap (λ (t : Bytes). line t ∷ arrivals [] rest) (sym is)

-- A text without its CR.
abbrev pub bare : Bytes → Bytes
bare l = trim_suffix l (codes "\r")

-- The lines of the message that a text stands for: each ends with CRLF, and there is no empty one
-- behind the last line end.
abbrev pub message_lines : List Bytes → List Bytes
message_lines [] = []
message_lines (l ∷ []) = if equal (bare l) [] then [] else (bare l ++ codes "\r\n") ∷ []
message_lines (l ∷ m ∷ ls) = (bare l ++ codes "\r\n") ∷ message_lines (m ∷ ls)

-- What is written to the input, which is open.
unfoldable pub HasWritten : Bytes → Harness → Harness → Type 0
HasWritten s h g = g.input ≡ record h.input { buf = h.input.buf ++ s }

pub send-HasWritten :
    (s : Bytes) (h : Harness) → h.input.closed ≡ false → HasWritten (s ++ codes "\r\n") h (send s h)
unfolding HasWritten send send_raw Pipe.write
send-HasWritten s h opened = rw opened

dotted :
    (t : Bytes)
    → stuff_line (t ++ codes "\r\n")
      ≡ (if has_prefix t (codes ".") then b'.' ∷ t else t) ++ codes "\r\n"
unfolding stuff_line has_prefix
dotted [] = refl
dotted (c ∷ t) = elim (Bool-cases (c == b'.')) [ inl dot ↦ rw dot | inr other ↦ rw other ]

stuff_line-stuffed : (l : Bytes) → stuff_line (bare l ++ codes "\r\n") ≡ stuffed l ++ codes "\r\n"
unfolding stuffed
stuff_line-stuffed l = dotted (bare l)

-- The loop skips an empty last line.
equal-stuffed :
    (t : Bytes) → equal (if has_prefix t (codes ".") then b'.' ∷ t else t) [] ≡ equal t []
unfolding has_prefix
equal-stuffed [] = refl
equal-stuffed (c ∷ t) = elim (Bool-cases (c == b'.')) [ inl dot ↦ rw dot | inr other ↦ rw other ]

abbrev pub on_wire : List Bytes → Bytes
on_wire ls = joined (map stuff_line (message_lines ls))

pub HasWritten-trans :
    (s t : Bytes) (h g k : Harness) → HasWritten s h g → HasWritten t g k → HasWritten (s ++ t) h k
unfolding HasWritten
HasWritten-trans s t h g k a b =
    b
    ∙ ap (λ (p : Pipe.PipeBuffer). record p { buf = p.buf ++ t }) a
    ∙ ap (λ (z : Bytes). record h.input { buf = z }) (append_assoc h.input.buf s t)

pub stays_open :
    (s : Bytes) (h g : Harness) → HasWritten s h g → h.input.closed ≡ false → g.input.closed ≡ false
unfolding HasWritten
stays_open s h g a opened = ap (λ (p : Pipe.PipeBuffer). p.closed) a ∙ opened

pub send_lines-HasWritten :
    (ls : List Bytes) (h : Harness)
    → h.input.closed ≡ false
    → HasWritten (on_wire ls) h (send_lines ls h)
unfolding send_lines stuffed
send_lines-HasWritten [] h opened =
    unfold HasWritten in
    ap (λ (z : Bytes). record h.input { buf = z }) (sym (append-nil h.input.buf))
send_lines-HasWritten (l ∷ []) h opened = elim (Bool-cases (equal (bare l) [])) [
  | inl empty ↦
      rw (equal-stuffed (bare l), empty)
        (unfold HasWritten in
          ap (λ (z : Bytes). record h.input { buf = z }) (sym (append-nil h.input.buf)))
  | inr some_left ↦
      rw
        (
          equal-stuffed (bare l),
          some_left,
          append-nil (stuff_line (bare l ++ codes "\r\n")),
          stuff_line-stuffed l,
        )
        (send-HasWritten (stuffed l) h opened)
]
send_lines-HasWritten (l ∷ m ∷ ls) h opened =
    let one = send-HasWritten (stuffed l) h opened in
    let rest = send_lines-HasWritten (m ∷ ls) (send (stuffed l) h) (stays_open _ h _ one opened) in
    rw (stuff_line-stuffed l) (HasWritten-trans _ _ h _ _ one rest)
