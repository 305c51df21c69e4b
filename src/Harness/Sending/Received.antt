-- ===== src/Harness/Sending/Received.antt =====
-- What the engine receives of a message that the harness sends.
use icesmtp.Harness.Sending.{
  arrivals, arrivals-IsLine, bare, message_lines, HasWritten, HasWritten-trans, stays_open,
  send-HasWritten, send_lines-HasWritten, on_wire,
}
use icesmtp.Engine.Stream.Transparency.{wire, received, LinesFit, stream_data-wire}
use icesmtp.Engine.Stream.{Progress, stream_data, stop, complete}
use icesmtp.Harness.Client.{Harness, send_lines, send_data}
use icesmtp.Harness.Framing.{IsLine-cons, IsLine-crlf}
use icesmtp.Harness.Pipe
use icesmtp.Harness.Replies.{IsInside, is_inside, IsLine}
use icesmtp.Limits.{SessionLimits}
use icesmtp.Parser.{stuff_line}
use icesmtp.Prelude.{
  ℕ, ◌+◌, ◌≤◌, ◌<◌, Bool, true, false, List, [], ◌∷◌, ◌++◌, Option, none, some, Bytes, codes, all,
  equal, joined, length, ◌==◌, ◌≡◌, refl, sym, ap, ◌∙◌, arith, Bool-cases, inl, inr,
}
use icesmtp.Session.Connection.{Failure, Read, line}
use icesmtp.Text.Search.Laws.{AllFree, AllFree-split, trim_suffix_cases}
use icesmtp.Text.Search.{split}
use mathlib.Core.List.{append_assoc, append-nil}

all_of_front : (p : ℕ → Bool) (s t : Bytes) → all p (s ++ t) ≡ true → all p s ≡ true
all_of_front p [] t h = refl
all_of_front p (c ∷ s) t h = ground (arith, all_of_front p s t)

IsInside-bare : (l : Bytes) → IsInside l → IsInside (bare l)
IsInside-bare l h = elim (trim_suffix_cases l (codes "\r")) [
  | inl same ↦ ap (all is_inside) same ∙ h
  | inr cut ↦ all_of_front is_inside (bare l) (codes "\r") (ap (all is_inside) (sym cut) ∙ h)
]

IsLine-stuff_line : (t : Bytes) → IsInside t → IsLine (stuff_line (t ++ codes "\r\n"))
unfolding stuff_line
IsLine-stuff_line [] h = (codes "\r", refl, refl)
IsLine-stuff_line (c ∷ t) h = elim (Bool-cases (c == b'.')) [
  | inl dot ↦ rw dot (IsLine-cons b'.' _ refl (IsLine-crlf (c ∷ t) h))
  | inr other ↦ rw other (IsLine-crlf (c ∷ t) h)
]

arrivals-wire :
    (ls : List Bytes)
    → AllFree b'\n' ls
    → arrivals [] (on_wire ls ++ codes ".\r\n") ≡ wire (message_lines ls) []
unfolding arrivals
arrivals-wire [] h = arrivals-IsLine (codes ".\r\n") [] (codes ".\r", refl, refl)
arrivals-wire (l ∷ []) (h, _) = elim (Bool-cases (equal (bare l) [])) [
  | inl empty ↦ rw empty (arrivals-wire [] tt)
  | inr some_left ↦ rw some_left (
      ap (λ (t : Bytes). arrivals [] (t ++ codes ".\r\n"))
        (append-nil (stuff_line (bare l ++ codes "\r\n")))
      ∙ arrivals-IsLine (stuff_line (bare l ++ codes "\r\n")) (codes ".\r\n")
          (IsLine-stuff_line (bare l) (IsInside-bare l h))
      ∙ ap (line (stuff_line (bare l ++ codes "\r\n")) ∷◌) (arrivals-wire [] tt))
]
arrivals-wire (l ∷ m ∷ ls) (h, g) =
    let first = stuff_line (bare l ++ codes "\r\n") in
    ap (arrivals []) (append_assoc first (on_wire (m ∷ ls)) (codes ".\r\n"))
    ∙ arrivals-IsLine first _ (IsLine-stuff_line (bare l) (IsInside-bare l h))
    ∙ ap (line first ∷◌) (arrivals-wire (m ∷ ls) g)

-- The message that a text stands for: its lines, each with CRLF behind it in place of LF or CRLF.
abbrev pub message_of : Bytes → List Bytes
unfolding split
message_of text = message_lines (split b'\n' text)

send_data-wire :
    (text : Bytes) (h : Harness)
    → h.input.closed ≡ false
    → h.input.buf ≡ []
    → arrivals [] (send_data text h).input.buf ≡ wire (message_of text) []
unfolding send_data HasWritten
send_data-wire text h opened empty =
    let ls = split b'\n' text in
    let most = send_lines-HasWritten ls h opened in
    let last =
      send-HasWritten (codes ".") (send_lines ls h)
        (stays_open (on_wire ls) h (send_lines ls h) most opened) in
    let whole =
      HasWritten-trans (on_wire ls) (codes ".\r\n") h (send_lines ls h) (send_data text h) most
        last in
    ap (λ (p : Pipe.PipeBuffer). arrivals [] p.buf) whole
    ∙ ap (λ (z : Bytes). arrivals [] (z ++ (on_wire ls ++ codes ".\r\n"))) empty
    ∙ arrivals-wire ls (AllFree-split b'\n' text)

-- A message that the harness sends is what the engine receives: the lines of the text, each with
-- CRLF behind it in place of LF or CRLF, whatever dots they start with, and nothing is left to be
-- read. The input is open and empty before, and, as for any message, the context is not done,
-- a writer is open, each stuffed line keeps to the line limit and the message to the size limit,
-- where there are such.
pub stream_data-send_data :
    (context : ℕ → Option Failure) (limits : SessionLimits) (at_end : Failure) (text : Bytes)
    (h : Harness) (p : Progress)
    → h.input.closed ≡ false
    → h.input.buf ≡ []
    → ((n : ℕ) → context n ≡ none)
    → p.builder.data_writer ≡ some false
    → LinesFit limits (message_of text)
    → (0 < limits.max_message_size
        → p.total + length (joined (message_of text)) ≤ limits.max_message_size)
    → stream_data context limits at_end (arrivals [] (send_data text h).input.buf) p
      ≡ stop [] (received (message_of text) p) complete
stream_data-send_data context limits at_end text h p opened empty live w fit small =
    ap (λ (reads : List Read). stream_data context limits at_end reads p)
      (send_data-wire text h opened empty)
    ∙ stream_data-wire context limits at_end (message_of text) [] p live w fit small
