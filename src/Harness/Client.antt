-- ===== src/Harness/Client.antt =====
-- harness/harness.go: what the harness sends and reads. The engine runs in another goroutine; here
-- its output is what stands in the buffer.
use icesmtp.Harness.Pipe
use icesmtp.Harness.Pipe.{PipeBuffer, LineStep, LineRead, line, broken, read_line, new_pipe_buffer}
use icesmtp.Harness.Transcript.{Transcript, record_client, record_server}
use icesmtp.Prelude.{
  ℕ, zero, suc, ◌-◌, Bool, true, false, not, ◌&&◌, List, [], ◌∷◌, ◌++◌, Option, none, some, Bytes,
  codes, length, take, equal, ltb, leb, ◌==◌, if◌then◌else◌,
}
use icesmtp.Session.Connection.{Failure}
use icesmtp.Text.Number.{ℤ, pos, negsuc, sscanf_int64}
use icesmtp.Text.Search.{index_byte, has_prefix, trim_suffix, split}
use icesmtp.Text.Space.{trim_left}

-- The parts of `Harness` that its methods change. The configuration and the engine are elsewhere.
pub record Harness : Type 0 where
  pub input : PipeBuffer
  pub output : PipeBuffer
  pub transcript : Transcript

unfoldable pub new_harness : Harness
unfolding new_pipe_buffer
new_harness = record { input = new_pipe_buffer; output = new_pipe_buffer; transcript = [] }

-- The error of the write is dropped.
unfoldable pub send_raw : Bytes → Harness → Harness
unfolding Pipe.write record_client
send_raw bytes h = record h {
  input = (Pipe.write bytes h.input).0;
  transcript = record_client bytes h.transcript;
}

unfoldable pub send : Bytes → Harness → Harness
unfolding send_raw
send text h = send_raw (text ++ codes "\r\n") h

-- A line without its CR, stuffed.
unfoldable pub stuffed : Bytes → Bytes
unfolding has_prefix trim_suffix
stuffed l =
    let cut = trim_suffix l (codes "\r") in if has_prefix cut (codes ".") then b'.' ∷ cut else cut

-- The loop of `SendData`: an empty last line is not sent.
unfoldable pub send_lines : List Bytes → Harness → Harness
unfolding send stuffed
send_lines [] h = h
send_lines (l ∷ []) h = if not (equal (stuffed l) []) then send (stuffed l) h else h
send_lines (l ∷ m ∷ ls) h = send_lines (m ∷ ls) (send (stuffed l) h)

unfoldable pub send_data : Bytes → Harness → Harness
unfolding send_lines split
send_data text h = send (codes ".") (send_lines (split b'\n' text) h)

-- `len(line) >= 4 && line[3] == ' '`.
abbrev pub is_last : Bytes → Bool
is_last (_ ∷ _ ∷ _ ∷ c ∷ _) = c == b' '
is_last _ = false

abbrev pub contains : ℕ → Bytes → Bool
contains c s = elim (index_byte c s) [ none ↦ false | some _ ↦ true ]

-- The line that ends a response.
unfoldable pub ends_response : Bytes → Bool
unfolding index_byte
ends_response l = if is_last l then true else leb (length l) 5 && not (contains b'-' l)

-- What `readResponse` comes to: lines, lines and an error, or lines with more to wait for.
pub data Answer : Type 0 where
  answered : List Bytes → Answer
  lost : List Bytes → Failure → Answer
  waiting : List Bytes → Answer
  out_of_fuel : Answer

-- The lines so far, the buffer, the clock of the context and the transcript.
pub record Reading : Type 0 where
  pub lines : List Bytes
  pub output : PipeBuffer
  pub clock : ℕ
  pub transcript : Transcript

abbrev pub next_lines : Reading → Bytes → LineStep → Reading
next_lines r l s = record {
  lines = r.lines ++ l ∷ [];
  output = record r.output { buf = s.rest };
  clock = s.clock;
  transcript = record_server l r.transcript;
}

abbrev pub left : Reading → LineStep → Reading
left r s = record r { output = record r.output { buf = s.rest }; clock = s.clock }

-- What one round does: it goes on, or it has the answer.
pub data Round : Type 0 where
  again : Reading → Round
  done : Reading → Answer → Round

abbrev pub after_line : Reading → LineStep → LineRead → Round
after_line r s (line l) =
    if ends_response l
    then done (next_lines r l s) (answered (r.lines ++ l ∷ []))
    else again (next_lines r l s)
after_line r s (broken _ f) = done (left r s) (lost r.lines f)
after_line r s (LineRead.waits _) = done (left r s) (waiting r.lines)

-- One round of `readResponse`: the context is asked before the line is read.
unfoldable pub round : (ℕ → Option Failure) → Reading → Round
unfolding read_line ends_response record_server
round context r = elim (context r.clock) [
  | some f ↦ done (record r { clock = suc r.clock }) (lost r.lines f)
  | none ↦ (let s = read_line context (suc r.clock) r.output in after_line r s s.result)
]

unfoldable pub read_rounds : ℕ → (ℕ → Option Failure) → Reading → Reading × Answer
read_rounds zero context r = (r, out_of_fuel)
read_rounds (suc fuel) context r = elim (round context r) [
  | again q ↦ read_rounds fuel context q
  | done q a ↦ (q, a)
]

abbrev pub reading : Harness → Reading
reading h = record { lines = []; output = h.output; clock = 0; transcript = h.transcript }

-- `readResponse`; each round takes a byte, or is the last.
unfoldable pub read_response : (ℕ → Option Failure) → Harness → Harness × Answer
unfolding read_rounds
read_response context h =
    let (r, a) = read_rounds (suc (length h.output.buf)) context (reading h) in
    (record h { output = r.output; transcript = r.transcript }, a)

-- `fmt.Sscanf(s, "%d", &n)`: white space in front is skipped, but a line end among it is an error.
unfoldable pub scan_code : Bytes → ℤ
unfolding trim_left sscanf_int64 index_byte
scan_code s =
    let t = trim_left s in
    if contains b'\n' (take (length s - length t) s) then pos 0 else sscanf_int64 t

abbrev pub is_code : ℤ → ℕ → Bool
is_code (pos n) code = n == code
is_code (negsuc _) code = false

-- What `Expect` comes to.
pub data Expected : Type 0 where
  as_expected : List Bytes → Expected
  other_code : List Bytes → Expected
  too_short : Expected
  empty_response : Expected
  no_answer : Answer → Expected

abbrev pub last_line : List Bytes → Option Bytes
last_line [] = none
last_line (l ∷ []) = some l
last_line (l ∷ m ∷ ls) = last_line (m ∷ ls)

abbrev pub check_line : ℕ → List Bytes → Option Bytes → Expected
check_line code lines none = empty_response
check_line code lines (some l) =
    if ltb (length l) 3
    then too_short
    else if not (is_code (scan_code (take 3 l)) code)
    then other_code lines
    else as_expected lines

abbrev pub check_code : ℕ → Answer → Expected
check_code code (answered lines) = check_line code lines (last_line lines)
check_code code a = no_answer a

-- `ExpectWithTimeout`, with the context that times out.
unfoldable pub expect : (ℕ → Option Failure) → ℕ → Harness → Harness × Expected
unfolding read_response scan_code
expect context code h = let (g, a) = read_response context h in (g, check_code code a)

unfoldable pub close : Harness → Harness
unfolding Pipe.close
close h = record h { input = Pipe.close h.input; output = Pipe.close h.output }
