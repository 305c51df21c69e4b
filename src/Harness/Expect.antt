-- ===== src/Harness/Expect.antt =====
-- The harness reads back what `Response.String` prints.
use icesmtp.Harness.Framing.{
  framed, AllInside, joined-framed_all, framed_all-IsResponse, last_line-framed_all,
}
use icesmtp.Harness.Client.{
  Harness, Answer, answered, Expected, as_expected, other_code, read_response, reading, expect,
  check_code, check_line, scan_code,
}
use icesmtp.Harness.Replies.{heard, read_rounds_lem, length-joined}
use icesmtp.Prelude.{
  true, false, not, Bool, ltb, ◌-◌, ℕ, suc, ◌+◌, ◌/◌, ◌%◌, ◌≤◌, ◌<◌, true, List, [], ◌∷◌, ◌++◌,
  Option, none, some, Bytes, length, length-append, ◌==◌, if◌then◌else◌, ◌≡◌, refl, sym, ap, ◌∙◌,
  arith,
}
use icesmtp.Protocol.Reply.{Response, bytes}
use icesmtp.Session.Connection.{Failure}
use icesmtp.Text.Number.Digits.{decimal_three}
use icesmtp.Text.Number.Laws.{sscanf_int64-decimal}
use icesmtp.Text.Number.{decimal, is_digit, sscanf_int64, bounded, pos}
use icesmtp.Text.Search.{index_byte}
use icesmtp.Text.Space.{trim_left, is_space, is_space2, is_space3}

trim_left_of_digit : (a b c : ℕ) → is_digit a ≡ true → trim_left (a ∷ b ∷ c ∷ []) ≡ a ∷ b ∷ c ∷ []
unfolding trim_left is_digit is_space is_space2 is_space3
trim_left_of_digit a b c h = ground arith

scan_code_trimmed : (s : Bytes) → trim_left s ≡ s → scan_code s ≡ sscanf_int64 s
unfolding scan_code index_byte
scan_code_trimmed s h = let none_left : length s - length s ≡ 0 = omega arith in rw (h, none_left)

-- The code that `Sscanf` finds.
scan_code_lem : (n : ℕ) → 100 ≤ n → n < 1000 → scan_code (decimal n) ≡ pos n
unfolding is_digit bounded
scan_code_lem n low high =
    let three = decimal_three n low high in
    let trim =
      trim_left_of_digit (b'0' + n / 10 / 10) (b'0' + n / 10 % 10) (b'0' + n % 10) (ground arith) in
    scan_code_trimmed (decimal n) (ap trim_left three ∙ trim ∙ sym three)
    ∙ sscanf_int64-decimal n
    ∙ ground arith

if_not : (b : Bool) (x y : Expected) → (if not b then y else x) ≡ (if b then x else y)
if_not true x y = refl
if_not false x y = refl

not_short : (k : ℕ) → ltb (suc (suc (suc k))) 3 ≡ false
not_short k = ground arith

check_line_lem :
    (code : ℕ) (ls : List Bytes) (n : ℕ) (t : Bytes)
    → 100 ≤ n
    → n < 1000
    → check_line code ls (some (decimal n ++ t))
      ≡ (if n == code then as_expected ls else other_code ls)
unfolding scan_code
check_line_lem code ls n t low high =
    let three = decimal_three n low high in
    let scan : scan_code ((b'0' + n / 10 / 10) ∷ (b'0' + n / 10 % 10) ∷ (b'0' + n % 10) ∷ [])
        ≡ pos n =
      ap scan_code (sym three) ∙ scan_code_lem n low high in
    rw (three, scan, not_short (length t)) (if_not (n == code) (as_expected ls) (other_code ls))

-- What reading a response that the engine has written comes to.
pub record IsHeard (r : Response) (rest : Bytes) (h : Harness) (x : Harness × Answer) : Type 0 where
  pub answer : x.1 ≡ answered (framed r)
  pub output : x.0.output ≡ record h.output { buf = rest }
  pub input : x.0.input ≡ h.input
  pub transcript : x.0.transcript ≡ heard (framed r) h.transcript

pub read_response-bytes :
    (context : ℕ → Option Failure) (r : Response) (rest : Bytes) (h : Harness)
    → ((k : ℕ) → context k ≡ none)
    → 100 ≤ r.code
    → r.code < 1000
    → AllInside r.lines
    → h.output.buf ≡ bytes r ++ rest
    → IsHeard r rest h (read_response context h)
unfolding read_response bytes
read_response-bytes context r rest h live low high inside here =
    let all_lines = framed_all-IsResponse r r.lines low high inside in
    let printed = joined-framed_all r r.lines in
    let g =
      read_rounds_lem context (suc (length h.output.buf)) (reading h) (framed r) rest live all_lines
        (here ∙ ap (◌++ rest) (sym printed))
        (omega (
          arith,
          length-joined (framed r) all_lines,
          ap length printed,
          ap length here,
          length-append (bytes r) rest,
        )) in
    record { answer = g.answer; output = g.output; input = refl; transcript = g.transcript }

-- What `Expect` comes to, for a response that the engine has written.
pub record IsExpected (code : ℕ) (r : Response) (rest : Bytes) (h : Harness)
    (x : Harness × Expected) : Type 0 where
  pub verdict : x.1 ≡ (if r.code == code then as_expected (framed r) else other_code (framed r))
  pub output : x.0.output ≡ record h.output { buf = rest }
  pub input : x.0.input ≡ h.input
  pub transcript : x.0.transcript ≡ heard (framed r) h.transcript

-- In the time of its context, the harness reads a response that stands in front of its buffer, with a code of three
-- digits and any lines, none or many, with or without an enhanced code, of texts without a line
-- end: it takes exactly the lines that were printed, puts each into the transcript and leaves the
-- rest of the buffer, and `Expect` succeeds exactly when the code is the one expected.
pub expect-bytes :
    (context : ℕ → Option Failure) (code : ℕ) (r : Response) (rest : Bytes) (h : Harness)
    → ((k : ℕ) → context k ≡ none)
    → 100 ≤ r.code
    → r.code < 1000
    → AllInside r.lines
    → h.output.buf ≡ bytes r ++ rest
    → IsExpected code r rest h (expect context code h)
unfolding expect
expect-bytes context code r rest h live low high inside here =
    let g = read_response-bytes context r rest h live low high inside here in
    let (t, last) = last_line-framed_all r r.lines in
    record {
      verdict =
          ap (check_code code) g.answer
          ∙ ap (check_line code (framed r)) last
          ∙ check_line_lem code (framed r) r.code t low high;
      output = g.output;
      input = g.input;
      transcript = g.transcript;
    }
