-- ===== src/Harness/Conversation/Answered.antt =====
-- The answer that a step of a conversation waits for.
use icesmtp.Harness.Client.{
  Harness, Answer, Expected, as_expected, other_code, expect, read_response,
}
use icesmtp.Harness.Conversation.{ConversationStep, listen, error_of, error_of_any, then_any}
use icesmtp.Harness.Expect.{read_response-bytes, expect-bytes}
use icesmtp.Harness.Framing.{framed, AllInside}
use icesmtp.Prelude.{
  ℕ, ◌≤◌, ◌<◌, true, false, ◌||◌, [], Option, none, some, Bytes, ◌==◌, if◌then◌else◌, ◌≡◌, refl,
  sym, ap, ◌∙◌, arith, Bool-cases, inl, inr,
}
use icesmtp.Protocol.Reply.{Response, bytes}
use icesmtp.Session.Connection.{Failure}
use mathlib.Core.List.{append-nil}

-- The engine has written this response, and the step asks for one: with a code or any.
pub record Answers (written : Bytes) (step : ConversationStep) (r : Response) : Type 0 where
  pub whole : written ≡ bytes r
  pub low : 100 ≤ r.code
  pub high : r.code < 1000
  pub inside : AllInside r.lines
  pub once : step.expects_any ≡ (step.expects == 0)

-- A step that asks for nothing gets nothing.
pub record IsQuiet (written : Bytes) (step : ConversationStep) : Type 0 where
  pub nothing : written ≡ []
  pub no_code : step.expects ≡ 0
  pub not_any : step.expects_any ≡ false

abbrev pub IsAnsweredBy : Bytes → ConversationStep → Option Response → Type 0
IsAnsweredBy written step none = IsQuiet written step
IsAnsweredBy written step (some r) = Answers written step r

-- What is wrong with the answer to a step: its code is not the one that is expected.
abbrev pub complaint : ConversationStep → Option Response → Option Expected
complaint step none = none
complaint step (some r) =
    if step.expects == 0 || r.code == step.expects then none else some (other_code (framed r))

-- What `listen` comes to, with nothing left in the output.
pub record HasListened (step : ConversationStep) (o : Option Response) (h : Harness)
    (x : Harness × Option Expected) : Type 0 where
  pub error : x.1 ≡ complaint step o
  pub output : x.0.output ≡ record h.output { buf = [] }
  pub input : x.0.input ≡ h.input

-- It is enough that `listen` comes to this.
HasListened-from :
    (step : ConversationStep) (o : Option Response) (h g : Harness) (x : Harness × Option Expected)
    → x ≡ (g, complaint step o)
    → g.output ≡ record h.output { buf = [] }
    → g.input ≡ h.input
    → HasListened step o h x
HasListened-from step o h g x is output input = record {
  error = ap (λ (y : Harness × Option Expected). y.1) is;
  output = ap (λ (y : Harness × Option Expected). y.0.output) is ∙ output;
  input = ap (λ (y : Harness × Option Expected). y.0.input) is ∙ input;
}

listen_quiet :
    (first second : ℕ → Option Failure) (step : ConversationStep) (h : Harness)
    → IsQuiet h.output.buf step
    → listen first second step h ≡ (h, none)
unfolding listen
listen_quiet first second step h quiet = rw (quiet.no_code, quiet.not_any) refl

listen_any :
    (first second : ℕ → Option Failure) (step : ConversationStep) (h : Harness)
    → (step.expects == 0) ≡ true
    → step.expects_any ≡ true
    → listen first second step h ≡ error_of_any (read_response second h)
unfolding listen
listen_any first second step h no_code any = rw (no_code, any) refl

error_of_lem :
    (step : ConversationStep) (r : Response) (g : Harness)
    → (step.expects == 0) ≡ false
    → error_of (g, if r.code == step.expects then as_expected (framed r) else other_code (framed r))
      ≡ (g, complaint step (some r))
error_of_lem step r g code = ground arith

listen_code :
    (first second : ℕ → Option Failure) (step : ConversationStep) (h : Harness)
    → (step.expects == 0) ≡ false
    → step.expects_any ≡ false
    → listen first second step h ≡ error_of (expect first step.expects h)
unfolding listen
listen_code first second step h code not_any =
    rw (code, not_any) (unchanged (error_of (expect first step.expects h)))
  where
    unchanged :
        (x : Harness × Option Expected)
        → then_any second (record step { expects_any = false }) x ≡ x
    unchanged (g, none) = refl
    unchanged (g, some x) = refl

pub listen_lem :
    (first second : ℕ → Option Failure) (step : ConversationStep) (o : Option Response)
    (h : Harness)
    → ((k : ℕ) → first k ≡ none)
    → ((k : ℕ) → second k ≡ none)
    → IsAnsweredBy h.output.buf step o
    → HasListened step o h (listen first second step h)
listen_lem first second step none h live_first live_second quiet =
    HasListened-from step none h h (listen first second step h)
      (listen_quiet first second step h quiet)
      (ap (λ (t : Bytes). record h.output { buf = t }) quiet.nothing) refl
listen_lem first second step (some r) h live_first live_second answers =
    let here = answers.whole ∙ sym (append-nil (bytes r)) in
    elim (Bool-cases (step.expects == 0)) [
      | inl no_code ↦
          (let x = read_response second h in
            let g =
              read_response-bytes second r [] h live_second answers.low answers.high answers.inside
                here in
            let accepted : complaint step (some r) ≡ none = rw no_code refl in
            HasListened-from step (some r) h x.0 (listen first second step h)
              (listen_any first second step h no_code (answers.once ∙ no_code)
                ∙ ap (λ (a : Answer). error_of_any (x.0, a)) g.answer
                ∙ ap (λ (e : Option Expected). (x.0, e)) (sym accepted))
              g.output g.input)
      | inr code ↦
          (let x = expect first step.expects h in
            let g =
              expect-bytes first step.expects r [] h live_first answers.low answers.high
                answers.inside here in
            HasListened-from step (some r) h x.0 (listen first second step h)
              (listen_code first second step h code (answers.once ∙ code)
                ∙ ap (λ (v : Expected). error_of (x.0, v)) g.verdict
                ∙ error_of_lem step r x.0 code)
              g.output g.input)
    ]
