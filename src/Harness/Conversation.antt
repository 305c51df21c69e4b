-- ===== src/Harness/Conversation.antt =====
-- harness/harness.go: `RunConversation`, behind `Start`. The engine runs in another goroutine; here
-- it writes what it has to say to a step at once, before the harness reads.
pub mod Spoken
pub mod Answered
pub mod Scripted
use icesmtp.Harness.Client.{
  Harness, Answer, answered, Expected, as_expected, no_answer, send, send_raw, expect,
  read_response,
}
use icesmtp.Harness.Pipe
use icesmtp.Prelude.{
  ℕ, suc, ◌+◌, ◌*◌, Bool, not, List, [], ◌∷◌, Option, none, some, Bytes, equal, ◌==◌, if◌then◌else◌,
}
use icesmtp.Session.Connection.{Failure}

-- The delay is a pause behind the step.
pub record ConversationStep : Type 0 where
  pub description : Bytes
  pub sends : Bytes
  pub sends_raw : Option Bytes
  pub expects : ℕ
  pub expects_any : Bool
  pub delay : ℕ

-- What a conversation comes to: its end, or the step that failed, and why. Where that is an answer
-- that is waited for, the call has not returned.
pub data Outcome : Type 0 where
  went_through : Outcome
  stopped : Bytes → Expected → Outcome

abbrev pub send_some : Option Bytes → Harness → Harness
send_some none h = h
send_some (some raw) h = send_raw raw h

-- `step.Send` and `step.SendRaw`.
unfoldable pub speak : ConversationStep → Harness → Harness
unfolding send send_raw
speak step h =
    let said = send step.sends h in
    send_some step.sends_raw (if not (equal step.sends []) then said else h)

-- The engine's bytes, which are dropped if the buffer is closed.
abbrev pub engine_writes : Bytes → Harness → Harness
unfolding Pipe.write
engine_writes bytes h = record h { output = (Pipe.write bytes h.output).0 }

-- The error of `Expect`, if there is one.
abbrev pub error_of : Harness × Expected → Harness × Option Expected
error_of (h, as_expected _) = (h, none)
error_of (h, x) = (h, some x)

-- The error of `ExpectAny`.
abbrev pub error_of_any : Harness × Answer → Harness × Option Expected
error_of_any (h, answered _) = (h, none)
error_of_any (h, a) = (h, some (no_answer a))

-- `step.ExpectAny`, unless `step.Expect` has failed.
abbrev pub then_any :
    (ℕ → Option Failure) → ConversationStep → Harness × Option Expected → Harness × Option Expected
then_any context step (h, some x) = (h, some x)
then_any context step (h, none) =
    let answer = error_of_any (read_response context h) in
    if step.expects_any then answer else (h, none)

-- `step.Expect` and `step.ExpectAny`. Each has a context of its own, with a timeout.
unfoldable pub listen :
    (ℕ → Option Failure)
    → (ℕ → Option Failure)
    → ConversationStep
    → Harness
    → Harness × Option Expected
unfolding expect read_response
listen first second step h =
    let answer = error_of (expect first step.expects h) in
    then_any second step (if not (step.expects == 0) then answer else (h, none))

-- `timeouts` numbers the contexts, and `says` are the engine's bytes for each step.
unfoldable pub converse :
    (ℕ → ℕ → Option Failure) → (ℕ → Bytes) → ℕ → List ConversationStep → Harness → Harness × Outcome
unfolding speak listen
converse timeouts says n [] h = (h, went_through)
converse timeouts says n (step ∷ rest) h =
    let (g, error) =
      listen (timeouts (2 * n)) (timeouts (2 * n + 1)) step
        (engine_writes (says n) (speak step h)) in
    elim error [
      | some x ↦ (g, stopped step.description x)
      | none ↦ converse timeouts says (suc n) rest g
    ]

-- The loop of `RunConversation`.
unfoldable pub run_conversation :
    (ℕ → ℕ → Option Failure) → (ℕ → Bytes) → List ConversationStep → Harness → Harness × Outcome
unfolding converse
run_conversation timeouts says script h = converse timeouts says 0 script h
