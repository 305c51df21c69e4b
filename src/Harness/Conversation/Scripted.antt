-- ===== src/Harness/Conversation/Scripted.antt =====
-- A script that is answered: what the harness sends, and where it stops.
use icesmtp.Harness.Client.{Harness, Expected}
use icesmtp.Harness.Conversation.{
  ConversationStep, Outcome, went_through, stopped, speak, engine_writes, listen, converse,
  run_conversation,
}
use icesmtp.Harness.Pipe
use icesmtp.Harness.Pipe.{PipeBuffer}
use icesmtp.Prelude.{
  ℕ, suc, ◌+◌, ◌*◌, false, List, [], ◌∷◌, ◌++◌, Option, none, some, Bytes, ◌≡◌, refl, sym, ap, ◌∙◌,
  Option-cases, inl, inr,
}
use icesmtp.Protocol.Reply.{Response}
use icesmtp.Session.Connection.{Failure}
use icesmtp.Harness.Conversation.Spoken.{said, HasSpoken-refl, speak-HasSpoken}
use icesmtp.Harness.Conversation.Answered.{IsAnsweredBy, complaint, HasListened, listen_lem}
use mathlib.Core.Path.{subst}
use mathlib.Core.List.{append_assoc, append-nil}

-- The engine answers each step that asks for a response with one.
abbrev pub IsAnswered : (ℕ → Bytes) → ℕ → List ConversationStep → List (Option Response) → Type 0
IsAnswered says n [] [] = Unit
IsAnswered says n (step ∷ steps) (o ∷ os) =
    IsAnsweredBy (says n) step o × IsAnswered says (suc n) steps os
IsAnswered says n _ _ = ⊥

-- What a conversation is to come to: it stops at the first complaint.
abbrev pub verdict : List ConversationStep → List (Option Response) → Outcome
verdict (step ∷ steps) (o ∷ os) =
    let later = verdict steps os in
    elim (complaint step o) [ none ↦ later | some x ↦ stopped step.description x ]
verdict _ _ = went_through

-- The bytes of the steps up to the first complaint.
abbrev pub sent : List ConversationStep → List (Option Response) → Bytes
sent (step ∷ steps) (o ∷ os) =
    let later = sent steps os in said step ++ elim (complaint step o) [ none ↦ later | some _ ↦ [] ]
sent _ _ = []

-- What a conversation comes to: it goes through, or stops where it is to stop; all that the engine
-- wrote was read; and each step up to there was sent.
pub record IsConversation (steps : List ConversationStep) (os : List (Option Response))
    (h : Harness) (x : Harness × Outcome) : Type 0 where
  pub outcome : x.1 ≡ verdict steps os
  pub output : x.0.output ≡ record h.output { buf = [] }
  pub input : x.0.input ≡ record h.input { buf = h.input.buf ++ sent steps os }

module _ (step : ConversationStep) (steps : List ConversationStep) (o : Option Response)
    (os : List (Option Response)) (h g : Harness) (output : g.output ≡ record h.output { buf = [] })
    (input : g.input ≡ record h.input { buf = h.input.buf ++ said step }) where
  IsConversation-stopped :
      (c : Expected)
      → complaint step o ≡ some c
      → IsConversation (step ∷ steps) (o ∷ os) h (g, stopped step.description c)
  IsConversation-stopped c wrong = record {
    outcome = rw (wrong, verdict) refl;
    output = output;
    input =
        input
        ∙ ap (λ (t : Bytes). record h.input { buf = h.input.buf ++ t })
            (rw (wrong, sent) (sym (append-nil (said step))));
  }

  IsConversation-later :
      (x : Harness × Outcome)
      → complaint step o ≡ none
      → IsConversation steps os g x
      → IsConversation (step ∷ steps) (o ∷ os) h x
  IsConversation-later x right rest = record {
    outcome = rw (right, verdict) (rest.outcome);
    output = rest.output ∙ ap (λ (p : PipeBuffer). record p { buf = [] }) output;
    input =
        rest.input
        ∙ ap (λ (p : PipeBuffer). record p { buf = p.buf ++ sent steps os }) input
        ∙ ap (λ (t : Bytes). record h.input { buf = t })
            (rw (right, sent) (append_assoc h.input.buf (said step) (sent steps os)));
  }

module _ (timeouts : ℕ → ℕ → Option Failure) (says : ℕ → Bytes)
    (live : (k m : ℕ) → timeouts k m ≡ none) where
  abbrev heard_step : ℕ → ConversationStep → Harness → Harness × Option Expected
  heard_step n step h =
      listen (timeouts (2 * n)) (timeouts (2 * n + 1)) step (engine_writes (says n) (speak step h))

  converse-later :
      (n : ℕ) (step : ConversationStep) (steps : List ConversationStep) (h : Harness)
      → (heard_step n step h).1 ≡ none
      → converse timeouts says n (step ∷ steps) h
        ≡ converse timeouts says (suc n) steps (heard_step n step h).0
  unfolding converse
  converse-later n step steps h right = rw (right, converse) refl

  converse-stopped :
      (n : ℕ) (step : ConversationStep) (steps : List ConversationStep) (h : Harness) (c : Expected)
      → (heard_step n step h).1 ≡ some c
      → converse timeouts says n (step ∷ steps) h
        ≡ ((heard_step n step h).0, stopped step.description c)
  unfolding converse
  converse-stopped n step steps h c wrong = rw (wrong, converse) refl

  engine_writes_lem :
      (w : Bytes) (h g : Harness)
      → g.output ≡ h.output
      → h.output.closed ≡ false
      → h.output.buf ≡ []
      → (engine_writes w g).output ≡ record h.output { buf = w }
  unfolding Pipe.write
  engine_writes_lem w h g same opened empty =
      ap (λ (p : PipeBuffer). (Pipe.write w p).0) same ∙ rw (opened, empty) refl

  heard_step_lem :
      (n : ℕ) (step : ConversationStep) (o : Option Response) (h : Harness)
      → IsAnsweredBy (says n) step o
      → h.input.closed ≡ false
      → h.output.closed ≡ false
      → h.output.buf ≡ []
      → HasListened step o (engine_writes (says n) (speak step h)) (heard_step n step h)
  heard_step_lem n step o h answer opened listening empty =
      let k = engine_writes (says n) (speak step h) in
      let spoken = speak-HasSpoken step h opened in
      let wrote = engine_writes_lem (says n) h (speak step h) spoken.output listening empty in
      listen_lem (timeouts (2 * n)) (timeouts (2 * n + 1)) step o k (live (2 * n))
        (live (2 * n + 1))
        (subst (λ (t : Bytes). IsAnsweredBy t step o) (sym (ap (λ (p : PipeBuffer). p.buf) wrote))
          answer)

  converse_lem :
      (n : ℕ) (steps : List ConversationStep) (os : List (Option Response)) (h : Harness)
      → IsAnswered says n steps os
      → h.input.closed ≡ false
      → h.output.closed ≡ false
      → h.output.buf ≡ []
      → IsConversation steps os h (converse timeouts says n steps h)
  unfolding converse
  converse_lem n [] [] h replies opened listening empty = record {
    outcome = refl;
    output = ap (λ (t : Bytes). record h.output { buf = t }) empty;
    input = (HasSpoken-refl h).input;
  }
  converse_lem n [] (o ∷ os) h replies opened listening empty = absurd replies
  converse_lem n (step ∷ steps) [] h replies opened listening empty = absurd replies
  converse_lem n (step ∷ steps) (o ∷ os) h (one, more) opened listening empty =
      let g = (heard_step n step h).0 in
      let heard = heard_step_lem n step o h one opened listening empty in
      let spoken = speak-HasSpoken step h opened in
      let wrote = engine_writes_lem (says n) h (speak step h) spoken.output listening empty in
      let output = heard.output ∙ ap (λ (p : PipeBuffer). record p { buf = [] }) wrote in
      let input = heard.input ∙ spoken.input in
      elim (Option-cases (complaint step o)) [
        | inl right ↦
            subst (IsConversation (step ∷ steps) (o ∷ os) h)
              (sym (converse-later n step steps h (heard.error ∙ right)))
              (IsConversation-later step steps o os h g output input _ right (
                converse_lem (suc n) steps os g more
                  (ap (λ (p : PipeBuffer). p.closed) input ∙ opened)
                  (ap (λ (p : PipeBuffer). p.closed) output ∙ listening)
                  (ap (λ (p : PipeBuffer). p.buf) output)))
        | inr (c, wrong) ↦
            subst (IsConversation (step ∷ steps) (o ∷ os) h)
              (sym (converse-stopped n step steps h c (heard.error ∙ wrong)))
              (IsConversation-stopped step steps o os h g output input c wrong)
      ]

  -- A scripted conversation on open buffers, in the time of the contexts: where the engine answers
  -- each step that asks for a response, with a code or any, by exactly one, of a code of three
  -- digits and texts without a line end, and answers no other step, the script goes through to its
  -- end if each code is the one that its step expects, and else stops at the first step where it is
  -- not; the harness has then read all that the engine wrote, and has sent the bytes of the steps
  -- up to there, that one included, and no others.
  pub run_conversation_lem :
      (steps : List ConversationStep) (os : List (Option Response)) (h : Harness)
      → IsAnswered says 0 steps os
      → h.input.closed ≡ false
      → h.output.closed ≡ false
      → h.output.buf ≡ []
      → IsConversation steps os h (run_conversation timeouts says steps h)
  unfolding run_conversation
  run_conversation_lem steps os h replies opened listening empty =
      converse_lem 0 steps os h replies opened listening empty
