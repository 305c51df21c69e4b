-- ===== src/Harness/Conversation/Spoken.antt =====
-- What a step of a conversation sends.
use icesmtp.Harness.Client.{Harness, send, send_raw}
use icesmtp.Harness.Conversation.{ConversationStep, speak, send_some}
use icesmtp.Harness.Pipe
use icesmtp.Harness.Pipe.{PipeBuffer}
use icesmtp.Prelude.{
  false, not, [], ◌++◌, Option, none, some, Bytes, codes, equal, if◌then◌else◌, ◌≡◌, refl, sym, ap,
  ◌∙◌, Bool-cases, inl, inr,
}
use mathlib.Core.List.{append_assoc, append-nil}

-- The bytes of a step.
abbrev pub said : ConversationStep → Bytes
said step =
    (if not (equal step.sends []) then step.sends ++ codes "\r\n" else [])
    ++ elim step.sends_raw [ none ↦ [] | some raw ↦ raw ]

-- The harness has written this to its input, and read nothing.
pub record HasSpoken (t : Bytes) (h g : Harness) : Type 0 where
  pub input : g.input ≡ record h.input { buf = h.input.buf ++ t }
  pub output : g.output ≡ h.output

pub HasSpoken-refl : (h : Harness) → HasSpoken [] h h
HasSpoken-refl h = record {
  input = ap (λ (t : Bytes). record h.input { buf = t }) (sym (append-nil h.input.buf));
  output = refl;
}

HasSpoken-trans :
    (s t : Bytes) (h g k : Harness) → HasSpoken s h g → HasSpoken t g k → HasSpoken (s ++ t) h k
HasSpoken-trans s t h g k one two = record {
  input =
      two.input
      ∙ ap (λ (p : PipeBuffer). record p { buf = p.buf ++ t }) one.input
      ∙ ap (λ (t : Bytes). record h.input { buf = t }) (append_assoc h.input.buf s t);
  output = two.output ∙ one.output;
}

send_raw-HasSpoken :
    (s : Bytes) (h : Harness) → h.input.closed ≡ false → HasSpoken s h (send_raw s h)
unfolding send_raw Pipe.write
send_raw-HasSpoken s h opened = record { input = rw opened refl; output = refl }

send_some-HasSpoken :
    (raw : Option Bytes) (h : Harness)
    → h.input.closed ≡ false
    → HasSpoken (elim raw [ none ↦ [] | some s ↦ s ]) h (send_some raw h)
send_some-HasSpoken none h opened = HasSpoken-refl h
send_some-HasSpoken (some s) h opened = send_raw-HasSpoken s h opened

words-HasSpoken :
    (s : Bytes) (h : Harness)
    → h.input.closed ≡ false
    → HasSpoken
        (if not (equal s []) then s ++ codes "\r\n" else [])
        h
        (if not (equal s []) then send s h else h)
unfolding send
words-HasSpoken s h opened = elim (Bool-cases (equal s [])) [
  | inl empty ↦ rw empty (HasSpoken-refl h)
  | inr some_left ↦ rw some_left (send_raw-HasSpoken (s ++ codes "\r\n") h opened)
]

pub speak-HasSpoken :
    (step : ConversationStep) (h : Harness)
    → h.input.closed ≡ false
    → HasSpoken (said step) h (speak step h)
unfolding speak
speak-HasSpoken step h opened =
    let g = if not (equal step.sends []) then send step.sends h else h in
    let one = words-HasSpoken step.sends h opened in
    HasSpoken-trans _ _ h g (speak step h) one
      (send_some-HasSpoken step.sends_raw g (ap (λ (p : PipeBuffer). p.closed) one.input ∙ opened))
