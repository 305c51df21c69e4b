-- ===== src/Engine/Data/Outcome.antt =====
-- engine.go: how DATA ends, on each branch of its handler.
use icesmtp.Engine.Data.Ends.{
  prompted, streamed, no_writer, cut_short, not_sealed, not_stored, OutcomeBy, Accepting, Refusing,
  CuttingOff, Outcome, end_transaction-IsRefused, progress-Keeps, open_writer-same,
  after_stream-Outcome, Outcome-alike,
}
use icesmtp.Engine.Data.{
  handle_data, receive, end_transaction, after_stream, with_writer, after_prompt, progress,
}
use icesmtp.Engine.Invariant.Message.{data_start-receiving, Keeps, stream_data-Keeps, left}
use icesmtp.Engine.State.{Engine}
use icesmtp.Envelope.Build.{Builder, BuilderError, open_writer}
use icesmtp.Envelope.{Envelope}
use icesmtp.Parser.{Command, MailPath}
use icesmtp.Prelude.{true, List, [], Option, none, some, ◌≡◌, refl, sym, ap, ◌∙◌, arith, inl, inr}
use icesmtp.Protocol.Command.{data_cmd, is_command_allowed}
use icesmtp.Protocol.Machine.{abort}
use icesmtp.Protocol.Reply.{Response}
use icesmtp.Protocol.State.{receiving}
use icesmtp.Session.Connection.{Failure}
use mathlib.Core.Path.{subst}
use mathlib.Core.Option.{some-injective}

receive-Outcome :
    (C : Type 0) (o : Option Failure) (k : Engine) (b : Builder)
    → o ≡ none
    → k.sm.state ≡ receiving
    → (open_writer b).1 ≡ none
    → b.content ≡ []
    → let (f, r) = receive k (open_writer b).0 in
      OutcomeBy (Accepting o k b) (Refusing o k b) C b.mail_from b.recipients k f r
unfolding receive
receive-Outcome C o k b written s opened h =
    let A = Accepting o k b in
    let B = Refusing o k b in
    let c = (open_writer b).0 in
    let t = streamed k c in
    let same = open_writer-same b c (ap (λ (x : Option BuilderError). (c, x)) opened) in
    let kept : Keeps k.config.limits c (left t) =
      stream_data-Keeps k.around.context k.config.limits k.conn.at_end c k.conn.reads (progress k c)
        (progress-Keeps k c (same.2 ∙ h)) in
    let g = record k {
      conn = record k.conn { reads = t.reads; clock = t.clock };
      stats = record k.stats { bytes_read = t.bytes_read };
    } in
    let (f, r) = after_stream g t.builder t.ended in
    let ends =
      after_stream-Outcome A B C g t.builder t.ended s
        (λ (m : Envelope) whole sealed taken.
          (written, record { opened = opened; whole = whole; sealed = sealed; taken = taken }))
        (λ (m : Envelope) (x : Failure) whole sealed full.
          (written, not_stored m x opened whole sealed full refl))
        (λ (x : BuilderError) whole bad. (written, not_sealed x opened whole bad refl))
        (λ cut. (written, cut_short opened cut refl)) in
    Outcome-alike A B C b.mail_from b.recipients f r k g
      (record {
        same_config = refl;
        same_stored = refl;
        same_messages = refl;
        same_transactions = refl;
      })
      (subst (λ (x : Option MailPath). OutcomeBy A B C x b.recipients g f r)
        (kept.sender_kept ∙ same.0)
        (subst (λ (x : List MailPath). OutcomeBy A B C t.builder.mail_from x g f r)
          (kept.recipients_kept ∙ same.1) ends))

with_writer-Outcome :
    (C : Type 0) (o : Option Failure) (k : Engine) (b : Builder) (p : Builder × Option BuilderError)
    → o ≡ none
    → k.sm.state ≡ receiving
    → b.content ≡ []
    → open_writer b ≡ p
    → let (f, r) = with_writer k p in
      OutcomeBy (Accepting o k b) (Refusing o k b) C b.mail_from b.recipients k f r
unfolding end_transaction
with_writer-Outcome C o k b (c, some why) written s h is = inr (
    inl (
      end_transaction-IsRefused k _ s (omega arith),
      (written, no_writer why (ap (λ (p : Builder × Option BuilderError). p.1) is) refl),
    ))
with_writer-Outcome C o k b (c, none) written s h is =
    subst
      (λ (x : Builder).
        OutcomeBy (Accepting o k b) (Refusing o k b) C b.mail_from b.recipients k (receive k x).0
          (receive k x).1)
      (ap (λ (p : Builder × Option BuilderError). p.0) is)
      (receive-Outcome C o k b written s (ap (λ (p : Builder × Option BuilderError). p.1) is) h)

after_prompt-Outcome :
    (b : Builder) (k f : Engine) (o : Option Failure) (r : Response)
    → k.sm.state ≡ receiving
    → b.content ≡ []
    → after_prompt (some b) (k, o) ≡ some (f, r)
    → OutcomeBy (Accepting o k b) (Refusing o k b) (CuttingOff o) b.mail_from b.recipients k f r
unfolding abort receive open_writer
after_prompt-Outcome b k f (some why) r s h p = inr (
    inr (
      record {
        zero_response = ground arith;
        aborted_machine = ground arith;
        not_stored = ground arith;
      },
      (why, refl),
    ))
after_prompt-Outcome b k f none r s h p =
    subst
      (λ (x : Engine × Response).
        OutcomeBy (Accepting none k b) (Refusing none k b) (CuttingOff none) b.mail_from
          b.recipients k x.0 x.1)
      (some-injective (with_writer k (open_writer b)) (f, r) p)
      (with_writer-Outcome (CuttingOff none) none k b (open_writer b) refl s h refl)

-- An allowed DATA, whatever the client sends, with an envelope that has no data yet, ends in one of
-- three ways, each for its reason. The message is accepted with 250, under the
-- sender and the recipients of the transaction, stored if there is a storage, and the machine is
-- back at Identified: the prompt was written, the message was read up to its terminator, the
-- envelope was made of what was read, and the storage took it. Or it is refused with the error code
-- of the step behind the prompt that failed, the writer, the reading, the envelope or the storage;
-- nothing is stored or counted, and the machine stays in Data while the session shows Identified.
-- Or the prompt could not be written; then the machine is aborted, and nothing is stored.
pub handle_data-Outcome :
    (cmd : Command) (e f : Engine) (b : Builder) (r : Response)
    → is_command_allowed e.sm.state data_cmd ≡ true
    → e.envelope ≡ some b
    → b.content ≡ []
    → handle_data cmd e ≡ some (f, r)
    → Outcome b e f r
unfolding handle_data is_command_allowed
handle_data-Outcome cmd e f b r allowed has_envelope h p =
    let (k, why) = prompted e in
    Outcome-alike (Accepting why k b) (Refusing why k b) (CuttingOff why) b.mail_from b.recipients f
      r e k
      (record {
        same_config = refl;
        same_stored = refl;
        same_messages = refl;
        same_transactions = refl;
      })
      (after_prompt-Outcome b k f why r (data_start-receiving e allowed) h
        (ap (λ (x : Option Builder). after_prompt x (k, why)) (sym has_envelope) ∙ p))
