-- ===== src/Engine/Data/Ends.antt =====
-- engine.go: the three ends of DATA, with their reasons, behind the message.
use icesmtp.Engine.Data.{
  end_transaction, accept_message, deliver, close_envelope, after_stream, keep_stored, progress,
  stream_response, no_response, store, local_error,
}
use icesmtp.Engine.Greet.{move}
use icesmtp.Engine.Invariant.Message.{Keeps}
use icesmtp.Engine.State.{Engine, show, notify, on_data_start, write_response}
use icesmtp.Engine.Stream.{
  Streamed, StreamEnd, complete, too_large, too_long, lost, unwritten, stream_data,
}
use icesmtp.Envelope.Build.{
  Builder, BuilderError, Finalized, ok, err, open_writer, close_writer, finalize,
}
use icesmtp.Envelope.{Envelope}
use icesmtp.Parser.{MailPath}
use icesmtp.Prelude.{
  ℕ, suc, ◌≤◌, List, [], ◌∷◌, ◌++◌, Option, none, some, ◌≡◌, ◌≢◌, codes, refl, ap, ◌∙◌, arith, ◌⊎◌,
  inl, inr,
}
use icesmtp.Protocol.Command.{data_cmd}
use icesmtp.Protocol.Reply.{Response, response_start_mail_input}
use icesmtp.Protocol.State.{identified, receiving, aborted}
use icesmtp.Session.Config.{SessionConfig}
use icesmtp.Session.Connection.{Failure}

-- The message of the transaction was accepted: it has the transaction's sender and recipients, it
-- is stored if there is a storage, and the session is ready for the next transaction.
pub record IsAccepted (sender : Option MailPath) (recipients : List MailPath) (e f : Engine)
    (r : Response) (m : Envelope) : Type 0 where
  pub says_ok : r.code ≡ 250
  pub same_sender : some m.mail_from ≡ sender
  pub same_recipients : m.recipients ≡ recipients
  pub ready : f.sm.state ≡ identified
  pub shows : f.session.state ≡ identified
  pub no_envelope : f.envelope ≡ none
  pub is_stored : f.stored ≡ (keep_stored e.config.storage m e).stored
  pub one_more : f.stats.message_count ≡ suc e.stats.message_count
  pub one_transaction : f.stats.transaction_count ≡ suc e.stats.transaction_count

-- The message was refused: nothing is stored or counted, and the machine stays in Data.
pub record IsRefused (e f : Engine) (r : Response) : Type 0 where
  pub says_error : 400 ≤ r.code
  pub stuck : f.sm.state ≡ receiving
  pub shows : f.session.state ≡ identified
  pub no_envelope : f.envelope ≡ none
  pub not_stored : f.stored ≡ e.stored
  pub none_more : f.stats.message_count ≡ e.stats.message_count
  pub no_transaction : f.stats.transaction_count ≡ e.stats.transaction_count

-- The intermediate response could not be written.
pub record IsCutOff (e f : Engine) (r : Response) : Type 0 where
  pub zero_response : r ≡ no_response
  pub aborted_machine : f.sm.state ≡ aborted
  pub not_stored : f.stored ≡ e.stored

-- The engine behind the prompt, and the error of writing it.
abbrev pub prompted : Engine → Engine × Option Failure
prompted e =
    write_response response_start_mail_input
      (notify on_data_start (show receiving (move data_cmd e)))

-- What `streamData` comes to from here.
abbrev pub streamed : Engine → Builder → Streamed
streamed k b =
    stream_data k.around.context k.config.limits k.conn.at_end k.conn.reads (progress k b)

-- From `k`, behind the prompt, the message of the transaction came to its end, the envelope was
-- made of it, and the storage, if there is one, took it.
pub record Arrives (k : Engine) (b : Builder) (m : Envelope) : Type 0 where
  pub opened : (open_writer b).1 ≡ none
  pub whole : (streamed k (open_writer b).0).ended ≡ complete
  pub sealed : (finalize (close_writer (streamed k (open_writer b).0).builder)).1 ≡ ok m
  pub taken : store k.config.storage k.stats.command_count m ≡ none

-- The step that failed from `k` on, and the response that tells of it.
pub data Fails (k : Engine) (b : Builder) (r : Response) : Type 0 where
  no_writer :
      (why : BuilderError)
      → (open_writer b).1 ≡ some why
      → r ≡ local_error (codes "Unable to accept message")
      → Fails k b r
  cut_short :
      (open_writer b).1 ≡ none
      → (streamed k (open_writer b).0).ended ≢ complete
      → r ≡ stream_response (streamed k (open_writer b).0).ended
      → Fails k b r
  not_sealed :
      (why : BuilderError)
      → (open_writer b).1 ≡ none
      → (streamed k (open_writer b).0).ended ≡ complete
      → (finalize (close_writer (streamed k (open_writer b).0).builder)).1 ≡ err why
      → r ≡ local_error (codes "Unable to finalize message")
      → Fails k b r
  not_stored :
      (m : Envelope) (why : Failure)
      → (open_writer b).1 ≡ none
      → (streamed k (open_writer b).0).ended ≡ complete
      → (finalize (close_writer (streamed k (open_writer b).0).builder)).1 ≡ ok m
      → store k.config.storage k.stats.command_count m ≡ some why
      → r ≡ local_error (codes "Unable to store message")
      → Fails k b r

-- The three ends of DATA, each with a reason.
abbrev pub OutcomeBy :
    (Envelope → Type 0)
    → (Response → Type 0)
    → Type 0
    → Option MailPath
    → List MailPath
    → Engine
    → Engine
    → Response
    → Type 0
OutcomeBy A B C sender recipients e f r =
    ((m : Envelope) × IsAccepted sender recipients e f r m × A m)
    ⊎ ((IsRefused e f r × B r) ⊎ (IsCutOff e f r × C))

-- The reasons, where the prompt's write had this error, or none, and left this engine.
abbrev pub Accepting : Option Failure → Engine → Builder → Envelope → Type 0
Accepting o k b m = (o ≡ none) × Arrives k b m

abbrev pub Refusing : Option Failure → Engine → Builder → Response → Type 0
Refusing o k b r = (o ≡ none) × Fails k b r

abbrev pub CuttingOff : Option Failure → Type 0
CuttingOff o = (why : Failure) × (o ≡ some why)

-- How an allowed DATA ends, and why.
abbrev pub Outcome : Builder → Engine → Engine → Response → Type 0
Outcome b e f r =
    let (k, o) = prompted e in
    OutcomeBy (Accepting o k b) (Refusing o k b) (CuttingOff o) b.mail_from b.recipients e f r

pub end_transaction-IsRefused :
    (e : Engine) (r : Response)
    → e.sm.state ≡ receiving
    → 400 ≤ r.code
    → IsRefused e (end_transaction e) r
unfolding end_transaction
end_transaction-IsRefused e r s h = ground arith

stream_response-error : (why : StreamEnd) → 400 ≤ (stream_response why).code
unfolding stream_response
stream_response-error why = ground arith

accept_message-IsAccepted :
    (sender : Option MailPath) (recipients : List MailPath) (env : Envelope) (e : Engine)
    → e.sm.state ≡ receiving
    → some env.mail_from ≡ sender
    → env.recipients ≡ recipients
    → let (f, r) = accept_message env (keep_stored e.config.storage env e) in
      IsAccepted sender recipients e f r env
unfolding accept_message
accept_message-IsAccepted sender recipients env e s a b = ground arith

finalize-same :
    (b : Builder) (m : Envelope)
    → (finalize (close_writer b)).1 ≡ ok m
    → (some m.mail_from ≡ b.mail_from) × (m.recipients ≡ b.recipients)
unfolding finalize close_writer
finalize-same b m h = ground arith

-- `OutcomeBy` reads no more of the first engine than this.
pub record IsAlike (e g : Engine) : Type 0 where
  pub same_config : g.config ≡ e.config
  pub same_stored : g.stored ≡ e.stored
  pub same_messages : g.stats.message_count ≡ e.stats.message_count
  pub same_transactions : g.stats.transaction_count ≡ e.stats.transaction_count

keep_stored-alike :
    (storage : Option (ℕ → Envelope → Option Failure)) (m : Envelope) (e g : Engine)
    → g.stored ≡ e.stored
    → (keep_stored storage m g).stored ≡ (keep_stored storage m e).stored
keep_stored-alike none m e g h = h
keep_stored-alike (some _) m e g h = ap (◌++ (m ∷ [])) h

pub progress-Keeps :
    (e : Engine) (b : Builder) → b.content ≡ [] → Keeps e.config.limits b (progress e b)
progress-Keeps e b h = ground arith

pub open_writer-same :
    (b c : Builder)
    → open_writer b ≡ (c, none)
    → (c.mail_from ≡ b.mail_from) × (c.recipients ≡ b.recipients) × (c.content ≡ b.content)
unfolding open_writer
open_writer-same b c h = ground arith

module _ (A : Envelope → Type 0) (B : Response → Type 0) (C : Type 0) where
  deliver-Outcome :
      (sender : Option MailPath) (recipients : List MailPath) (env : Envelope) (e : Engine)
      (answer : Option Failure)
      → e.sm.state ≡ receiving
      → some env.mail_from ≡ sender
      → env.recipients ≡ recipients
      → (answer ≡ none → A env)
      → ((x : Failure) → answer ≡ some x → B (local_error (codes "Unable to store message")))
      → let (f, r) = deliver env e answer in OutcomeBy A B C sender recipients e f r
  deliver-Outcome sender recipients env e none s a b good full =
      inl (env, accept_message-IsAccepted sender recipients env e s a b, good refl)
  deliver-Outcome sender recipients env e (some f) s a b good full =
      inr (inl (end_transaction-IsRefused e _ s (omega arith), full f refl))

  close_envelope-Outcome :
      (sender : Option MailPath) (recipients : List MailPath) (e : Engine) (r : Builder × Finalized)
      → e.sm.state ≡ receiving
      → ((m : Envelope) → r.1 ≡ ok m → (some m.mail_from ≡ sender) × (m.recipients ≡ recipients))
      → ((m : Envelope) → r.1 ≡ ok m → store e.config.storage e.stats.command_count m ≡ none → A m)
      → ((m : Envelope) (x : Failure)
          → r.1 ≡ ok m
          → store e.config.storage e.stats.command_count m ≡ some x
          → B (local_error (codes "Unable to store message")))
      → ((x : BuilderError) → r.1 ≡ err x → B (local_error (codes "Unable to finalize message")))
      → let (f, reply) = close_envelope e r in OutcomeBy A B C sender recipients e f reply
  close_envelope-Outcome sender recipients e (b, err x) s same good full bad =
      inr (inl (end_transaction-IsRefused e _ s (omega arith), bad x refl))
  close_envelope-Outcome sender recipients e (b, ok m) s same good full bad =
      let (a, c) = same m refl in
      deliver-Outcome sender recipients m e _ s a c (good m refl) (λ (x : Failure). full m x refl)

  pub after_stream-Outcome :
      (e : Engine) (b : Builder) (why : StreamEnd)
      → e.sm.state ≡ receiving
      → ((m : Envelope)
          → why ≡ complete
          → (finalize (close_writer b)).1 ≡ ok m
          → store e.config.storage e.stats.command_count m ≡ none
          → A m)
      → ((m : Envelope) (x : Failure)
          → why ≡ complete
          → (finalize (close_writer b)).1 ≡ ok m
          → store e.config.storage e.stats.command_count m ≡ some x
          → B (local_error (codes "Unable to store message")))
      → ((x : BuilderError)
          → why ≡ complete
          → (finalize (close_writer b)).1 ≡ err x
          → B (local_error (codes "Unable to finalize message")))
      → (why ≢ complete → B (stream_response why))
      → let (f, r) = after_stream e b why in OutcomeBy A B C b.mail_from b.recipients e f r
  after_stream-Outcome e b complete s good full bad cut =
      close_envelope-Outcome b.mail_from b.recipients e (finalize (close_writer b)) s
        (finalize-same b) (λ (m : Envelope). good m refl)
        (λ (m : Envelope) (x : Failure). full m x refl) (λ (x : BuilderError). bad x refl)
  after_stream-Outcome e b too_large s good full bad cut =
      inr (inl (end_transaction-IsRefused e _ s (stream_response-error _), cut (λ p. cc)))
  after_stream-Outcome e b too_long s good full bad cut =
      inr (inl (end_transaction-IsRefused e _ s (stream_response-error _), cut (λ p. cc)))
  after_stream-Outcome e b (lost f) s good full bad cut =
      inr (inl (end_transaction-IsRefused e _ s (stream_response-error _), cut (λ p. cc)))
  after_stream-Outcome e b (unwritten f) s good full bad cut =
      inr (inl (end_transaction-IsRefused e _ s (stream_response-error _), cut (λ p. cc)))

  pub Outcome-alike :
      (sender : Option MailPath) (recipients : List MailPath) (f : Engine) (r : Response)
      (e g : Engine)
      → IsAlike e g
      → OutcomeBy A B C sender recipients g f r
      → OutcomeBy A B C sender recipients e f r
  Outcome-alike sender recipients f r e g a (inl (m, h, why)) =
      let kept : (keep_stored g.config.storage m g).stored
          ≡ (keep_stored e.config.storage m e).stored =
        ap (λ (c : SessionConfig). (keep_stored c.storage m g).stored) a.same_config
        ∙ keep_stored-alike e.config.storage m e g a.same_stored in
      inl (
        m,
        record {
          says_ok = h.says_ok;
          same_sender = h.same_sender;
          same_recipients = h.same_recipients;
          ready = h.ready;
          shows = h.shows;
          no_envelope = h.no_envelope;
          is_stored = h.is_stored ∙ kept;
          one_more = h.one_more ∙ ap suc a.same_messages;
          one_transaction = h.one_transaction ∙ ap suc a.same_transactions;
        },
        why,
      )
  Outcome-alike sender recipients f r e g a (inr (inl (h, why))) = inr (
      inl (
        record {
          says_error = h.says_error;
          stuck = h.stuck;
          shows = h.shows;
          no_envelope = h.no_envelope;
          not_stored = h.not_stored ∙ a.same_stored;
          none_more = h.none_more ∙ a.same_messages;
          no_transaction = h.no_transaction ∙ a.same_transactions;
        },
        why,
      ))
  Outcome-alike sender recipients f r e g a (inr (inr (h, why))) = inr (
      inr (
        record {
          zero_response = h.zero_response;
          aborted_machine = h.aborted_machine;
          not_stored = h.not_stored ∙ a.same_stored;
        },
        why,
      ))
