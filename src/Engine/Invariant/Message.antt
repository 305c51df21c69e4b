-- ===== src/Engine/Invariant/Message.antt =====
-- The handler of DATA keeps the invariant, whatever the client sends and however it ends.
use icesmtp.Engine.Data.{
  handle_data, receive, end_transaction, accept_message, deliver, close_envelope, after_stream,
  with_writer, after_prompt, keep_stored, resume, progress,
}
use icesmtp.Engine.Invariant.{
  IsCoherent, Serves, IsStarted, IsDeliverable, IsWithin, Fits, AllWelcome, All-concat,
  SenderIsApproved,
}
use icesmtp.Engine.Invariant.Handlers.{Ensures}
use icesmtp.Engine.State.{Engine}
use icesmtp.Engine.Stream.{
  Streamed, Progress, Round, goes_on, ends, StreamEnd, take_line, stream_data, complete,
}
use icesmtp.Envelope.Build.{Builder, open_writer, close_writer, finalize, Finalized, ok, err}
use icesmtp.Envelope.{Envelope}
use icesmtp.Limits.{SessionLimits}
use icesmtp.Parser.{Command, unstuff_line}
use mathlib.Core.Path.{subst}
use icesmtp.Prelude.{
  ℕ, true, false, none, some, ◌≡◌, ◌≢◌, refl, arith, Bytes, length, length-append, [], ◌∷◌, ◌++◌,
  Option, List, ◌⊎◌, inl, inr, Option-cases,
}
use icesmtp.Protocol.Command.{data_cmd, is_command_allowed}
use icesmtp.Protocol.Machine.{transition_for_command, abort}
use icesmtp.Protocol.State.{rcpt_to, receiving}
use icesmtp.Session.Config.{SessionConfig}
use icesmtp.Session.Tls
use icesmtp.Session.Tls.{required}
use icesmtp.Session.Connection.{Failure, Read, line, failed}

-- What the loop keeps: it only adds to the content, which `total` counts and the limit bounds.
pub record Keeps (limits : SessionLimits) (b : Builder) (p : Progress) : Type 0 where
  pub sender_kept : p.builder.mail_from ≡ b.mail_from
  pub recipients_kept : p.builder.recipients ≡ b.recipients
  pub metadata_kept : p.builder.metadata ≡ b.metadata
  pub unfinished_kept : p.builder.finalized ≡ b.finalized
  pub writer_kept : p.builder.data_writer ≡ b.data_writer
  pub counted : p.total ≡ length p.builder.content
  pub small : IsWithin limits.max_message_size (length p.builder.content)

abbrev pub RoundKeeps : SessionLimits → Builder → Round → Type 0
RoundKeeps limits b (goes_on p) = Keeps limits b p
RoundKeeps limits b (ends p why) = Keeps limits b p

abbrev pub left : Streamed → Progress
left s = record { clock = s.clock; builder = s.builder; total = s.total; bytes_read = s.bytes_read }

pub Round-cases :
    (r : Round)
    → ((p : Progress) × (r ≡ goes_on p)) ⊎ ((p : Progress) × (why : StreamEnd) × (r ≡ ends p why))
Round-cases (goes_on p) = inl (p, refl)
Round-cases (ends p why) = inr (p, why, refl)

take_line-Keeps :
    (limits : SessionLimits) (l : Bytes) (b : Builder) (p : Progress)
    → Keeps limits b p
    → RoundKeeps limits b (take_line limits l p)
unfolding take_line
take_line-Keeps limits l b p h = ground (arith, length-append p.builder.content (unstuff_line l))

pub stream_data-Keeps :
    (context : ℕ → Option Failure) (limits : SessionLimits) (at_end : Failure) (b : Builder)
    (rs : List Read) (p : Progress)
    → Keeps limits b p
    → Keeps limits b (left (stream_data context limits at_end rs p))
unfolding stream_data
stream_data-Keeps context limits at_end b [] p h = ground arith
stream_data-Keeps context limits at_end b (failed f ∷ rs) p h = ground arith
stream_data-Keeps context limits at_end b (line l ∷ rs) p h =
    elim (Option-cases (context p.clock)) [
      | inr (f, over) ↦ rw (over, stream_data) h
      | inl live ↦ elim (Round-cases (take_line limits l p)) [
        | inl (q, more) ↦
            rw (live, stream_data, more)
              (stream_data-Keeps context limits at_end b rs q
                (rw more at (take_line-Keeps limits l b p h)))
        | inr (q, why, over) ↦
            rw (live, stream_data, over) (rw over at (take_line-Keeps limits l b p h))
      ]
    ]

end_transaction-IsCoherent :
    {config : SessionConfig} (e : Engine)
    → e.sm.state ≡ receiving
    → Serves config e
    → IsCoherent config (end_transaction e)
unfolding end_transaction
end_transaction-IsCoherent e s d = ground arith

-- What the builder is when the stream ends, whatever ended it.
record IsFilled (config : SessionConfig) (b : Builder) : Type 0 where
  has_recipient : b.recipients ≢ []
  welcome : AllWelcome config b.recipients
  approved : SenderIsApproved config b.mail_from
  few_recipients : IsWithin config.limits.max_recipients (length b.recipients)
  small : IsWithin config.limits.max_message_size (length b.content)
  secure : Tls.same config.tls_policy required ≡ true → b.metadata.tls_active ≡ true

finalize-IsDeliverable :
    (config : SessionConfig) (b : Builder) (env : Envelope)
    → IsFilled config b
    → (finalize (close_writer b)).1 ≡ ok env
    → IsDeliverable config env
unfolding finalize close_writer
finalize-IsDeliverable config b env h e = ground arith

accept_message-IsCoherent :
    {config : SessionConfig} (env : Envelope) (e : Engine)
    → e.sm.state ≡ receiving
    → Serves config e
    → IsCoherent config (accept_message env e).0
unfolding accept_message
accept_message-IsCoherent env e s d = ground arith

keep_stored-IsCoherent :
    {config : SessionConfig} (storage : Option (ℕ → Envelope → Option Failure)) (env : Envelope)
    (e : Engine)
    → e.sm.state ≡ receiving
    → Serves config e
    → IsDeliverable e.config env
    → IsCoherent config (accept_message env (keep_stored storage env e)).0
keep_stored-IsCoherent none env e s d m = accept_message-IsCoherent env e s d
keep_stored-IsCoherent {config} (some f) env e s (same_config, all_stored) m =
    accept_message-IsCoherent env (record e { stored = e.stored ++ env ∷ [] }) s
      (
        same_config,
        All-concat (IsDeliverable config) e.stored env all_stored
            (subst (λ c. IsDeliverable c env) same_config m),
      )

deliver-IsCoherent :
    {config : SessionConfig} (env : Envelope) (e : Engine) (answer : Option Failure)
    → e.sm.state ≡ receiving
    → Serves config e
    → IsDeliverable e.config env
    → IsCoherent config (deliver env e answer).0
deliver-IsCoherent env e (some f) s d m = end_transaction-IsCoherent e s d
deliver-IsCoherent env e none s d m = keep_stored-IsCoherent e.config.storage env e s d m

close_envelope-IsCoherent :
    {config : SessionConfig} (e : Engine) (r : Builder × Finalized)
    → e.sm.state ≡ receiving
    → Serves config e
    → ((env : Envelope) → r.1 ≡ ok env → IsDeliverable e.config env)
    → IsCoherent config (close_envelope e r).0
close_envelope-IsCoherent e (b, err _) s d m = end_transaction-IsCoherent e s d
close_envelope-IsCoherent e (b, ok env) s d m = deliver-IsCoherent env e _ s d (m env refl)

after_stream-IsCoherent :
    {config : SessionConfig} (e : Engine) (b : Builder) (why : StreamEnd)
    → e.sm.state ≡ receiving
    → Serves config e
    → IsFilled e.config b
    → IsCoherent config (after_stream e b why).0
after_stream-IsCoherent e b complete s d h =
    close_envelope-IsCoherent e (finalize (close_writer b)) s d
      (λ env. finalize-IsDeliverable e.config b env h)
after_stream-IsCoherent e b _ s d h = end_transaction-IsCoherent e s d

open_writer-none :
    (b : Builder)
    → b.finalized ≡ false
    → b.data_writer ≡ none
    → open_writer b ≡ ((open_writer b).0, none)
unfolding open_writer
open_writer-none b u n = ground arith

resume-IsCoherent :
    {config : SessionConfig} (e : Engine) (s : Streamed)
    → e.sm.state ≡ receiving
    → Serves config e
    → IsFilled e.config s.builder
    → IsCoherent config (resume e s).0
resume-IsCoherent e s r d h = after_stream-IsCoherent _ s.builder s.ended r d h

-- The loop starts with the builder of a transaction, and adds to its content only.
Keeps-IsFilled :
    (config : SessionConfig) (b : Builder) (p : Progress)
    → IsStarted config b
    → b.recipients ≢ []
    → Keeps config.limits (open_writer b).0 p
    → IsFilled config p.builder
unfolding open_writer
Keeps-IsFilled config b p h r k = ground arith

Keeps-start :
    (e : Engine) (b : Builder)
    → IsStarted e.config b
    → Keeps e.config.limits (open_writer b).0 (progress e (open_writer b).0)
unfolding open_writer
Keeps-start e b h = ground arith

receive-IsCoherent :
    {config : SessionConfig} (e : Engine) (b : Builder)
    → e.sm.state ≡ receiving
    → Serves config e
    → IsStarted e.config b
    → b.recipients ≢ []
    → IsCoherent config (receive e (open_writer b).0).0
unfolding receive
receive-IsCoherent e b s d h r =
    let b' = (open_writer b).0 in
    let start = progress e b' in
    let done =
      stream_data-Keeps e.around.context e.config.limits e.conn.at_end b' e.conn.reads start
        (Keeps-start e b h) in
    let streamed = stream_data e.around.context e.config.limits e.conn.at_end e.conn.reads start in
    resume-IsCoherent e streamed s d (Keeps-IsFilled e.config b (left streamed) h r done)

with_writer-IsCoherent :
    {config : SessionConfig} (e : Engine) (b : Builder)
    → e.sm.state ≡ receiving
    → Serves config e
    → IsStarted e.config b
    → b.recipients ≢ []
    → IsCoherent config (with_writer e (open_writer b)).0
with_writer-IsCoherent e b s d h r =
    rw (open_writer-none b h.unfinished h.unopened) (receive-IsCoherent e b s d h r)

after_prompt-IsCoherent :
    {config : SessionConfig} (e : Engine) (envelope : Option Builder) (why : Option Failure)
    → e.sm.state ≡ receiving
    → Serves config e
    → Fits e.config rcpt_to envelope
    → Ensures (IsCoherent config) (after_prompt envelope (e, why))
unfolding abort
after_prompt-IsCoherent e none why s d h = absurd h
after_prompt-IsCoherent e (some b) none s d h = with_writer-IsCoherent e b s d h.0 h.1
after_prompt-IsCoherent e (some b) (some f) s d h = ground arith

-- The start of DATA, before the intermediate response.
pub data_start-receiving :
    (e : Engine)
    → is_command_allowed e.sm.state data_cmd ≡ true
    → (transition_for_command e.sm data_cmd true).0.state ≡ receiving
unfolding transition_for_command is_command_allowed
data_start-receiving e allowed = ground arith

data_start-Fits :
    {config : SessionConfig} (e : Engine)
    → is_command_allowed e.sm.state data_cmd ≡ true
    → IsCoherent config e
    → Fits e.config rcpt_to e.envelope
unfolding is_command_allowed
data_start-Fits e allowed h = ground arith

pub handle_data-IsCoherent :
    {config : SessionConfig} (cmd : Command) (e : Engine)
    → is_command_allowed e.sm.state data_cmd ≡ true
    → IsCoherent config e
    → Ensures (IsCoherent config) (handle_data cmd e)
unfolding handle_data
handle_data-IsCoherent cmd e allowed h =
    after_prompt-IsCoherent _ e.envelope _ (data_start-receiving e allowed) h.serves
      (data_start-Fits e allowed h)
