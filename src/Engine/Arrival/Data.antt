-- ===== src/Engine/Arrival/Data.antt =====
-- engine.go: the handler of DATA reads the message, and no further.
use icesmtp.Engine.Arrival.{
  extend, onto, IsWithin, Lifted, write_response-extend, write_response-IsWithin, Lifted-later,
}
use icesmtp.Engine.Data.{
  handle_data, receive, end_transaction, accept_message, deliver, close_envelope, after_stream,
  with_writer, after_prompt, keep_stored, store, progress, resume,
}
use icesmtp.Engine.Greet.{move}
use icesmtp.Engine.Invariant.Message.{Round-cases}
use icesmtp.Engine.State.{Engine, show, on_data_start, write_response, notify}
use icesmtp.Engine.Stream.{
  stream_data, take_line, stop, Progress, Streamed, StreamEnd, complete, too_large, too_long, lost,
  unwritten, goes_on,
}
use icesmtp.Envelope.Build.{
  Builder, BuilderError, Finalized, ok, err, open_writer, close_writer, finalize,
}
use icesmtp.Envelope.{Envelope}
use icesmtp.Limits.{SessionLimits}
use icesmtp.Parser.{Command}
use icesmtp.Prelude.{
  ℕ, suc, ◌+◌, ◌++◌, List, [], ◌∷◌, Option, none, some, Bytes, ◌≡◌, refl, sym, ◌∙◌, ap, arith,
  length, inl, inr, Option-cases,
}
use icesmtp.Protocol.Command.{data_cmd}
use icesmtp.Protocol.Reply.{Response, response_start_mail_input}
use icesmtp.Protocol.State.{receiving}
use icesmtp.Session.Connection.{Connection, Failure, Read, line, failed}

abbrev longer : List Read → Streamed → Streamed
longer more t = record t { reads = t.reads ++ more }

stream_data_expired :
    (context : ℕ → Option Failure) (limits : SessionLimits) (at_end f : Failure) (rs : List Read)
    (p : Progress)
    → context p.clock ≡ some f
    → stream_data context limits at_end rs p ≡ stop rs p (lost f)
unfolding stream_data
stream_data_expired context limits at_end f [] p over = rw (over, stream_data) refl
stream_data_expired context limits at_end f (failed g ∷ rs) p over = rw (over, stream_data) refl
stream_data_expired context limits at_end f (line l ∷ rs) p over = rw (over, stream_data) refl

take_line-clock :
    (limits : SessionLimits) (l : Bytes) (p q : Progress)
    → take_line limits l p ≡ goes_on q
    → q.clock ≡ suc p.clock
unfolding take_line
take_line-clock limits l p q e = ground arith

stream_data-extend :
    (context : ℕ → Option Failure) (limits : SessionLimits) (at_end : Failure) (more rs : List Read)
    (p : Progress)
    → (stream_data context limits at_end rs p).clock
        + length (stream_data context limits at_end rs p).reads
      ≡ p.clock + length rs
    → stream_data context limits at_end (rs ++ more) p
      ≡ longer more (stream_data context limits at_end rs p)
unfolding stream_data
stream_data-extend context limits at_end more [] p h = elim (Option-cases (context p.clock)) [
  | inr (f, over) ↦ rw (over, stream_data) (stream_data_expired context limits at_end f more p over)
  | inl live ↦ absurd (no_read (rw (live, stream_data) at h))
]
  where
    no_read : suc p.clock + 0 ≡ p.clock + 0 → ⊥
    no_read e = omega (arith, e)
stream_data-extend context limits at_end more (failed f ∷ rs) p h = ground arith
stream_data-extend context limits at_end more (line l ∷ rs) p h =
    elim (Option-cases (context p.clock)) [
      | inr (f, over) ↦ rw (over, stream_data) refl
      | inl live ↦ elim (Round-cases (take_line limits l p)) [
        | inl (q, goes) ↦
            rw (live, stream_data, goes)
              (stream_data-extend context limits at_end more rs q
                (now q (take_line-clock limits l p q goes) (rw (live, stream_data, goes) at h)))
        | inr (q, why, over) ↦ rw (live, stream_data, over) refl
      ]
    ]
  where
    now :
        (q : Progress)
        → q.clock ≡ suc p.clock
        → (stream_data context limits at_end rs q).clock
            + length (stream_data context limits at_end rs q).reads
          ≡ p.clock + suc (length rs)
        → (stream_data context limits at_end rs q).clock
            + length (stream_data context limits at_end rs q).reads
          ≡ q.clock + length rs
    now q e h = omega (arith, e, h)

-- The engine leaves its connection as it is, and does the same when more has arrived.
abbrev Blind : List Read → Engine → Engine × Response → Engine × Response → Type 0
Blind more e now after = (after ≡ onto more now) × (now.0.conn ≡ e.conn)

module _ (more : List Read) where
  deliver-extend :
      (m : Envelope) (e : Engine) (answer : Option Failure)
      → Blind more e (deliver m e answer) (deliver m (extend more e) answer)
  unfolding end_transaction accept_message
  deliver-extend m e (some f) = (refl, refl)
  deliver-extend m e none = kept e.config.storage
    where
      kept :
          (storage : Option (ℕ → Envelope → Option Failure))
          → Blind more e
              (accept_message m (keep_stored storage m e))
              (accept_message m (keep_stored storage m (extend more e)))
      kept none = (refl, refl)
      kept (some f) = (refl, refl)

  close_envelope-extend :
      (e : Engine) (r : Builder × Finalized)
      → Blind more e (close_envelope e r) (close_envelope (extend more e) r)
  unfolding end_transaction
  close_envelope-extend e (b, err _) = (refl, refl)
  close_envelope-extend e (b, ok m) =
      deliver-extend m e (store e.config.storage e.stats.command_count m)

  after_stream-extend :
      (e : Engine) (b : Builder) (why : StreamEnd)
      → Blind more e (after_stream e b why) (after_stream (extend more e) b why)
  unfolding end_transaction
  after_stream-extend e b complete = close_envelope-extend e (finalize (close_writer b))
  after_stream-extend e b too_large = (refl, refl)
  after_stream-extend e b too_long = (refl, refl)
  after_stream-extend e b (lost f) = (refl, refl)
  after_stream-extend e b (unwritten f) = (refl, refl)

  receive-extend :
      (e : Engine) (b : Builder)
      → IsWithin e (receive e b).0
      → receive (extend more e) b ≡ onto more (receive e b)
  unfolding receive
  receive-extend e b h =
      let t =
        stream_data e.around.context e.config.limits e.conn.at_end e.conn.reads (progress e b) in
      let f = record e {
        conn = record e.conn { reads = t.reads; clock = t.clock };
        stats = record e.stats { bytes_read = t.bytes_read };
      } in
      let (same, still) = after_stream-extend f t.builder t.ended in
      let kept = ap (λ (c : Connection). c.clock + length c.reads) still in
      let read =
        stream_data-extend e.around.context e.config.limits e.conn.at_end more e.conn.reads
          (progress e b) (sym kept ∙ h) in
      ap (resume (extend more e)) read ∙ same

  with_writer-extend :
      (e : Engine) (p : Builder × Option BuilderError)
      → IsWithin e (with_writer e p).0
      → with_writer (extend more e) p ≡ onto more (with_writer e p)
  unfolding end_transaction
  with_writer-extend e (b, some _) h = refl
  with_writer-extend e (b, none) h = receive-extend e b h

  after_prompt-extend :
      (e : Engine) (envelope : Option Builder) (o : Option Failure)
      → Lifted more e (after_prompt envelope (e, o)) (after_prompt envelope (extend more e, o))
  after_prompt-extend e envelope (some _) = λ _. refl
  after_prompt-extend e none none = refl
  after_prompt-extend e (some b) none = λ h. ap some (with_writer-extend e (open_writer b) h)

  pub handle_data-extend :
      (cmd : Command) (e : Engine)
      → Lifted more e (handle_data cmd e) (handle_data cmd (extend more e))
  unfolding handle_data
  handle_data-extend cmd e =
      let g = notify on_data_start (show receiving (move data_cmd e)) in
      let (k, why) = write_response response_start_mail_input g in
      rw (write_response-extend more response_start_mail_input g) (
        Lifted-later more e k (after_prompt k.envelope (k, why))
          (after_prompt k.envelope (extend more k, why))
          (write_response-IsWithin response_start_mail_input g)
          (after_prompt-extend k k.envelope why))
