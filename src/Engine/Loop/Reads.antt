-- ===== src/Engine/Loop/Reads.antt =====
-- A command uses up reads of the connection, and changes nothing else that decides how long a
-- session can last.
use icesmtp.Engine.Data.{
  handle_data, receive, end_transaction, accept_message, deliver, close_envelope, after_stream,
  with_writer, after_prompt, keep_stored, store, progress,
}
use icesmtp.Engine.Greet.{
  move, handle_helo, handle_ehlo, handle_rset, handle_noop, handle_quit, handle_vrfy, handle_help,
  handle_starttls,
}
use icesmtp.Engine.Invariant.Message.{Round-cases}
use icesmtp.Engine.Loop.{
  dispatch, handle_command, settle, reply, run_command, set_errors, after_hook, after_parse,
  ask_hook, refuse_line, reject_line, process_line,
}
use icesmtp.Engine.Mail.{handle_mail, handle_rcpt, accept_recipient}
use icesmtp.Engine.State.{Engine, show, on_data_start, write_response, notify, check_error_limit}
use icesmtp.Engine.Stream.{stream_data, take_line, Progress, StreamEnd, complete}
use icesmtp.Envelope.Build.{
  Builder, BuilderError, Finalized, ok, err, open_writer, close_writer, finalize,
}
use icesmtp.Envelope.{Envelope}
use icesmtp.Limits.{SessionLimits, LimitError}
use icesmtp.Parser.{Command, Parsed, MailPath, parse_command}
use icesmtp.Parser
use icesmtp.Prelude.{
  ℕ, suc, ◌+◌, codes, ◌≤◌, ◌++◌, List, [], ◌∷◌, Option, none, some, Bytes, ◌≡◌, refl, arith, length,
  Bool-cases, inl, inr, Option-cases,
}
use icesmtp.Protocol.Command.{
  is_command_allowed, CommandVerb, helo, ehlo, mail, rcpt, data_cmd, rset, noop, quit, vrfy, help,
  starttls,
}
use icesmtp.Protocol.Machine.{abort}
use icesmtp.Protocol.State.{receiving}
use icesmtp.Protocol.Reply.{
  Response, is_positive, new_response, response_bad_sequence, response_start_mail_input,
}
use icesmtp.Session.Connection.{Failure, Read, line, failed}

pub record Uses (e f : Engine) : Type 0 where
  pub kept_tls : f.session.tls_active ≡ e.session.tls_active
  pub kept_handshake : f.conn.handshake ≡ e.conn.handshake
  pub kept_end : f.conn.at_end ≡ e.conn.at_end
  pub no_more : length f.conn.reads ≤ length e.conn.reads

abbrev pub Leaves {ℓ} : {R : Type 0} → (Engine → Type ℓ) → Option (Engine × R) → Type ℓ
Leaves P none = Unit
Leaves P (some (e, r)) = P e

pub Uses-refl : (e : Engine) → Uses e e
Uses-refl e = record {
  kept_tls = refl;
  kept_handshake = refl;
  kept_end = refl;
  no_more = omega arith;
}

pub Uses-trans : {e f g : Engine} → Uses e f → Uses f g → Uses e g
Uses-trans h k = ground arith

pub write_response-Uses : (r : Response) (e : Engine) → Uses e (write_response r e).0
unfolding write_response
write_response-Uses r e = ground arith

handle_helo-Uses : (cmd : Command) (e : Engine) → Uses e (handle_helo cmd e).0
unfolding handle_helo
handle_helo-Uses cmd e = ground arith

handle_ehlo-Uses : (cmd : Command) (e : Engine) → Uses e (handle_ehlo cmd e).0
unfolding handle_ehlo
handle_ehlo-Uses cmd e = ground arith

handle_rset-Uses : (cmd : Command) (e : Engine) → Uses e (handle_rset cmd e).0
unfolding handle_rset
handle_rset-Uses cmd e = ground arith

handle_quit-Uses : (cmd : Command) (e : Engine) → Uses e (handle_quit cmd e).0
unfolding handle_quit
handle_quit-Uses cmd e = ground arith

handle_starttls-Uses : (cmd : Command) (e : Engine) → Uses e (handle_starttls cmd e).0
unfolding handle_starttls
handle_starttls-Uses cmd e = ground arith

handle_mail-Uses : (cmd : Command) (e : Engine) → Uses e (handle_mail cmd e).0
unfolding handle_mail
handle_mail-Uses cmd e = ground arith

accept_recipient-Uses :
    (path : MailPath) (b : Builder) (e : Engine) (result : _)
    → Uses e (accept_recipient path b e result).0
unfolding accept_recipient
accept_recipient-Uses path b e result = ground arith

handle_rcpt-Uses : (cmd : Command) (e : Engine) → Leaves (Uses e) (handle_rcpt cmd e)
unfolding handle_rcpt
handle_rcpt-Uses cmd e = ground arith

end_transaction-Uses : (e : Engine) → Uses e (end_transaction e)
unfolding end_transaction
end_transaction-Uses e = ground arith

accept_message-Uses : (m : Envelope) (e : Engine) → Uses e (accept_message m e).0
unfolding accept_message
accept_message-Uses m e = ground arith

stream_data-shorter :
    (context : ℕ → Option Failure) (limits : SessionLimits) (at_end : Failure) (rs : List Read)
    (p : Progress)
    → length (stream_data context limits at_end rs p).reads ≤ length rs
unfolding stream_data
stream_data-shorter context limits at_end [] p = ground arith
stream_data-shorter context limits at_end (failed f ∷ rs) p = ground arith
stream_data-shorter context limits at_end (line l ∷ rs) p = elim (Option-cases (context p.clock)) [
  | inr (f, over) ↦ rw (over, stream_data) (omega arith)
  | inl live ↦ elim (Round-cases (take_line limits l p)) [
    | inl (q, more) ↦
        let shorter = stream_data-shorter context limits at_end rs q in
        rw (live, stream_data, more) (omega (arith, shorter))
    | inr (q, why, over) ↦ rw (live, stream_data, over) (omega arith)
  ]
]

kept_stored-Uses :
    (storage : Option (ℕ → Envelope → Option Failure)) (m : Envelope) (e : Engine)
    → Uses e (accept_message m (keep_stored storage m e)).0
kept_stored-Uses none m e = accept_message-Uses m e
kept_stored-Uses (some f) m e =
    let stores = record e { stored = e.stored ++ m ∷ [] } in
    let u = accept_message-Uses m stores in
    record {
      kept_tls = u.kept_tls;
      kept_handshake = u.kept_handshake;
      kept_end = u.kept_end;
      no_more = u.no_more;
    }

deliver-Uses : (m : Envelope) (e : Engine) (answer : Option Failure) → Uses e (deliver m e answer).0
deliver-Uses m e (some f) = end_transaction-Uses e
deliver-Uses m e none = kept_stored-Uses e.config.storage m e

close_envelope-Uses : (e : Engine) (r : Builder × Finalized) → Uses e (close_envelope e r).0
close_envelope-Uses e (b, err _) = end_transaction-Uses e
close_envelope-Uses e (b, ok m) = deliver-Uses m e (store e.config.storage e.stats.command_count m)

after_stream-Uses : (e : Engine) (b : Builder) (why : StreamEnd) → Uses e (after_stream e b why).0
after_stream-Uses e b complete = close_envelope-Uses e (finalize (close_writer b))
after_stream-Uses e b _ = end_transaction-Uses e

receive-Uses : (e : Engine) (b : Builder) → Uses e (receive e b).0
unfolding receive
receive-Uses e b =
    let t =
      stream_data e.around.context e.config.limits e.conn.at_end e.conn.reads (progress e b) in
    let f = record e {
      conn = record e.conn { reads = t.reads; clock = t.clock };
      stats = record e.stats { bytes_read = t.bytes_read };
    } in
    Uses-trans {f = f}
      (record {
        kept_tls = refl;
        kept_handshake = refl;
        kept_end = refl;
        no_more =
            stream_data-shorter e.around.context e.config.limits e.conn.at_end e.conn.reads
              (progress e b);
      })
      (after_stream-Uses f t.builder t.ended)

with_writer-Uses : (e : Engine) (p : Builder × Option BuilderError) → Uses e (with_writer e p).0
with_writer-Uses e (b, some _) = end_transaction-Uses e
with_writer-Uses e (b, none) = receive-Uses e b

after_prompt-Uses :
    (e : Engine) (envelope : Option Builder) (o : Option Failure)
    → Leaves (Uses e) (after_prompt envelope (e, o))
unfolding abort
after_prompt-Uses e envelope (some _) = ground arith
after_prompt-Uses e none none = tt
after_prompt-Uses e (some b) none = with_writer-Uses e (open_writer b)

Leaves-Uses :
    {R : Type 0} {e f : Engine} (o : Option (Engine × R))
    → Uses e f
    → Leaves (Uses f) o
    → Leaves (Uses e) o
Leaves-Uses none h k = tt
Leaves-Uses (some (g, r)) h k = Uses-trans h k

handle_data-Uses : (cmd : Command) (e : Engine) → Leaves (Uses e) (handle_data cmd e)
unfolding handle_data
handle_data-Uses cmd e =
    let g = notify on_data_start (show receiving (move data_cmd e)) in
    let (k, why) = write_response response_start_mail_input g in
    Leaves-Uses (after_prompt k.envelope (k, why))
      (Uses-trans {f = g}
        (record { kept_tls = refl; kept_handshake = refl; kept_end = refl; no_more = omega arith })
        (write_response-Uses response_start_mail_input g))
      (after_prompt-Uses k k.envelope why)

dispatch-Uses : (v : CommandVerb) (cmd : Command) (e : Engine) → Leaves (Uses e) (dispatch v cmd e)
dispatch-Uses helo cmd e = handle_helo-Uses cmd e
dispatch-Uses ehlo cmd e = handle_ehlo-Uses cmd e
dispatch-Uses mail cmd e = handle_mail-Uses cmd e
dispatch-Uses rcpt cmd e = handle_rcpt-Uses cmd e
dispatch-Uses data_cmd cmd e = handle_data-Uses cmd e
dispatch-Uses rset cmd e = handle_rset-Uses cmd e
dispatch-Uses quit cmd e = handle_quit-Uses cmd e
dispatch-Uses starttls cmd e = handle_starttls-Uses cmd e
dispatch-Uses noop cmd e = unfold handle_noop in Uses-refl e
dispatch-Uses vrfy cmd e = unfold handle_vrfy in Uses-refl e
dispatch-Uses help cmd e = unfold handle_help in Uses-refl e
dispatch-Uses _ cmd e = Uses-refl e

settle-Uses : (r : Response) (e : Engine) (o : Option Failure) → Leaves (Uses e) (settle r (e, o))
unfolding is_positive
settle-Uses r e (some f) = Uses-refl e
settle-Uses r e none = ground arith

reply-Uses :
    (e : Engine) (o : Option (Engine × Response)) → Leaves (Uses e) o → Leaves (Uses e) (reply o)
reply-Uses e none h = tt
reply-Uses e (some (f, r)) h =
    let (g, why) = write_response r f in
    Leaves-Uses (settle r (g, why)) (Uses-trans h (write_response-Uses r f)) (settle-Uses r g why)

set_errors-Uses : (n : ℕ) (e : Engine) → Uses e (set_errors n e)
set_errors-Uses n e = record {
  kept_tls = refl;
  kept_handshake = refl;
  kept_end = refl;
  no_more = omega arith;
}

run_command-Uses : (cmd : Command) (e : Engine) → Leaves (Uses e) (run_command cmd e)
unfolding run_command
run_command-Uses cmd e = elim (Bool-cases (is_command_allowed e.sm.state cmd.verb)) [
  | inl allowed ↦ rw allowed (
      unfold handle_command in
      reply-Uses e (dispatch cmd.verb cmd e) (dispatch-Uses cmd.verb cmd e))
  | inr forbidden ↦ rw forbidden (
      Uses-trans (set_errors-Uses (suc e.session.consecutive_errors) e) (
        write_response-Uses response_bad_sequence
          (set_errors (suc e.session.consecutive_errors) e)))
]

after_hook-Uses :
    (cmd : Command) (e : Engine) (o : Option Failure) → Leaves (Uses e) (after_hook cmd e o)
after_hook-Uses cmd e (some f) = write_response-Uses _ e
after_hook-Uses cmd e none = run_command-Uses cmd e

refuse_line-Uses : (e : Engine) (o : Option LimitError) → Leaves (Uses e) (refuse_line e o)
unfolding abort
refuse_line-Uses e none = write_response-Uses _ e
refuse_line-Uses e (some why) =
    let r = new_response 421 (codes "Too many errors, closing connection") in
    let u = write_response-Uses r e in
    record {
      kept_tls = u.kept_tls;
      kept_handshake = u.kept_handshake;
      kept_end = u.kept_end;
      no_more = u.no_more;
    }

after_parse-Uses : (e : Engine) (p : Parsed Command) → Leaves (Uses e) (after_parse e p)
after_parse-Uses e (Parser.ok cmd) = after_hook-Uses cmd e (ask_hook e.config.hooks cmd e)
after_parse-Uses e (Parser.err why) =
    unfold reject_line in
    let f = set_errors (suc e.session.consecutive_errors) e in
    Leaves-Uses (refuse_line f (check_error_limit f)) (set_errors-Uses _ e)
      (refuse_line-Uses f (check_error_limit f))

-- A line that was read and handled uses up no more than the reads that are left.
pub process_line-Uses : (raw : Bytes) (e : Engine) → Leaves (Uses e) (process_line raw e)
unfolding process_line
process_line-Uses raw e =
    let f = record e {
      stats = record e.stats {
        bytes_read = e.stats.bytes_read + length raw;
        command_count = suc e.stats.command_count;
      };
    } in
    let parsed = parse_command e.around.wide_upper e.max_command_length raw in
    Leaves-Uses (after_parse f parsed)
      (record { kept_tls = refl; kept_handshake = refl; kept_end = refl; no_more = omega arith })
      (after_parse-Uses f parsed)
