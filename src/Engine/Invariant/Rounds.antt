-- ===== src/Engine/Invariant/Rounds.antt =====
-- Every round of the main loop keeps the invariant, and so does a whole session.
use icesmtp.Engine.Invariant.Handlers.{
  Ensures, handle_helo-IsCoherent, handle_ehlo-IsCoherent, handle_rset-IsCoherent,
  handle_quit-IsCoherent, handle_starttls-IsCoherent,
}
use icesmtp.Engine.Invariant.Transactions.{handle_mail-IsCoherent, handle_rcpt-IsCoherent}
use icesmtp.Engine.Invariant.Message.{handle_data-IsCoherent}
use icesmtp.Engine.Invariant.{IsCoherent, is_some}
use icesmtp.Engine.Greet.{handle_noop, handle_vrfy, handle_help}
use icesmtp.Engine.Loop.{
  dispatch, set_errors, refuse_line, reject_line, settle, reply, run_command, after_hook,
  after_parse, process_line, after_read, process_one_command, finish_upgrade, after_handshake,
  with_provider,
}
use icesmtp.Engine.State.{Engine, write_response}
use icesmtp.Limits.{LimitError}
use icesmtp.Parser.{Command, Parsed, ok, err}
use icesmtp.Prelude.{
  ℕ, true, false, none, some, ◌≡◌, arith, Bytes, Option, inl, inr, Bool-cases, Option-cases,
}
use icesmtp.Protocol.Command.{
  CommandVerb, helo, ehlo, mail, rcpt, data_cmd, rset, noop, quit, vrfy, help, starttls,
  is_command_allowed,
}
use icesmtp.Protocol.Machine.{abort}
use icesmtp.Protocol.Reply.{Response, is_positive}
use icesmtp.Protocol.State.{start_tls, same, is_terminal}
use icesmtp.Session.Config.{SessionConfig}
use icesmtp.Session.Connection.{Connection, Failure, Read, line, failed}
use icesmtp.Session.Tls.{TlsConnectionState}

dispatch-IsCoherent :
    {config : SessionConfig} (verb : CommandVerb) (cmd : Command) (e : Engine)
    → is_command_allowed e.sm.state verb ≡ true
    → IsCoherent config e
    → Ensures (IsCoherent config) (dispatch verb cmd e)
dispatch-IsCoherent helo cmd e a h = handle_helo-IsCoherent cmd e a h
dispatch-IsCoherent ehlo cmd e a h = handle_ehlo-IsCoherent cmd e a h
dispatch-IsCoherent mail cmd e a h = handle_mail-IsCoherent cmd e a h
dispatch-IsCoherent rcpt cmd e a h = handle_rcpt-IsCoherent cmd e a h
dispatch-IsCoherent data_cmd cmd e a h = handle_data-IsCoherent cmd e a h
dispatch-IsCoherent rset cmd e a h = handle_rset-IsCoherent cmd e a h
dispatch-IsCoherent quit cmd e a h = handle_quit-IsCoherent cmd e a h
dispatch-IsCoherent starttls cmd e a h = handle_starttls-IsCoherent cmd e a h
dispatch-IsCoherent noop cmd e a h = unfold handle_noop in h
dispatch-IsCoherent vrfy cmd e a h = unfold handle_vrfy in h
dispatch-IsCoherent help cmd e a h = unfold handle_help in h
dispatch-IsCoherent _ cmd e a h = h

-- A reply and a new error count touch nothing that the invariant reads.
write_response-IsCoherent :
    {config : SessionConfig} (r : Response) (e : Engine)
    → IsCoherent config e
    → IsCoherent config (write_response r e).0
unfolding write_response
write_response-IsCoherent r e h = record {
  agrees = h.agrees;
  fits = h.fits;
  can_upgrade = h.can_upgrade;
  serves = h.serves;
}

set_errors-IsCoherent :
    {config : SessionConfig} (n : ℕ) (e : Engine)
    → IsCoherent config e
    → IsCoherent config (set_errors n e)
set_errors-IsCoherent n e h = record {
  agrees = h.agrees;
  fits = h.fits;
  can_upgrade = h.can_upgrade;
  serves = h.serves;
}

abort-IsCoherent :
    {config : SessionConfig} (e : Engine)
    → IsCoherent config e
    → IsCoherent config (record e { sm = (abort e.sm).0 })
unfolding abort
abort-IsCoherent e h = ground arith

refuse_line-IsCoherent :
    {config : SessionConfig} (e : Engine) (o : Option LimitError)
    → IsCoherent config e
    → Ensures (IsCoherent config) (refuse_line e o)
refuse_line-IsCoherent e none h = write_response-IsCoherent _ e h
refuse_line-IsCoherent e (some why) h = abort-IsCoherent _ (write_response-IsCoherent _ e h)

settle-IsCoherent :
    {config : SessionConfig} (r : Response) (e : Engine) (o : Option Failure)
    → IsCoherent config e
    → Ensures (IsCoherent config) (settle r (e, o))
settle-IsCoherent r e (some f) h = h
settle-IsCoherent r e none h = elim (Bool-cases (is_positive r.code)) [
  | inl positive ↦ rw positive (set_errors-IsCoherent 0 e h)
  | inr negative ↦ rw negative h
]

reply-IsCoherent :
    (config : SessionConfig) (o : Option (Engine × Response))
    → Ensures (IsCoherent config) o
    → Ensures (IsCoherent config) (reply o)
reply-IsCoherent config none h = h
reply-IsCoherent config (some (e, r)) h = settle-IsCoherent r _ _ (write_response-IsCoherent r e h)

run_command-IsCoherent :
    {config : SessionConfig} (cmd : Command) (e : Engine)
    → IsCoherent config e
    → Ensures (IsCoherent config) (run_command cmd e)
unfolding run_command
run_command-IsCoherent cmd e h = elim (Bool-cases (is_command_allowed e.sm.state cmd.verb)) [
  | inl allowed ↦ rw allowed (reply-IsCoherent _ _ (dispatch-IsCoherent cmd.verb cmd e allowed h))
  | inr forbidden ↦ rw forbidden (write_response-IsCoherent _ _ (set_errors-IsCoherent _ e h))
]

after_hook-IsCoherent :
    {config : SessionConfig} (cmd : Command) (e : Engine) (o : Option Failure)
    → IsCoherent config e
    → Ensures (IsCoherent config) (after_hook cmd e o)
after_hook-IsCoherent cmd e (some f) h = write_response-IsCoherent _ e h
after_hook-IsCoherent cmd e none h = run_command-IsCoherent cmd e h

after_parse-IsCoherent :
    {config : SessionConfig} (e : Engine) (p : Parsed Command)
    → IsCoherent config e
    → Ensures (IsCoherent config) (after_parse e p)
unfolding reject_line
after_parse-IsCoherent e (err why) h = refuse_line-IsCoherent _ _ (set_errors-IsCoherent _ e h)
after_parse-IsCoherent e (ok cmd) h = after_hook-IsCoherent cmd e _ h

-- A line that the client sends keeps the invariant, and makes no handler panic.
pub process_line-IsCoherent :
    {config : SessionConfig} (raw : Bytes) (e : Engine)
    → IsCoherent config e
    → Ensures (IsCoherent config) (process_line raw e)
unfolding process_line
process_line-IsCoherent raw e h =
    after_parse-IsCoherent _ _
      (record { agrees = h.agrees; fits = h.fits; can_upgrade = h.can_upgrade; serves = h.serves })

after_read-IsCoherent :
    {config : SessionConfig} (e : Engine) (r : Read) (conn : Connection)
    → IsCoherent config e
    → Ensures (IsCoherent config) (after_read e (r, conn))
after_read-IsCoherent e (failed f) conn h = record {
  agrees = h.agrees;
  fits = h.fits;
  can_upgrade = h.can_upgrade;
  serves = h.serves;
}
after_read-IsCoherent e (line raw) conn h =
    process_line-IsCoherent raw _
      (record { agrees = h.agrees; fits = h.fits; can_upgrade = h.can_upgrade; serves = h.serves })

pub process_one_command-IsCoherent :
    {config : SessionConfig} (e : Engine)
    → IsCoherent config e
    → Ensures (IsCoherent config) (process_one_command e)
unfolding process_one_command
process_one_command-IsCoherent e h = after_read-IsCoherent e _ _ h

finish_upgrade-IsCoherent :
    {config : SessionConfig} (s : TlsConnectionState) (e : Engine)
    → e.sm.state ≡ start_tls
    → IsCoherent config e
    → IsCoherent config (finish_upgrade s e)
unfolding finish_upgrade
finish_upgrade-IsCoherent s e is_start h = ground arith

-- While the session shows StartTLS, so does the machine, and there is a provider.
pub upgrade_under_way :
    {config : SessionConfig} (e : Engine)
    → IsCoherent config e
    → is_terminal e.sm.state ≡ false
    → same e.session.state start_tls ≡ true
    → (e.sm.state ≡ start_tls)
      × (is_some e.config.tls_provider ≡ true)
      × (e.session.tls_active ≡ false)
unfolding is_terminal
upgrade_under_way e h live shows = ground arith

after_handshake-IsCoherent :
    {config : SessionConfig} (e : Engine) (conn : Connection) (o : Option TlsConnectionState)
    → e.sm.state ≡ start_tls
    → IsCoherent config e
    → IsCoherent config (after_handshake e (conn, o)).0
after_handshake-IsCoherent e conn none s h = record {
  agrees = h.agrees;
  fits = h.fits;
  can_upgrade = h.can_upgrade;
  serves = h.serves;
}
after_handshake-IsCoherent e conn (some t) s h =
    finish_upgrade-IsCoherent t _ s
      (record { agrees = h.agrees; fits = h.fits; can_upgrade = h.can_upgrade; serves = h.serves })

pub with_provider-IsCoherent :
    {config : SessionConfig} (o : Option (ℕ → Option Failure)) (e : Engine)
    → is_some o ≡ true
    → e.sm.state ≡ start_tls
    → IsCoherent config e
    → Ensures (IsCoherent config) (with_provider o e)
with_provider-IsCoherent none e p s h = cc
with_provider-IsCoherent (some get_config) e p s h =
    elim (Option-cases (get_config e.stats.command_count)) [
      | inr (f, refusal) ↦ rw (refusal, with_provider) h
      | inl granted ↦ rw (granted, with_provider) (after_handshake-IsCoherent e _ _ s h)
    ]
