-- ===== src/Engine/Loop.antt =====
-- engine.go: the dispatch of a command, one round of the main loop, the TLS upgrade, and `Run`.
pub mod Upgrade
pub mod Wedge
pub mod Aftermath
pub mod Reads
pub mod Termination
pub mod Livelock
pub mod Quit
pub mod Errors
pub mod Closing
use icesmtp.Engine.Data.{handle_data}
use icesmtp.Engine.Greet.{
  handle_helo, handle_ehlo, handle_rset, handle_noop, handle_quit, handle_vrfy, handle_help,
  handle_starttls,
}
use icesmtp.Engine.Mail.{handle_mail, handle_rcpt}
use icesmtp.Engine.State.{
  Engine, show, notify, on_connect, on_tls_upgrade, write_response, reset_transaction,
  check_error_limit, session_info, handle_disconnect,
}
use icesmtp.Limits.{LimitError}
use icesmtp.Parser.{Command, Parsed, ok, err, parse_command}
use icesmtp.Prelude.{
  ℕ, zero, suc, ◌+◌, true, not, [], ◌++◌, Option, none, some, Bytes, codes, length, if◌then◌else◌,
}
use icesmtp.Protocol.Command.{
  CommandVerb, helo, ehlo, mail, rcpt, data_cmd, rset, noop, quit, vrfy, help, starttls,
  is_command_allowed,
}
use icesmtp.Protocol.Machine.{
  StateMachine, StateTransitionError, abort, connect, greet, tls_complete,
}
use icesmtp.Protocol.Reply.{
  Response, new_response, is_positive, response_syntax_error, response_transaction_failed,
  response_bad_sequence, response_command_not_implemented,
}
use icesmtp.Protocol.State.{greeted, start_tls, is_terminal, same}
use icesmtp.Session.Config.{SessionInfo, DisconnectReason, normal, timeout, error, tls_failure}
use icesmtp.Session.Connection.{
  Connection, Failure, Read, line, failed, refused, other, read_line, upgrade_tls, reset_reader,
  is_io_error, is_timeout_error,
}
use icesmtp.Session.Tls.{TlsConnectionState}

abbrev pub dispatch : CommandVerb → Command → Engine → Option (Engine × Response)
dispatch helo cmd e = some (handle_helo cmd e)
dispatch ehlo cmd e = some (handle_ehlo cmd e)
dispatch mail cmd e = some (handle_mail cmd e)
dispatch rcpt cmd e = handle_rcpt cmd e
dispatch data_cmd cmd e = handle_data cmd e
dispatch rset cmd e = some (handle_rset cmd e)
dispatch noop cmd e = some (handle_noop cmd e)
dispatch quit cmd e = some (handle_quit cmd e)
dispatch vrfy cmd e = some (handle_vrfy cmd e)
dispatch help cmd e = some (handle_help cmd e)
dispatch starttls cmd e = some (handle_starttls cmd e)
dispatch _ cmd e = some (e, response_command_not_implemented)

-- `handleCommand`; `none` is a panic.
unfoldable pub handle_command : Command → Engine → Option (Engine × Response)
handle_command cmd e = dispatch cmd.verb cmd e

abbrev pub set_errors : ℕ → Engine → Engine
set_errors n e = record e { session = record e.session { consecutive_errors = n } }

-- The result of a step: the engine and the error that it returns, or a panic.
abbrev pub Step : Type 0
Step = Option (Engine × Option Failure)

abbrev pub refuse_line : Engine → Option LimitError → Step
refuse_line e (some _) =
    let f = (write_response (new_response 421 (codes "Too many errors, closing connection")) e).0 in
    some (record f { sm = (abort f.sm).0 }, some refused)
refuse_line e none = some ((write_response response_syntax_error e).0, some refused)

-- A line that does not parse.
unfoldable pub reject_line : Engine → Step
unfolding check_error_limit write_response abort
reject_line e =
    let f = set_errors (suc e.session.consecutive_errors) e in refuse_line f (check_error_limit f)

abbrev pub forgive : Response → Engine → Engine
forgive r e = if is_positive r.code then set_errors 0 e else e

abbrev pub settle : Response → Engine × Option Failure → Step
settle r (e, some f) = some (e, some f)
settle r (e, none) = some (forgive r e, none)

abbrev pub reply : Option (Engine × Response) → Step
reply none = none
reply (some (e, r)) = settle r (write_response r e)

-- From the test of the state on.
unfoldable pub run_command : Command → Engine → Step
unfolding handle_command write_response is_positive
run_command cmd e =
    if not (is_command_allowed e.sm.state cmd.verb)
    then some (
      (write_response response_bad_sequence (set_errors (suc e.session.consecutive_errors) e)).0,
      none,
    )
    else reply (handle_command cmd e)

abbrev pub ask_hook :
    Option (ℕ → Command → SessionInfo → Option Failure) → Command → Engine → Option Failure
ask_hook none cmd e = none
ask_hook (some on_command) cmd e = on_command e.stats.command_count cmd (session_info e)

abbrev pub after_hook : Command → Engine → Option Failure → Step
after_hook cmd e (some f) = some ((write_response response_transaction_failed e).0, some f)
after_hook cmd e none = run_command cmd e

abbrev pub after_parse : Engine → Parsed Command → Step
after_parse e (err _) = reject_line e
after_parse e (ok cmd) = after_hook cmd e (ask_hook e.config.hooks cmd e)

-- A line that was read: it is counted, parsed and handled.
unfoldable pub process_line : Bytes → Engine → Step
unfolding reject_line run_command write_response
process_line raw e =
    let f = record e {
      stats = record e.stats {
        bytes_read = e.stats.bytes_read + length raw;
        command_count = suc e.stats.command_count;
      };
    } in
    after_parse f (parse_command e.around.wide_upper e.max_command_length raw)

abbrev pub after_read : Engine → Read × Connection → Step
after_read e (failed f, conn) = some (record e { conn = conn }, some f)
after_read e (line raw, conn) = process_line raw (record e { conn = conn })

unfoldable pub process_one_command : Engine → Step
unfolding process_line read_line
process_one_command e = after_read e (read_line e.conn)

-- From the successful handshake on.
unfoldable pub finish_upgrade : TlsConnectionState → Engine → Engine
unfolding reset_reader tls_complete reset_transaction notify
finish_upgrade tls_state e =
    let f = show greeted (record e {
      session = record e.session { tls_active = true; tls_state = some tls_state };
      conn = reset_reader e.conn;
      sm = (tls_complete e.sm).0;
    }) in
    let g = reset_transaction f in
    notify (on_tls_upgrade tls_state)
      (record g { session = record g.session { client_hostname = [] } })

abbrev pub after_handshake :
    Engine → Connection × Option TlsConnectionState → Engine × Option Failure
after_handshake e (conn, none) = (record e { conn = conn }, some other)
after_handshake e (conn, some s) = (finish_upgrade s (record e { conn = conn }), none)

abbrev pub with_provider : Option (ℕ → Option Failure) → Engine → Step
with_provider none e = none
with_provider (some get_config) e = elim (get_config e.stats.command_count) [
  | some f ↦ some (e, some f)
  | none ↦ some (after_handshake e (upgrade_tls e.conn))
]

-- `performTLSUpgrade`. The source calls the provider without a test: `none` is a nil provider.
unfoldable pub perform_tls_upgrade : Engine → Step
unfolding finish_upgrade upgrade_tls
perform_tls_upgrade e = with_provider e.config.tls_provider e

-- How `Run` ends: with its error, in a panic, or not within the rounds given.
pub data Ending : Type 0 where
  returned : Engine → Option Failure → Ending
  panicked out_of_rounds : Ending

-- What a round of the main loop does: it returns, goes on, or panics.
pub data Turn : Type 0 where
  leave : DisconnectReason → Option Failure → Engine → Turn
  again : Engine → Turn
  panic : Turn

abbrev pub after_upgrade : Step → Turn
after_upgrade none = panic
after_upgrade (some (e, some f)) = leave tls_failure (some f) e
after_upgrade (some (e, none)) = again e

abbrev pub after_command : Step → Turn
after_command none = panic
after_command (some (e, none)) = again e
after_command (some (e, some f)) =
    if is_terminal e.sm.state
    then leave normal none e
    else if is_timeout_error f
    then leave timeout (some f) e
    else if is_io_error f
    then leave error (some f) e
    else again e

-- One round of the main loop.
unfoldable pub turn : Engine → Turn
unfolding is_terminal is_timeout_error is_io_error
turn e = elim (e.around.context e.conn.clock) [
  | some f ↦ leave timeout (some f) e
  | none ↦
      if is_terminal e.sm.state
      then leave normal none e
      else if same e.session.state start_tls
      then after_upgrade (perform_tls_upgrade e)
      else after_command (process_one_command e)
]

abbrev pub finish : DisconnectReason → Option Failure → Engine → Ending
finish reason why e = let (f, r) = handle_disconnect reason why e in returned f r

-- The main loop, for at most so many rounds.
unfoldable pub run_loop : ℕ → Engine → Ending
run_loop zero e = out_of_rounds
run_loop (suc rounds) e = elim (turn e) [
  | leave reason why f ↦ finish reason why f
  | again f ↦ run_loop rounds f
  | panic ↦ panicked
]

abbrev pub greeting : Engine → Response
greeting e = new_response 220 (e.config.server_hostname ++ codes " ESMTP icesmtp")

abbrev pub after_greet : ℕ → Engine → StateMachine × Option StateTransitionError → Ending
after_greet rounds e (sm, some _) = returned e (some other)
after_greet rounds e (sm, none) = run_loop rounds (show greeted (record e { sm = sm }))

abbrev pub welcome : ℕ → Engine × Option Failure → Ending
unfolding greet
welcome rounds (e, some f) = finish error (some f) e
welcome rounds (e, none) = after_greet rounds e (greet e.sm)

abbrev pub send_greeting : ℕ → Engine → Ending
unfolding greet write_response
send_greeting rounds e = welcome rounds (write_response (greeting e) e)

abbrev pub after_connect : ℕ → Engine → StateMachine × Option StateTransitionError → Ending
unfolding notify greet write_response
after_connect rounds e (sm, some _) = returned e (some other)
after_connect rounds e (sm, none) = send_greeting rounds (notify on_connect (record e { sm = sm }))

-- `Run`, with at most so many rounds of the main loop.
unfoldable pub run : ℕ → Engine → Ending
unfolding run_loop connect greet notify write_response
run rounds e = after_connect rounds e (connect e.sm)
