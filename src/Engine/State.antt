-- ===== src/Engine/State.antt =====
-- engine.go: the state of `Engine`, and the methods that its handlers share.
use icesmtp.Envelope.Build
use icesmtp.Envelope.Build.{Builder}
use icesmtp.Envelope.{Envelope, recipient_count}
use icesmtp.Limits.{LimitError, check_error_count}
use icesmtp.Parser.{MailPath}
use icesmtp.Prelude.{
  ℕ, ◌+◌, Bool, true, false, List, [], ◌∷◌, ◌++◌, Option, none, some, Bytes, length, ◌==◌,
  if◌then◌else◌,
}
use icesmtp.Protocol.Machine.{StateMachine, new_state_machine, abort}
use icesmtp.Protocol.Reply.{Response, bytes}
use icesmtp.Protocol.State.{State, disconnected}
use icesmtp.Session.Config.{SessionConfig, SessionInfo, Surroundings, DisconnectReason}
use icesmtp.Session.Connection
use icesmtp.Session.Connection.{Connection, Failure}
use icesmtp.Session.Tls.{TlsConnectionState}

-- `SessionState`, without the fields that no code uses.
pub record SessionState : Type 0 where
  pub state : State
  pub client_hostname : Bytes
  pub tls_active : Bool
  pub tls_state : Option TlsConnectionState
  pub authenticated : Bool
  pub authenticated_user : Bytes
  pub consecutive_errors : ℕ

-- `SessionStats`, without the times.
pub record SessionStats : Type 0 where
  pub bytes_read : ℕ
  pub bytes_written : ℕ
  pub command_count : ℕ
  pub transaction_count : ℕ
  pub message_count : ℕ
  pub recipient_count : ℕ

-- The calls of `SessionHooks` that report something.
pub data Notice : Type 0 where
  on_connect on_data_start : Notice
  on_disconnect : DisconnectReason → Notice
  on_mail_from on_rcpt_to : MailPath → Notice
  on_data_end : Envelope → Notice
  on_tls_upgrade : TlsConnectionState → Notice

-- `notices` is what the hooks were told and `stored` what `Storage.Store` took, the latest last.
pub record Engine : Type 0 where
  pub config : SessionConfig
  pub around : Surroundings
  pub conn : Connection
  pub max_command_length : ℕ
  pub sm : StateMachine
  pub session : SessionState
  pub stats : SessionStats
  pub session_id : Bytes
  pub client_ip : Bytes
  pub envelope : Option Builder
  pub closed : Bool
  pub notices : List Notice
  pub stored : List Envelope

abbrev default_length : ℕ → ℕ
default_length n = if n == 0 then 512 else n

-- `NewEngineWithConn`; the options set the identifier and the address.
unfoldable pub new_engine : SessionConfig → Surroundings → Connection → Bytes → Bytes → Engine
unfolding new_state_machine
new_engine config around conn session_id client_ip = record {
  config = config;
  around = around;
  conn = conn;
  max_command_length = default_length config.limits.max_command_length;
  sm = new_state_machine;
  session = record {
    state = disconnected;
    client_hostname = [];
    tls_active = false;
    tls_state = none;
    authenticated = false;
    authenticated_user = [];
    consecutive_errors = 0;
  };
  stats = record {
    bytes_read = 0;
    bytes_written = 0;
    command_count = 0;
    transaction_count = 0;
    message_count = 0;
    recipient_count = 0;
  };
  session_id = session_id;
  client_ip = client_ip;
  envelope = none;
  closed = false;
  notices = [];
  stored = [];
}

-- `e.state.State = s`.
abbrev pub show : State → Engine → Engine
show s e = record e { session = record e.session { state = s } }

-- A call of a hook that reports, if there are hooks.
abbrev notify_if {ℓ} : {A : Type ℓ} → Option A → Notice → List Notice → List Notice
notify_if none n ns = ns
notify_if (some _) n ns = ns ++ n ∷ []

unfoldable pub notify : Notice → Engine → Engine
notify n e = record e { notices = notify_if e.config.hooks n e.notices }

abbrev pub count_written : Option Failure → Response → ℕ → ℕ
count_written none r n = n + length (bytes r)
count_written (some _) r n = n

-- `writeResponse`. A write that fails is taken to have written nothing.
unfoldable pub write_response : Response → Engine → Engine × Option Failure
unfolding Connection.write
write_response r e =
    let (conn, err) = Connection.write r e.conn in
    (
      record e {
        conn = conn;
        stats = record e.stats { bytes_written = count_written err r e.stats.bytes_written };
      },
      err,
    )

-- `resetTransaction`. The source also resets the builder that it lets go, which nothing else holds.
unfoldable pub reset_transaction : Engine → Engine
reset_transaction e = record e { envelope = none }

unfoldable pub check_error_limit : Engine → Option LimitError
unfolding check_error_count
check_error_limit e = check_error_count e.config.limits e.session.consecutive_errors

abbrev shown_sender : Option Builder → Option MailPath
unfolding Build.build
shown_sender none = none
shown_sender (some b) = some (Build.build b).mail_from

abbrev shown_recipients : Option Builder → ℕ
unfolding Build.build recipient_count
shown_recipients none = 0
shown_recipients (some b) = recipient_count (Build.build b)

-- The engine as its own `SessionInfo`.
unfoldable pub session_info : Engine → SessionInfo
unfolding Build.build recipient_count
session_info e = record {
  id = e.session_id;
  state = e.session.state;
  client_hostname = e.session.client_hostname;
  client_ip = e.client_ip;
  tls_active = e.session.tls_active;
  authenticated = e.session.authenticated;
  authenticated_user = e.session.authenticated_user;
  current_mail_from = shown_sender e.envelope;
  current_recipient_count = shown_recipients e.envelope;
}

-- `handleDisconnect`. The lock makes the test and the write of `closed` one step.
unfoldable pub handle_disconnect :
    DisconnectReason → Option Failure → Engine → Engine × Option Failure
unfolding notify
handle_disconnect reason err e =
    if e.closed
    then (e, none)
    else (notify (on_disconnect reason) (record e { closed = true }), err)

-- `Close`, of which the model keeps what it does to the engine. The reads of a connection that is
-- closed are those that it has left, with the error of a closed connection behind them.
unfoldable pub close : Engine → Engine
unfolding abort
close e = record e { closed = true; sm = (abort e.sm).0 }
