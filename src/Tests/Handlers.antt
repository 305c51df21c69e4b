-- ===== src/Tests/Handlers.antt =====
-- The theorems on DATA, on the TLS upgrade and on what follows a failed DATA, at concrete inputs.
use icesmtp.Engine.Data.Ends.{Outcome}
use icesmtp.Engine.Data.Outcome.{handle_data-Outcome}
use icesmtp.Engine.Data.{handle_data}
use icesmtp.Engine.Loop.Upgrade.{IsRenewed, perform_tls_upgrade-IsRenewed}
use icesmtp.Engine.Loop.Aftermath.{turn_after_failure}
use icesmtp.Engine.Loop.Wedge.{IsWedged, TurnIsWedged, here, onward}
use icesmtp.Engine.Loop.{
  Step, Turn, again, turn, reply, run_command, handle_command, process_one_command,
  perform_tls_upgrade,
}
use icesmtp.Engine.State.{Engine, new_engine}
use icesmtp.Engine.Stream.Transparency.{wire, received, stream_data-wire}
use icesmtp.Engine.Stream.{Progress, take_line, stream_data, stop, complete}
use icesmtp.Parser.{parse_command, is_terminator, unstuff_line, stuff_line}
use icesmtp.Prelude.{Option, none, some, [], ◌∷◌, ◌≡◌, refl, codes, false, Bytes, List, arith}
use icesmtp.Protocol.Command.{
  data_cmd, is_command_allowed, command_requires_argument, command_forbids_argument,
}
use icesmtp.Parser.Line.{parse_command_verb}
use icesmtp.Text.Case.{to_upper}
use icesmtp.Text.Space.{trim_space}
use icesmtp.Protocol.Reply.{Response, new_response}
use icesmtp.Protocol.State.{rcpt_to, start_tls}
use icesmtp.Session.Connection.{Failure, failed, timed_out, eof}
use icesmtp.Tests.Sample.{server_in, builder, crlf, config, command, tls_state}

-- The message of the tests behind DATA.
abbrev message : Engine
message = server_in rcpt_to (some builder) (crlf "hi" ∷ crlf "." ∷ []) []

abbrev answer : Option (Engine × Response) → Engine × Response
answer (some p) = p
answer none = (message, new_response 0 [])

abbrev data_result : Engine × Response
data_result = answer (handle_data (command data_cmd "") message)

handle_data-Outcome_example : Outcome builder message data_result.0 data_result.1
unfolding handle_data is_command_allowed take_line stream_data is_terminator unstuff_line new_engine
handle_data-Outcome_example =
    handle_data-Outcome (command data_cmd "") message data_result.0 builder data_result.1 refl refl
      refl refl

-- A client that sends a plain line together with STARTTLS.
abbrev upgrading : Engine
upgrading =
    server_in start_tls none (crlf "MAIL FROM:<evil@b.org>" ∷ []) (crlf "EHLO client.test" ∷ [])

perform_tls_upgrade-IsRenewed_example :
    (f : Engine) × (perform_tls_upgrade upgrading ≡ some (f, none))
    × IsRenewed tls_state (crlf "EHLO client.test" ∷ []) eof upgrading f
unfolding new_engine
perform_tls_upgrade-IsRenewed_example =
    perform_tls_upgrade-IsRenewed upgrading (λ _. none) tls_state 1 (crlf "EHLO client.test" ∷ [])
      eof refl refl refl refl

-- The read of the message times out; then the client sends RSET and QUIT.
abbrev broken_off : Engine
broken_off =
    server_in rcpt_to (some builder) (crlf "hi" ∷ failed timed_out ∷ crlf "RSET" ∷ crlf "QUIT" ∷ [])
      []

abbrev error_result : Engine × Response
error_result = answer (handle_data (command data_cmd "") broken_off)

abbrev stepped : Step → Engine × Option Failure
stepped (some p) = p
stepped none = (message, none)

abbrev replied : Engine × Option Failure
replied = stepped (reply (some error_result))

abbrev continued : Turn → Engine
continued (again f) = f
continued _ = message

-- Behind the round of RSET.
abbrev after_rset : Engine
after_rset = continued (turn replied.0)

error_facts :
    (handle_data (command data_cmd "") broken_off ≡ some error_result)
    × (error_result.1.code ≡ 451)
    × (reply (some error_result) ≡ some replied)
    × (turn replied.0 ≡ again after_rset)
unfolding handle_data take_line stream_data is_terminator unstuff_line new_engine turn
    process_one_command run_command handle_command is_command_allowed command_requires_argument
    command_forbids_argument parse_command parse_command_verb to_upper trim_space
error_facts = (refl, refl, refl, refl)

turn_after_failure_example :
    IsWedged [] error_result.0.conn.sent after_rset
    × TurnIsWedged [] error_result.0.conn.sent (turn after_rset)
unfolding new_engine is_command_allowed
turn_after_failure_example =
    turn_after_failure (command data_cmd "") broken_off error_result.0 replied.0 after_rset builder
      error_result.1 replied.1 refl refl refl error_facts.0 (omega (arith, error_facts.1))
      error_facts.2 (onward error_facts.3 here)

abbrev start : Progress
start = record {
  clock = 0;
  builder = record builder { data_writer = some false };
  total = 0;
  bytes_read = 0;
}

abbrev lines : List Bytes
lines = codes "hi\r\n" ∷ codes ".dot\r\n" ∷ []

stream_data-wire_example :
    stream_data (λ _. none) config.limits eof (wire lines (crlf "QUIT" ∷ [])) start
    ≡ stop (crlf "QUIT" ∷ []) (received lines start) complete
unfolding stuff_line
stream_data-wire_example =
    stream_data-wire (λ _. none) config.limits eof lines (crlf "QUIT" ∷ []) start (λ _. refl) refl
      ((λ h. omega arith), ((λ h. omega arith), tt)) (λ h. omega arith)
