-- ===== src/Tests/Sessions.antt =====
-- The theorems on whole sessions and on DATA, for a client that sends one message.
use icesmtp.Engine.Data.{handle_data}
use icesmtp.Engine.Greet.{
  handle_helo, handle_ehlo, extension_lines, handle_rset, handle_noop, handle_quit, handle_vrfy,
  handle_help, handle_starttls,
}
use icesmtp.Engine.Loop.{
  run, run_loop, turn, process_one_command, run_command, handle_command, perform_tls_upgrade,
}
use icesmtp.Engine.Mail.{handle_mail, handle_rcpt}
use icesmtp.Engine.State.{new_engine, check_error_limit, session_info, handle_disconnect}
use icesmtp.Engine.Stream.{take_line, stream_data}
use icesmtp.Parser.{
  parse_command, parse_helo_hostname, parse_mail_path, is_terminator, unstuff_line, lookup,
}
use icesmtp.Protocol.Command.{
  is_command_allowed, command_requires_argument, command_forbids_argument,
}
use icesmtp.Text.Number.{sscanf_int64, decimal}
use icesmtp.Parser.Line.{parse_command_verb, parse_esmtp_params}
use icesmtp.Text.Case.{to_upper}
use icesmtp.Text.Space.{trim_space, fields}
use icesmtp.Text.Search.{split, last_index_byte}
use icesmtp.Parser.Path.{is_alphanumeric, is_valid_address}
use icesmtp.Protocol.Machine.{connect, transition, transition_for_command}
use icesmtp.Engine.Invariant.Sessions.{run-ne-panicked, run-IsDeliverable}
use icesmtp.Engine.Invariant.{All, IsDeliverable}
use icesmtp.Engine.Loop.{panicked}
use icesmtp.Engine.State.{Engine}
use icesmtp.Prelude.{[], ◌∷◌, ◌≡◌, ◌≢◌, refl, codes, true}
use icesmtp.Tests.Sample.{
  server, client, config, around, dialogue, reply_codes, messages, final, last_error, is_returned,
  returned-final,
}

-- One message is received, with its stuffed dot taken off.
whole_dialogue :
    (reply_codes (run 20 (server dialogue [])) ≡ 220 ∷ 250 ∷ 250 ∷ 250 ∷ 354 ∷ 250 ∷ 221 ∷ [])
    × (messages (run 20 (server dialogue [])) ≡ codes "hello\r\n.dot\r\n" ∷ [])
unfolding handle_data handle_helo handle_ehlo extension_lines handle_rset handle_noop handle_quit
    handle_vrfy handle_help handle_starttls run run_loop turn process_one_command run_command
    handle_command perform_tls_upgrade handle_mail handle_rcpt new_engine check_error_limit
    session_info handle_disconnect take_line stream_data parse_command parse_helo_hostname
    parse_mail_path is_terminator unstuff_line lookup is_command_allowed command_requires_argument
    command_forbids_argument sscanf_int64 decimal parse_command_verb parse_esmtp_params to_upper
    trim_space fields split last_index_byte is_alphanumeric is_valid_address connect transition
    transition_for_command
whole_dialogue = (refl, refl)

run-ne-panicked_example : run 20 (server dialogue []) ≢ panicked
run-ne-panicked_example =
    run-ne-panicked config around (client dialogue []) (codes "s1") (codes "127.0.0.1") 20

abbrev end : Engine
end = final (server [] []) (run 20 (server dialogue []))

session_returns : is_returned (run 20 (server dialogue [])) ≡ true
unfolding handle_data handle_helo handle_ehlo extension_lines handle_rset handle_noop handle_quit
    handle_vrfy handle_help handle_starttls run run_loop turn process_one_command run_command
    handle_command perform_tls_upgrade handle_mail handle_rcpt new_engine check_error_limit
    session_info handle_disconnect take_line stream_data parse_command parse_helo_hostname
    parse_mail_path is_terminator unstuff_line lookup is_command_allowed command_requires_argument
    command_forbids_argument sscanf_int64 decimal parse_command_verb parse_esmtp_params to_upper
    trim_space fields split last_index_byte is_alphanumeric is_valid_address connect transition
    transition_for_command
session_returns = refl

run-IsDeliverable_example : All (IsDeliverable config) end.stored
run-IsDeliverable_example =
    run-IsDeliverable config around (client dialogue []) (codes "s1") (codes "127.0.0.1") 20 end
      (last_error (run 20 (server dialogue [])))
      (returned-final (server [] []) (run 20 (server dialogue [])) session_returns)
