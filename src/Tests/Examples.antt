-- ===== src/Tests/Examples.antt =====
-- Sessions with the servers of examples/.
use icesmtp.Engine.Data.{handle_data}
use icesmtp.Engine.Greet.{
  handle_helo, handle_ehlo, extension_lines, handle_rset, handle_noop, handle_quit, handle_vrfy,
  handle_help, handle_starttls,
}
use icesmtp.Engine.Loop.{
  run, run_loop, turn, process_one_command, run_command, handle_command, perform_tls_upgrade,
}
use icesmtp.Engine.Mail.{handle_mail, handle_rcpt}
use icesmtp.Engine.State.{Engine, new_engine, check_error_limit, session_info, handle_disconnect}
use icesmtp.Engine.Stream.{take_line, stream_data}
use icesmtp.Parser.{
  parse_command, parse_helo_hostname, parse_mail_path, is_terminator, unstuff_line, lookup,
}
use icesmtp.Protocol.Command.{
  is_command_allowed, command_requires_argument, command_forbids_argument,
}
use icesmtp.Text.Number.{sscanf_int64, decimal}
use icesmtp.Parser.Line.{parse_command_verb, parse_esmtp_params}
use icesmtp.Text.Case.{to_upper}
use icesmtp.Text.Space.{trim_space, fields}
use icesmtp.Text.Search.{split, last_index_byte}
use icesmtp.Parser.Path.{is_alphanumeric, is_valid_address}
use icesmtp.Protocol.Machine.{connect, transition, transition_for_command}
use icesmtp.Engine.Loop.{Ending}
use icesmtp.Prelude.{
  String, List, Option, none, some, Bytes, Bool, [], ◌∷◌, ◌++◌, ◌≡◌, refl, codes, false, true,
}
use icesmtp.Tests.Sample.{
  crlf, path_of, builder, server, client, around, final, last_error, is_returned, returned-final,
}
use icesmtp.Mem.Delivery.{saves}
use icesmtp.Mem.Mailbox.{
  add_domain, add_domains, set_catch_all, new_mailbox, new_mailbox_with_domains, validate_recipient,
  domain_of,
}
use icesmtp.Mem.Storage.Replay
use icesmtp.Mem.Storage.{StoredMessage, find, new_storage, store, keep}
use icesmtp.Table.{get, put}
use icesmtp.Text.Case.{to_lower}
use icesmtp.Session.Config.{SessionConfig}
use icesmtp.Envelope.{Envelope}
use icesmtp.Session.Connection.{Read, line}
use icesmtp.Engine.Invariant.{All, IsDeliverable}
use icesmtp.Custom.{validate_aliased, validate_sender, check_domains}
use icesmtp.Servers.{local_mailbox, custom_config}
use icesmtp.Servers.Storing.{StoredBy}
use icesmtp.Servers.Recipients.{minimal, config_of, IsAtHome, find-IsAtHome}
use icesmtp.Servers.Sending.{IsKnown, IsWanted, find-IsKnown}

abbrev as_is : Bytes → Bytes
as_is s = s

abbrev letter : String → List Read
letter recipient =
    crlf "EHLO client.test"
    ∷ crlf "MAIL FROM:<a@b.org>"
    ∷ line (codes "RCPT TO:<" ++ (codes recipient ++ codes ">\r\n"))
    ∷ crlf "DATA"
    ∷ crlf "hello"
    ∷ crlf "."
    ∷ crlf "QUIT"
    ∷ []

abbrev outcome : SessionConfig → String → Ending
outcome c recipient =
    run 20 (new_engine c around (client (letter recipient) []) (codes "s1") (codes "127.0.0.1"))

abbrev end : SessionConfig → String → Engine
end c recipient = final (server [] []) (outcome c recipient)

abbrev letter_envelope : Envelope
letter_envelope = record {
  id = codes "m1";
  mail_from = path_of "a@b.org";
  recipients = [];
  esmtp_params = [];
  received_at = 0;
  content = [];
  finalized = true;
  metadata = builder.metadata;
}

abbrev only : List Envelope → Envelope
only [] = letter_envelope
only (m ∷ _) = m

abbrev is_single : List Envelope → Bool
is_single (_ ∷ []) = true
is_single _ = false

only_lem : (ms : List Envelope) → is_single ms ≡ true → ms ≡ [] ++ only ms ∷ []
only_lem [] h = cc
only_lem (m ∷ []) h = refl
only_lem (m ∷ n ∷ ms) h = cc

-- What `Get` finds, or something else.
abbrev found_or : Option StoredMessage → StoredMessage
found_or none = record { envelope = letter_envelope; stored_at = 0; content = [] }
found_or (some m) = m

abbrev is_found : Option StoredMessage → Bool
is_found none = false
is_found (some _) = true

found_or_lem : (o : Option StoredMessage) → is_found o ≡ true → o ≡ some (found_or o)
found_or_lem none h = cc
found_or_lem (some m) h = refl

abbrev got : SessionConfig → String → Option StoredMessage
got c recipient =
    find (2 ∷ [])
      (Replay.perform_all (saves (λ _. 0) (only (end c recipient).stored ∷ [])) new_storage)

-- The session returns and stores one message, which is found.
abbrev Succeeds : SessionConfig → String → Type 0
Succeeds c recipient =
    (is_returned (outcome c recipient) ≡ true)
    × (is_single (end c recipient).stored ≡ true)
    × (is_found (got c recipient) ≡ true)

stored_by :
    (c : SessionConfig) (recipient : String)
    → Succeeds c recipient
    → StoredBy c (only (end c recipient).stored)
stored_by c recipient (returns, single, found) = record {
  session = record {
    around = around;
    conn = client (letter recipient) [];
    session_id = codes "s1";
    ip = codes "127.0.0.1";
    rounds = 20;
    engine = end c recipient;
    why = last_error (outcome c recipient);
    returns = returned-final (server [] []) (outcome c recipient) returns;
  };
  before = [];
  after = [];
  place = only_lem (end c recipient).stored single;
}

minimal_session : Succeeds (config_of as_is minimal) "x@Example.com"
unfolding handle_data handle_helo handle_ehlo extension_lines handle_rset handle_noop handle_quit
    handle_vrfy handle_help handle_starttls run run_loop turn process_one_command run_command
    handle_command perform_tls_upgrade handle_mail handle_rcpt new_engine check_error_limit
    session_info handle_disconnect take_line stream_data parse_command parse_helo_hostname
    parse_mail_path is_terminator unstuff_line lookup is_command_allowed command_requires_argument
    command_forbids_argument sscanf_int64 decimal parse_command_verb parse_esmtp_params to_upper
    trim_space fields split last_index_byte is_alphanumeric is_valid_address connect transition
    transition_for_command Replay.perform_all store keep find get put new_storage Replay.perform
    local_mailbox new_mailbox new_mailbox_with_domains add_domains add_domain set_catch_all
    validate_recipient domain_of to_lower validate_aliased validate_sender check_domains
minimal_session = (refl, refl, refl)

custom_session : Succeeds (custom_config as_is) "Help@example.com"
unfolding handle_data handle_helo handle_ehlo extension_lines handle_rset handle_noop handle_quit
    handle_vrfy handle_help handle_starttls run run_loop turn process_one_command run_command
    handle_command perform_tls_upgrade handle_mail handle_rcpt new_engine check_error_limit
    session_info handle_disconnect take_line stream_data parse_command parse_helo_hostname
    parse_mail_path is_terminator unstuff_line lookup is_command_allowed command_requires_argument
    command_forbids_argument sscanf_int64 decimal parse_command_verb parse_esmtp_params to_upper
    trim_space fields split last_index_byte is_alphanumeric is_valid_address connect transition
    transition_for_command Replay.perform_all store keep find get put new_storage Replay.perform
    local_mailbox new_mailbox new_mailbox_with_domains add_domains add_domain set_catch_all
    validate_recipient domain_of to_lower validate_aliased validate_sender check_domains
custom_session = (refl, refl, refl)

find-IsAtHome_example :
    let c = config_of as_is minimal in
    let m = found_or (got c "x@Example.com") in
    (m.envelope.id ≡ 2 ∷ [])
    × (m.content ≡ m.envelope.content)
    × StoredBy c m.envelope
    × IsDeliverable c m.envelope
    × All (IsAtHome as_is minimal) m.envelope.recipients
find-IsAtHome_example =
    let c = config_of as_is minimal in
    find-IsAtHome as_is minimal (only (end c "x@Example.com").stored ∷ []) (λ _. 0) (2 ∷ [])
      (found_or (got c "x@Example.com")) (stored_by c "x@Example.com" minimal_session, tt)
      (found_or_lem (got c "x@Example.com") minimal_session.2)

find-IsKnown_example :
    let c = custom_config as_is in
    let m = found_or (got c "Help@example.com") in
    (m.envelope.id ≡ 2 ∷ [])
    × (m.content ≡ m.envelope.content)
    × StoredBy c m.envelope
    × IsDeliverable c m.envelope
    × IsWanted as_is m.envelope.mail_from
    × All (IsKnown as_is) m.envelope.recipients
find-IsKnown_example =
    let c = custom_config as_is in
    find-IsKnown as_is (only (end c "Help@example.com").stored ∷ []) (λ _. 0) (2 ∷ [])
      (found_or (got c "Help@example.com")) (stored_by c "Help@example.com" custom_session, tt)
      (found_or_lem (got c "Help@example.com") custom_session.2)
