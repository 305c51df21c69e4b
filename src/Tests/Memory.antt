-- ===== src/Tests/Memory.antt =====
-- A server with the mailbox and the storage of mem/, and the theorems on these at concrete inputs.
use icesmtp.Engine.Data.{handle_data}
use icesmtp.Engine.Greet.{
  handle_helo, handle_ehlo, extension_lines, handle_rset, handle_noop, handle_quit, handle_vrfy,
  handle_help, handle_starttls,
}
use icesmtp.Engine.Loop.{
  run, run_loop, turn, process_one_command, run_command, handle_command, perform_tls_upgrade,
}
use icesmtp.Engine.Mail.{handle_mail, handle_rcpt}
use icesmtp.Engine.State.{Engine, new_engine, check_error_limit, session_info, handle_disconnect}
use icesmtp.Engine.Stream.{take_line, stream_data}
use icesmtp.Parser.{
  parse_command, parse_helo_hostname, parse_mail_path, is_terminator, unstuff_line, lookup,
}
use icesmtp.Protocol.Command.{
  is_command_allowed, command_requires_argument, command_forbids_argument,
}
use icesmtp.Text.Number.{sscanf_int64, decimal}
use icesmtp.Parser.Line.{parse_command_verb, parse_esmtp_params}
use icesmtp.Text.Case.{to_upper}
use icesmtp.Text.Space.{trim_space, fields}
use icesmtp.Text.Search.{split, last_index_byte}
use icesmtp.Parser.Path.{is_alphanumeric, is_valid_address}
use icesmtp.Protocol.Machine.{connect, transition, transition_for_command}
use icesmtp.Engine.Loop.{Ending}
use icesmtp.Prelude.{
  arith, String, List, Option, none, some, Bytes, map, Bool, [], ◌∷◌, ◌≡◌, refl, codes, false, true,
}
use icesmtp.Tests.Sample.{
  path_of, builder, server, client, config, around, dialogue, final, last_error, is_returned,
  returned-final,
}
use icesmtp.Mem.Delivery.{mem_mailbox, saves, IsKept, find-IsKept}
use icesmtp.Mem.Mailbox.Registry
use icesmtp.Mem.Mailbox.Registry.Decide.{Answers, perform_all-Answers}
use icesmtp.Mem.Mailbox.Registry.{Op, add, remove, open_domain, set, nothing}
use icesmtp.Mem.Mailbox.{
  add_address, remove_address, add_domain, set_catch_all, new_mailbox, validate_recipient,
  domain_of,
}
use icesmtp.Mem.Storage.Replay
use icesmtp.Mem.Storage.Replay.Account.{IsAccount, perform_all-IsAccount}
use icesmtp.Mem.Storage.Replay.{save, stream, drop_message}
use icesmtp.Mem.Storage.{
  StoredMessage, all_read, find, count, new_storage, store, store_stream, delete, keep,
}
use mathlib.Core.Option
use icesmtp.Table
use icesmtp.Table.{get, put}
use icesmtp.Text.Case.{to_lower}
use icesmtp.Session.Config.{SessionConfig}
use icesmtp.Envelope.Shared
use icesmtp.Envelope.Shared.{Memory, contents, slice, contents-write}
use icesmtp.Envelope.{Envelope}

abbrev as_is : Bytes → Bytes
as_is s = s

-- One address, another that was removed again, and a domain.
abbrev calls : List Op
calls =
    add (codes "User@MX.test")
    ∷ add (codes "x@other.test")
    ∷ remove (codes "x@other.test")
    ∷ open_domain (codes "Mx.Test")
    ∷ set true
    ∷ []

answered_codes :
    map
      (λ (a : String).
        (validate_recipient as_is
          (Registry.perform_all as_is calls new_mailbox)
          (path_of a)).response.code)
      ("USER@mx.test" ∷ "x@mx.test" ∷ "x@third.test" ∷ "nobody" ∷ "x@other.test" ∷ [])
    ≡ 250 ∷ 250 ∷ 550 ∷ 550 ∷ 250 ∷ []
unfolding Registry.perform_all new_mailbox Registry.perform add_address remove_address add_domain
    set_catch_all validate_recipient domain_of get put Table.delete to_lower last_index_byte
answered_codes = refl

perform_all-Answers_example :
    Answers as_is
      (Registry.perform_all as_is calls new_mailbox)
      (Registry.replay as_is calls nothing)
      (path_of "x@mx.test")
perform_all-Answers_example = perform_all-Answers as_is calls (path_of "x@mx.test")

abbrev envelope : Envelope
envelope = record {
  id = codes "m1";
  mail_from = path_of "a@b.org";
  recipients = path_of "x@mx.test" ∷ [];
  esmtp_params = [];
  received_at = 0;
  content = codes "hello";
  finalized = true;
  metadata = builder.metadata;
}

abbrev uses : List Replay.Op
uses =
    save 1 0 envelope
    ∷ stream 2 0 (record envelope { id = codes "m2" }) (all_read (codes "body"))
    ∷ save 3 0 (record envelope { content = codes "again" })
    ∷ drop_message (codes "m2")
    ∷ []

kept_contents :
    (count (Replay.perform_all uses new_storage) ≡ 1)
    × (Option.map
          (λ (m : StoredMessage). m.content)
          (find (codes "m1") (Replay.perform_all uses new_storage))
        ≡ some (codes "again"))
unfolding Replay.perform_all Replay.perform new_storage store store_stream delete keep find get put
    Table.delete count
kept_contents = (refl, refl)

perform_all-IsAccount_example : IsAccount uses (Replay.perform_all uses new_storage)
perform_all-IsAccount_example = perform_all-IsAccount uses

abbrev mem_config : SessionConfig
mem_config = record config { mailbox = mem_mailbox as_is (λ n. calls) }

abbrev outcome : Ending
outcome =
    run 20 (new_engine mem_config around (client dialogue []) (codes "s1") (codes "127.0.0.1"))

abbrev mem_end : Engine
mem_end = final (server [] []) outcome

-- What `Get` finds, or something else.
abbrev found_or : StoredMessage → Option StoredMessage → StoredMessage
found_or d none = d
found_or d (some m) = m

abbrev is_found : Option StoredMessage → Bool
is_found none = false
is_found (some _) = true

found_or_lem :
    (d : StoredMessage) (o : Option StoredMessage) → is_found o ≡ true → o ≡ some (found_or d o)
found_or_lem d none h = cc
found_or_lem d (some m) h = refl

abbrev spare : StoredMessage
spare = record { envelope = envelope; stored_at = 0; content = [] }

abbrev got : Option StoredMessage
got = find (2 ∷ []) (Replay.perform_all (saves (λ e. 0) mem_end.stored) new_storage)

mem_session : (is_returned outcome ≡ true) × (is_found got ≡ true)
unfolding handle_data handle_helo handle_ehlo extension_lines handle_rset handle_noop handle_quit
    handle_vrfy handle_help handle_starttls run run_loop turn process_one_command run_command
    handle_command perform_tls_upgrade handle_mail handle_rcpt new_engine check_error_limit
    session_info handle_disconnect take_line stream_data parse_command parse_helo_hostname
    parse_mail_path is_terminator unstuff_line lookup is_command_allowed command_requires_argument
    command_forbids_argument sscanf_int64 decimal parse_command_verb parse_esmtp_params to_upper
    trim_space fields split last_index_byte is_alphanumeric is_valid_address connect transition
    transition_for_command Replay.perform_all store keep find get put new_storage Replay.perform
    Registry.perform_all new_mailbox Registry.perform add_address remove_address add_domain
    set_catch_all validate_recipient domain_of to_lower
mem_session = (refl, refl)

find-IsKept_example : IsKept mem_config as_is (λ n. calls) (2 ∷ []) (found_or spare got)
find-IsKept_example =
    find-IsKept mem_config as_is (λ n. calls) around (client dialogue []) (codes "s1")
      (codes "127.0.0.1") 20 mem_end (last_error outcome) (λ e. 0) (2 ∷ []) (found_or spare got)
      refl (returned-final (server [] []) outcome mem_session.0)
      (found_or_lem spare got mem_session.1)

-- A buffer of eight bytes that holds six.
abbrev memory : Memory
memory = record { arrays = λ a. codes "secret__"; next = 1; array = 0; filled = 6 }

contents-write_example :
    contents (Shared.write [] (codes "new") (Shared.reset memory)) (slice memory) ≡ codes "newret"
contents-write_example = contents-write [] (codes "new") memory (omega arith)
