-- ===== src/Tests/Commands.antt =====
-- The theorems on MAIL, RCPT, RSET, STARTTLS and the envelope builder, at concrete inputs.
use icesmtp.Engine.Greet.Effects.{handle_rset_allowed}
use icesmtp.Engine.Greet.{handle_rset}
use icesmtp.Engine.Mail.Size.{declares_too_much-decimal}
use icesmtp.Text.Number.{decimal}
use icesmtp.Engine.Mail.Outcome.{MailOutcome, handle_mail-Opens, RcptOutcome, handle_rcpt-Adds}
use icesmtp.Engine.Mail.{declares_too_much, handle_mail, handle_rcpt}
use icesmtp.Engine.State.{Engine, new_engine}
use icesmtp.Envelope.Build.Laws.{finalize_closes}
use icesmtp.Envelope.Build.Calls.{BuilderCall, sender, recipient, opens, writes, closes, sealed}
use icesmtp.Envelope.Build.{
  envelope_finalized, writer_closed, err, ok, set_mail_from, add_recipient, open_writer, write,
  finalize,
}
use icesmtp.Envelope.{Envelope}
use icesmtp.Parser.{EsmtpParams, lookup, parse_mail_path}
use icesmtp.Prelude.{
  ltb, ◌^◌, List, ◌&&◌, arith, true, Option, none, some, [], ◌∷◌, ◌≡◌, refl, codes,
}
use icesmtp.Protocol.Command.{mail, rcpt, rset, is_command_allowed}
use icesmtp.Protocol.Reply.{Response, new_response, response_ok}
use icesmtp.Protocol.State.{identified, mail_from, rcpt_to}
use icesmtp.Text.Search.{has_prefix, index_byte, last_index_byte, has_suffix}
use icesmtp.Text.Case.{to_upper}
use icesmtp.Text.Space.{trim_space}
use icesmtp.Parser.Path.{is_valid_address}
use icesmtp.Tests.Sample.{config, server_in, builder, command, path_of}

abbrev ready : Engine
ready = server_in identified none [] []

abbrev in_mail : Engine
in_mail = server_in mail_from (some (record builder { recipients = [] })) [] []

handle_mail-Opens_example :
    MailOutcome
      (command mail "FROM:<a@b.org>")
      ready
      (handle_mail (command mail "FROM:<a@b.org>") ready)
unfolding new_engine is_command_allowed
handle_mail-Opens_example = handle_mail-Opens (command mail "FROM:<a@b.org>") ready refl

abbrev answer : Option (Engine × Response) → Engine × Response
answer (some p) = p
answer none = (in_mail, new_response 0 [])

abbrev rcpt_result : Engine × Response
rcpt_result = answer (handle_rcpt (command rcpt "TO:<x@mx.test>") in_mail)

handle_rcpt-Adds_example :
    RcptOutcome
      (command rcpt "TO:<x@mx.test>")
      in_mail
      (record builder { recipients = [] })
      rcpt_result
unfolding new_engine is_command_allowed handle_rcpt parse_mail_path has_prefix to_upper trim_space
    index_byte is_valid_address last_index_byte has_suffix
handle_rcpt-Adds_example =
    handle_rcpt-Adds (command rcpt "TO:<x@mx.test>") in_mail rcpt_result.0 rcpt_result.1
      (record builder { recipients = [] }) refl refl refl refl

abbrev in_rcpt : Engine
in_rcpt = server_in rcpt_to (some builder) [] []

handle_rset_allowed_example :
    let (f, r) = handle_rset (command rset "") in_rcpt in
    (r ≡ response_ok)
    × (f.envelope ≡ none)
    × (f.sm.state ≡ identified)
    × (f.session.state ≡ f.sm.state)
    × (f.stored ≡ [])
unfolding new_engine is_command_allowed
handle_rset_allowed_example = handle_rset_allowed (command rset "") in_rcpt refl

abbrev message : Envelope
message = record {
  id = codes "m1";
  mail_from = path_of "a@b.org";
  recipients = path_of "x@mx.test" ∷ [];
  esmtp_params = [];
  received_at = 0;
  content = [];
  finalized = true;
  metadata = builder.metadata;
}

-- Two senders, two recipients, and bytes before, in and behind the open writer.
abbrev calls : List BuilderCall
calls =
    writes (codes "lost")
    ∷ sender (path_of "x@y.org") ((codes "SIZE", codes "9") ∷ []) 4
    ∷ recipient (path_of "b@mx.test")
    ∷ opens
    ∷ writes (codes "he")
    ∷ recipient (path_of "a@mx.test")
    ∷ sender (path_of "a@b.org") [] 5
    ∷ opens
    ∷ writes (codes "llo")
    ∷ closes
    ∷ writes (codes "late")
    ∷ []

sealed_calls :
    sealed builder.metadata (codes "m1") 3 calls
    ≡ ok (record message {
      recipients = path_of "b@mx.test" ∷ path_of "a@mx.test" ∷ [];
      received_at = 5;
      content = codes "hello";
    })
sealed_calls = refl

finalize_closes_example :
    let c = (finalize builder).0 in
    (set_mail_from (path_of "b@b.org") [] 1 c ≡ (c, some envelope_finalized))
    × (add_recipient (path_of "b@b.org") c ≡ (c, some envelope_finalized))
    × (open_writer c ≡ (c, some envelope_finalized))
    × (write (codes "x") c ≡ (c, some writer_closed))
    × (finalize c ≡ (c, err envelope_finalized))
unfolding finalize
finalize_closes_example = finalize_closes builder message (path_of "b@b.org") [] 1 (codes "x") refl

abbrev sized : EsmtpParams
sized = (codes "SIZE", decimal 200) ∷ []

declares_too_much-decimal_example :
    declares_too_much ready sized ≡ ltb ready.config.limits.max_message_size 200 && ltb 200 (2 ^ 63)
unfolding new_engine lookup
declares_too_much-decimal_example =
    declares_too_much-decimal ready sized 200 refl (omega arith) refl
