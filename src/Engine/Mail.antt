-- ===== src/Engine/Mail.antt =====
-- engine.go: the handlers of MAIL and RCPT.
pub mod Outcome
pub mod Size
use icesmtp.Engine.Greet.{move}
use icesmtp.Engine.State.{Engine, show, notify, on_mail_from, on_rcpt_to, session_info}
use icesmtp.Envelope.Build
use icesmtp.Envelope.Build.{
  Builder, BuilderError, new_standard_envelope_builder, set_mail_from, add_recipient,
}
use icesmtp.Envelope.{EnvelopeMetadata, recipient_count}
use icesmtp.Limits.{SessionLimits}
use icesmtp.Parser.{Command, EsmtpParams, MailPath, Parsed, ok, err, lookup, parse_mail_path}
use icesmtp.Prelude.{
  ℕ, Bool, true, false, not, ◌&&◌, [], Option, none, some, Bytes, codes, ltb, leb, if◌then◌else◌,
}
use icesmtp.Protocol.Command.{mail, rcpt}
use icesmtp.Protocol.Machine.{transition_for_command}
use icesmtp.Protocol.Reply.{
  Response, new_response, response_ok, response_syntax_error_params, response_transaction_failed,
}
use icesmtp.Protocol.State.{mail_from, rcpt_to}
use icesmtp.Session.Config.{
  SessionInfo, SenderResult, RecipientResult, RecipientStatus, accepted, Surroundings,
}
use icesmtp.Session.Tls
use icesmtp.Session.Tls.{TlsConnectionState, required, version_string}
use icesmtp.Text.Number.{sscanf_int64, exceeds}

abbrev shown_version : Option TlsConnectionState → Bytes
unfolding version_string
shown_version none = []
shown_version (some s) = version_string s

abbrev shown_cipher : Surroundings → Option TlsConnectionState → Bytes
shown_cipher around none = []
shown_cipher around (some s) = around.cipher_suite_name s.cipher_suite

unfoldable pub metadata : Engine → EnvelopeMetadata
unfolding version_string
metadata e = record {
  session_id = e.session_id;
  client_hostname = e.session.client_hostname;
  client_ip = e.client_ip;
  server_hostname = e.config.server_hostname;
  tls_active = e.session.tls_active;
  tls_version = shown_version e.session.tls_state;
  tls_cipher_suite = shown_cipher e.around e.session.tls_state;
  authenticated_user = e.session.authenticated_user;
}

abbrev declares_more : Option Bytes → ℕ → Bool
unfolding sscanf_int64
declares_more none limit = false
declares_more (some size) limit = exceeds (sscanf_int64 size) limit

-- The SIZE parameter declares more than the limit, where both are in force.
unfoldable pub declares_too_much : Engine → EsmtpParams → Bool
unfolding sscanf_int64
declares_too_much e params =
    e.config.extensions.size
    && ltb 0 e.config.limits.max_message_size
    && declares_more (lookup (codes "SIZE") params) e.config.limits.max_message_size

-- The refusal of the sender policy.
abbrev pub refusal : SenderResult → Option Response
refusal result = if not result.accepted then some result.response else none

abbrev pub ask_sender_policy :
    Option (ℕ → MailPath → SessionInfo → SenderResult) → MailPath → Engine → Option Response
ask_sender_policy none path e = none
ask_sender_policy (some validate) path e =
    refusal (validate e.stats.command_count path (session_info e))

-- From `SetMailFrom` on.
abbrev begin : MailPath → Engine → Builder × Option BuilderError → Engine × Response
begin path e (b, some _) = (record e { envelope = some b }, response_transaction_failed)
begin path e (b, none) = (
  notify (on_mail_from path) (show mail_from (move mail (record e { envelope = some b }))),
  response_ok,
)

-- From the creation of the envelope on.
unfoldable pub begin_transaction : MailPath → EsmtpParams → Engine → Engine × Response
unfolding metadata new_standard_envelope_builder set_mail_from transition_for_command notify
begin_transaction path params e =
    let n = e.stats.command_count in
    let b = new_standard_envelope_builder (metadata e) (e.around.fresh_id n) (e.around.now n) in
    begin path e (set_mail_from path params (e.around.now n) b)

abbrev pub accept_sender : EsmtpParams → Engine → MailPath → Option Response → Engine × Response
accept_sender params e path (some response) = (e, response)
accept_sender params e path none = begin_transaction path params e

abbrev pub with_sender : EsmtpParams → Engine → Parsed MailPath → Engine × Response
with_sender params e (err _) = (e, response_syntax_error_params)
with_sender params e (ok path) =
    if declares_too_much e params
    then (e, new_response 552 (codes "Message size exceeds fixed maximum message size"))
    else accept_sender params e path (ask_sender_policy e.config.sender_policy path e)

unfoldable pub handle_mail : Command → Engine → Engine × Response
unfolding begin_transaction declares_too_much
handle_mail cmd e =
    let limits = e.config.limits in
    if Tls.same e.config.tls_policy required && not e.session.tls_active
    then (e, new_response 530 (codes "Must issue STARTTLS first"))
    else if ltb 0 limits.max_transactions && leb limits.max_transactions e.stats.transaction_count
    then (e, new_response 421 (codes "Too many transactions"))
    else with_sender cmd.params e (parse_mail_path e.around.wide_upper cmd.argument (codes "FROM"))

abbrev is_accepted : RecipientStatus → Bool
is_accepted accepted = true
is_accepted _ = false

-- From `AddRecipient` on.
abbrev add : MailPath → Engine → Builder × Option BuilderError → Engine × Response
add path e (b, some _) = (record e { envelope = some b }, response_transaction_failed)
add path e (b, none) = (
  notify (on_rcpt_to path) (show rcpt_to (move rcpt (record e { envelope = some b }))),
  response_ok,
)

unfoldable pub accept_recipient : MailPath → Builder → Engine → RecipientResult → Engine × Response
unfolding add_recipient transition_for_command notify
accept_recipient path b e result =
    if not (is_accepted result.status)
    then (e, result.response)
    else add path e (add_recipient path b)

abbrev pub is_full : SessionLimits → Builder → Bool
unfolding Build.build recipient_count
is_full limits b =
    ltb 0 limits.max_recipients && leb limits.max_recipients (recipient_count (Build.build b))

-- With no envelope the source would call a method of a nil interface: `none` is that panic.
abbrev pub with_recipient : Engine → Option Builder → Parsed MailPath → Option (Engine × Response)
with_recipient e envelope (err _) = some (e, response_syntax_error_params)
with_recipient e none (ok path) = none
with_recipient e (some b) (ok path) = some (
    if is_full e.config.limits b
    then (e, new_response 452 (codes "Too many recipients"))
    else accept_recipient path b e (e.config.mailbox e.stats.command_count path (session_info e)))

unfoldable pub handle_rcpt : Command → Engine → Option (Engine × Response)
unfolding accept_recipient Build.build recipient_count
handle_rcpt cmd e =
    with_recipient e e.envelope (parse_mail_path e.around.wide_upper cmd.argument (codes "TO"))
