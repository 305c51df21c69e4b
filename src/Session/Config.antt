-- ===== src/Session/Config.antt =====
-- session.go, mailbox.go, envelope.go: the configuration of a session, and the interfaces that the
-- engine calls. What such a call returns is a function of the number of the command that it serves
-- and of its arguments, so the called code may keep any state of its own.
use icesmtp.Envelope.{Envelope}
use icesmtp.Limits.{SessionLimits}
use icesmtp.Parser.{Command, MailPath}
use icesmtp.Prelude.{none, ℕ, Bool, true, false, Option, Bytes, codes}
use icesmtp.Protocol.Reply.{Response, response_ok, response_mailbox_unavailable}
use icesmtp.Protocol.State.{State}
use icesmtp.Session.Connection.{Failure}
use icesmtp.Session.Tls.{TlsPolicy}

pub record ExtensionSet : Type 0 where
  pub starttls : Bool
  pub size : Bool
  pub eight_bit_mime : Bool
  pub pipelining : Bool
  pub enhanced_status_codes : Bool
  pub smtputf8 : Bool
  pub auth : Bool
  pub vrfy : Bool
  pub expn : Bool
  pub help : Bool

abbrev pub default_extensions : ExtensionSet
default_extensions = record {
  starttls = true;
  size = true;
  eight_bit_mime = true;
  pipelining = true;
  enhanced_status_codes = true;
  smtputf8 = false;
  auth = false;
  vrfy = false;
  expn = false;
  help = true;
}

-- `SessionInfo`, as the engine answers it at the time of a call.
pub record SessionInfo : Type 0 where
  pub id : Bytes
  pub state : State
  pub client_hostname : Bytes
  pub client_ip : Bytes
  pub tls_active : Bool
  pub authenticated : Bool
  pub authenticated_user : Bytes
  pub current_mail_from : Option MailPath
  pub current_recipient_count : ℕ

pub data RecipientStatus : Type 0 where
  pending accepted rejected deferred : RecipientStatus

pub record RecipientResult : Type 0 where
  pub path : MailPath
  pub status : RecipientStatus
  pub response : Response

pub record SenderResult : Type 0 where
  pub accepted : Bool
  pub response : Response
  pub require_auth : Bool

abbrev pub sender_result_accepted : SenderResult
sender_result_accepted = record { accepted = true; response = response_ok; require_auth = false }

abbrev pub sender_result_rejected : Response → SenderResult
sender_result_rejected response = record {
  accepted = false;
  response = response;
  require_auth = false;
}

-- `AcceptAllMailbox.ValidateRecipient` and `RejectAllMailbox.ValidateRecipient`.
abbrev pub accept_all_mailbox : ℕ → MailPath → SessionInfo → RecipientResult
accept_all_mailbox n path session = record {
  path = path;
  status = accepted;
  response = response_ok;
}

abbrev pub reject_all_mailbox : ℕ → MailPath → SessionInfo → RecipientResult
reject_all_mailbox n path session = record {
  path = path;
  status = rejected;
  response = response_mailbox_unavailable;
}

-- `AcceptAllSenderPolicy.ValidateSender`.
abbrev pub accept_all_sender_policy : ℕ → MailPath → SessionInfo → SenderResult
accept_all_sender_policy n path session = sender_result_accepted

-- `SessionConfig`, and what else a session meets. An interface that may be nil is an `Option`; the
-- engine calls the mailbox without a test, so it is there. `hooks` is the answer of `OnCommand`,
-- `tls_provider` the error of `GetConfig`, and `storage` that of `Store`.
pub record SessionConfig : Type 0 where
  pub server_hostname : Bytes
  pub limits : SessionLimits
  pub tls_policy : TlsPolicy
  pub tls_provider : Option (ℕ → Option Failure)
  pub mailbox : ℕ → MailPath → SessionInfo → RecipientResult
  pub sender_policy : Option (ℕ → MailPath → SessionInfo → SenderResult)
  pub storage : Option (ℕ → Envelope → Option Failure)
  pub extensions : ExtensionSet
  pub hooks : Option (ℕ → Command → SessionInfo → Option Failure)

-- `NullSessionHooks.OnCommand`; the other hooks have no result.
abbrev pub null_on_command : ℕ → Command → SessionInfo → Option Failure
null_on_command n cmd session = none

-- What the engine draws from outside: the state of the context after so many reads, identifiers
-- and the time by the number of the command, Unicode's tables and the names of cipher suites.
pub record Surroundings : Type 0 where
  pub context : ℕ → Option Failure
  pub fresh_id : ℕ → Bytes
  pub now : ℕ → ℕ
  pub wide_upper : Bytes → Bytes
  pub cipher_suite_name : ℕ → Bytes

pub data DisconnectReason : Type 0 where
  normal timeout error policy_violation resource_limit tls_failure server_shutdown :
      DisconnectReason

-- `DisconnectReason.String`.
unfoldable pub spell_reason : DisconnectReason → Bytes
spell_reason normal = codes "Normal"
spell_reason timeout = codes "Timeout"
spell_reason error = codes "Error"
spell_reason policy_violation = codes "PolicyViolation"
spell_reason resource_limit = codes "ResourceLimit"
spell_reason tls_failure = codes "TLSFailure"
spell_reason server_shutdown = codes "ServerShutdown"
