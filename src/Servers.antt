-- ===== src/Servers.antt =====
-- examples/: the servers that minimal/main.go, tls_server/main.go and custom_policy/main.go set up.
-- Each has one mem.Storage for all its connections, whose `Store` has no error. A field of the
-- configuration that the source leaves out has Go's zero value: no TLS for `TLSPolicy`. The hooks
-- of the examples write to the log, and their OnCommand has no error.
pub mod Storing
pub mod Recipients
pub mod Sending
use icesmtp.Custom.{AliasedMailbox, RestrictedSenderPolicy, validate_aliased, validate_sender}
use icesmtp.Limits.{SessionLimits, default_session_limits}
use icesmtp.Mem.Mailbox.{Mailbox, new_mailbox_with_domains, set_catch_all, validate_recipient}
use icesmtp.Prelude.{ℕ, true, false, List, [], ◌∷◌, Option, none, some, Bytes, codes}
use icesmtp.Session.Config.{SessionConfig, ExtensionSet, default_extensions, null_on_command}
use icesmtp.Session.Connection.{Failure}
use icesmtp.Session.Tls.{disabled, optional}

-- The extensions of the TLS server.
abbrev pub tls_extensions : ExtensionSet
tls_extensions = record {
  starttls = true;
  size = true;
  eight_bit_mime = true;
  pipelining = true;
  enhanced_status_codes = true;
  smtputf8 = false;
  auth = false;
  vrfy = false;
  expn = false;
  help = true;
}

-- The limits of the custom server.
abbrev pub custom_limits : SessionLimits
custom_limits = record {
  max_message_size = 10485760;
  max_recipients = 50;
  max_command_length = 512;
  max_line_length = 998;
  max_errors = 5;
  max_transactions = 20;
  max_auth_attempts = 0;
}

abbrev pub custom_mailbox : AliasedMailbox
custom_mailbox = record {
  addresses =
      (codes "admin@example.com", true)
      ∷ (codes "support@example.com", true)
      ∷ (codes "user@example.com", true)
      ∷ [];
  aliases =
      (codes "postmaster@example.com", codes "admin@example.com")
      ∷ (codes "webmaster@example.com", codes "admin@example.com")
      ∷ (codes "help@example.com", codes "support@example.com")
      ∷ [];
  domains = (codes "example.com", true) ∷ [];
}

abbrev pub custom_policy : RestrictedSenderPolicy
custom_policy = record { blocked_domains = codes "spam.example" ∷ codes "blocked.org" ∷ [] }

-- `wide` is what `strings.ToLower` does beyond ASCII.
module _ (wide : Bytes → Bytes) where
  -- `mem.NewMailboxWithDomains(...)` and `SetCatchAll(true)`.
  unfoldable pub local_mailbox : List Bytes → Mailbox
  unfolding new_mailbox_with_domains set_catch_all
  local_mailbox domains = set_catch_all true (new_mailbox_with_domains wide domains)

  abbrev pub minimal_config : SessionConfig
  minimal_config = record {
    server_hostname = codes "mail.example.com";
    limits = default_session_limits;
    tls_policy = disabled;
    tls_provider = none;
    mailbox = λ _ path _. validate_recipient wide (local_mailbox (codes "example.com" ∷ [])) path;
    sender_policy = none;
    storage = some (λ _ _. none);
    extensions = default_extensions;
    hooks = none;
  }

  -- `startWithoutTLS`.
  abbrev pub plain_config : SessionConfig
  plain_config = record {
    server_hostname = codes "mail.localhost";
    limits = default_session_limits;
    tls_policy = disabled;
    tls_provider = none;
    mailbox = λ _ path _.
        validate_recipient wide (local_mailbox (codes "localhost" ∷ codes "example.com" ∷ [])) path;
    sender_policy = none;
    storage = some (λ _ _. none);
    extensions = default_extensions;
    hooks = none;
  }

  -- The TLS server, whose provider is a reloadable one: its GetConfig has no error.
  abbrev pub tls_config : SessionConfig
  tls_config = record plain_config {
    tls_policy = optional;
    tls_provider = some (λ _. none);
    extensions = tls_extensions;
    hooks = some null_on_command;
  }

  abbrev pub custom_config : SessionConfig
  custom_config = record {
    server_hostname = codes "mail.example.com";
    limits = custom_limits;
    tls_policy = disabled;
    tls_provider = none;
    mailbox = λ _ path _. validate_aliased wide custom_mailbox path;
    sender_policy = some (λ _ path _. validate_sender wide custom_policy path);
    storage = some (λ _ _. none);
    extensions = record tls_extensions { starttls = false };
    hooks = some (λ _ _ _. none);
  }
