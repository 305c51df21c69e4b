-- ===== src/Harness/Options.antt =====
-- harness/harness.go: the configuration of `NewHarness` and its options. No option touches anything
-- else of the harness, so that `Storage` and `Mailbox` stay the ones of mem/, with which it starts.
use icesmtp.Envelope.{Envelope}
use icesmtp.Limits.{SessionLimits, default_session_limits}
use icesmtp.Mem.Delivery.{mem_mailbox}
use icesmtp.Mem.Mailbox.Registry.{Op}
use icesmtp.Parser.{MailPath}
use icesmtp.Prelude.{ℕ, List, [], ◌∷◌, Option, none, some, Bytes, codes}
use icesmtp.Session.Config.{
  SessionConfig, SessionInfo, ExtensionSet, RecipientResult, default_extensions,
}
use icesmtp.Session.Connection.{Failure}
use icesmtp.Session.Tls.{TlsPolicy, disabled}

abbrev pub HarnessOption : Type 0
HarnessOption = SessionConfig → SessionConfig

abbrev pub with_server_hostname : Bytes → HarnessOption
with_server_hostname hostname config = record config { server_hostname = hostname }

abbrev pub with_mailbox : (ℕ → MailPath → SessionInfo → RecipientResult) → HarnessOption
with_mailbox mailbox config = record config { mailbox = mailbox }

abbrev pub with_storage : (ℕ → Envelope → Option Failure) → HarnessOption
with_storage storage config = record config { storage = some storage }

abbrev pub with_limits : SessionLimits → HarnessOption
with_limits limits config = record config { limits = limits }

abbrev pub with_extensions : ExtensionSet → HarnessOption
with_extensions extensions config = record config { extensions = extensions }

abbrev pub with_tls_provider : (ℕ → Option Failure) → HarnessOption
with_tls_provider provider config = record config { tls_provider = some provider }

abbrev pub with_tls_policy : TlsPolicy → HarnessOption
with_tls_policy policy config = record config { tls_policy = policy }

-- `opt(h)` for each of the options, in their order.
abbrev pub apply_all : List HarnessOption → SessionConfig → SessionConfig
apply_all [] config = config
apply_all (option ∷ options) config = apply_all options (option config)

-- The mailbox is a new one of mem/, on which tests make these calls before each command; the
-- storage is a new one too.
abbrev pub default_config : (Bytes → Bytes) → (ℕ → List Op) → SessionConfig
default_config wide calls = record {
  server_hostname = codes "test.example.com";
  limits = default_session_limits;
  tls_policy = disabled;
  tls_provider = none;
  mailbox = mem_mailbox wide calls;
  sender_policy = none;
  storage = some (λ _ _. none);
  extensions = default_extensions;
  hooks = none;
}

-- The configuration of `NewHarness`.
abbrev pub new_config : (Bytes → Bytes) → (ℕ → List Op) → List HarnessOption → SessionConfig
new_config wide calls options = apply_all options (default_config wide calls)
