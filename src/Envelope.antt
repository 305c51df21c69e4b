-- ===== src/Envelope.antt =====
-- envelope.go and envelope_builder.go: the envelope of one mail transaction, and its builder.
pub mod Build
pub mod Shared
use icesmtp.Parser.{EsmtpParams, MailPath}
use icesmtp.Prelude.{ℕ, Bool, List, Bytes, length}

pub record EnvelopeMetadata : Type 0 where
  pub session_id : Bytes
  pub client_hostname : Bytes
  pub client_ip : Bytes
  pub server_hostname : Bytes
  pub tls_active : Bool
  pub tls_version : Bytes
  pub tls_cipher_suite : Bytes
  pub authenticated_user : Bytes

-- `StandardEnvelope`. `content` is its `data`; a time is a number.
pub record Envelope : Type 0 where
  pub id : Bytes
  pub mail_from : MailPath
  pub recipients : List MailPath
  pub esmtp_params : EsmtpParams
  pub received_at : ℕ
  pub content : Bytes
  pub finalized : Bool
  pub metadata : EnvelopeMetadata

unfoldable pub recipient_count : Envelope → ℕ
recipient_count e = length e.recipients

unfoldable pub data_size : Envelope → ℕ
data_size e = length e.content
