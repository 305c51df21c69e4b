-- ===== src/Envelope/Build.antt =====
-- envelope_builder.go: `StandardEnvelopeBuilder`. The lock around each method makes it one step.
-- A writer belongs to the builder that opened it; one that is kept beyond `Reset` is not modelled.
pub mod Laws
pub mod Calls
use mathlib.Core.Option
use icesmtp.Envelope.{Envelope, EnvelopeMetadata}
use icesmtp.Parser.{EsmtpParams, MailPath}
use icesmtp.Prelude.{
  ℕ, Bool, true, false, not, List, [], ◌∷◌, ◌++◌, Option, none, some, Bytes, if◌then◌else◌,
}

-- The error variables of the file, and the two errors that it makes in place.
pub data BuilderError : Type 0 where
  envelope_finalized no_mail_from no_recipients data_writer_open : BuilderError
  writer_already_open writer_closed : BuilderError

-- `data_writer` holds the writer's `closed`.
pub record Builder : Type 0 where
  pub id : Bytes
  pub mail_from : Option MailPath
  pub recipients : List MailPath
  pub esmtp_params : EsmtpParams
  pub received_at : ℕ
  pub content : Bytes
  pub data_writer : Option Bool
  pub finalized : Bool
  pub metadata : EnvelopeMetadata

-- The identifier is random and the time is the clock's: both are arguments.
unfoldable pub new_standard_envelope_builder : EnvelopeMetadata → Bytes → ℕ → Builder
new_standard_envelope_builder metadata id now = record {
  id = id;
  mail_from = none;
  recipients = [];
  esmtp_params = [];
  received_at = now;
  content = [];
  data_writer = none;
  finalized = false;
  metadata = metadata;
}

unfoldable pub set_mail_from : MailPath → EsmtpParams → ℕ → Builder → Builder × Option BuilderError
set_mail_from path params now b =
    if b.finalized
    then (b, some envelope_finalized)
    else (record b { mail_from = some path; esmtp_params = params; received_at = now }, none)

unfoldable pub add_recipient : MailPath → Builder → Builder × Option BuilderError
add_recipient path b =
    if b.finalized
    then (b, some envelope_finalized)
    else (record b { recipients = b.recipients ++ path ∷ [] }, none)

abbrev is_open : Option Bool → Bool
is_open none = false
is_open (some closed) = not closed

-- `DataWriter`; the writer is part of the builder.
unfoldable pub open_writer : Builder → Builder × Option BuilderError
open_writer b = if b.finalized then (b, some envelope_finalized) else elim b.data_writer [
  | none ↦ (record b { data_writer = some false }, none)
  | some closed ↦ (b, some writer_already_open)
]

-- `envelopeDataWriter.Write`. It returns the length of `p`, or 0 and an error.
unfoldable pub write : Bytes → Builder → Builder × Option BuilderError
write p b =
    if is_open b.data_writer
    then (record b { content = b.content ++ p }, none)
    else (b, some writer_closed)

-- `envelopeDataWriter.Close`, whose error is always nil.
unfoldable pub close_writer : Builder → Builder
close_writer b = record b { data_writer = Option.map (λ _. true) b.data_writer }

-- `Build`; a nil sender is shown as the zero path.
unfoldable pub build : Builder → Envelope
build b = record {
  id = b.id;
  mail_from = elim b.mail_from [
    | none ↦ record { address = []; source_route = []; is_null = false }
    | some path ↦ path
  ];
  recipients = b.recipients;
  esmtp_params = b.esmtp_params;
  received_at = b.received_at;
  content = b.content;
  finalized = b.finalized;
  metadata = b.metadata;
}

-- The result of `Finalize`: an envelope or an error.
pub data Finalized : Type 0 where
  ok : Envelope → Finalized
  err : BuilderError → Finalized

-- `len(b.recipients) == 0`.
abbrev lacks_recipients : List MailPath → Bool
lacks_recipients [] = true
lacks_recipients (_ ∷ _) = false

abbrev seal : Builder → Option MailPath → Builder × Finalized
seal b none = (b, err no_mail_from)
seal b (some path) =
    if lacks_recipients b.recipients
    then (b, err no_recipients)
    else if is_open b.data_writer
    then (b, err data_writer_open)
    else (
      record b { finalized = true },
      ok (record {
        id = b.id;
        mail_from = path;
        recipients = b.recipients;
        esmtp_params = b.esmtp_params;
        received_at = b.received_at;
        content = b.content;
        finalized = true;
        metadata = b.metadata;
      }),
    )

unfoldable pub finalize : Builder → Builder × Finalized
finalize b = if b.finalized then (b, err envelope_finalized) else seal b b.mail_from

-- `Reset` keeps the metadata only, and draws a new identifier; its time is Go's zero time.
unfoldable pub reset : Bytes → Builder → Builder
reset id b = record {
  id = id;
  mail_from = none;
  recipients = [];
  esmtp_params = [];
  received_at = 0;
  content = [];
  data_writer = none;
  finalized = false;
  metadata = b.metadata;
}
