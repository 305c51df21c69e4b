-- ===== src/Envelope/Build/Calls.antt =====
-- envelope_builder.go: what any calls on a new builder, `Reset` apart, add up to.
use icesmtp.Envelope.Build.{
  Builder, no_mail_from, no_recipients, data_writer_open, Finalized, ok, err, set_mail_from,
  add_recipient, open_writer, write, close_writer,
}
use icesmtp.Envelope.{EnvelopeMetadata}
use icesmtp.Parser.{EsmtpParams, MailPath}
use icesmtp.Prelude.{
  ℕ, Bool, true, false, not, List, [], ◌∷◌, ◌++◌, Option, none, some, Bytes, if◌then◌else◌,
}

pub data BuilderCall : Type 0 where
  sender : MailPath → EsmtpParams → ℕ → BuilderCall
  recipient : MailPath → BuilderCall
  opens : BuilderCall
  writes : Bytes → BuilderCall
  closes : BuilderCall

abbrev pub perform : BuilderCall → Builder → Builder
unfolding set_mail_from add_recipient open_writer write close_writer
perform (sender path params now) b = (set_mail_from path params now b).0
perform (recipient path) b = (add_recipient path b).0
perform opens b = (open_writer b).0
perform (writes p) b = (write p b).0
perform closes b = close_writer b

unfoldable pub perform_all : List BuilderCall → Builder → Builder
unfolding set_mail_from add_recipient open_writer write close_writer
perform_all [] b = b
perform_all (c ∷ cs) b = perform_all cs (perform c b)

-- The sender that was set last, its parameters and its time.
abbrev pub last_sender : Option MailPath → List BuilderCall → Option MailPath
last_sender s [] = s
last_sender s (sender path _ _ ∷ cs) = last_sender (some path) cs
last_sender s (_ ∷ cs) = last_sender s cs

abbrev pub last_params : EsmtpParams → List BuilderCall → EsmtpParams
last_params ps [] = ps
last_params ps (sender _ params _ ∷ cs) = last_params params cs
last_params ps (_ ∷ cs) = last_params ps cs

abbrev pub last_time : ℕ → List BuilderCall → ℕ
last_time t [] = t
last_time t (sender _ _ now ∷ cs) = last_time now cs
last_time t (_ ∷ cs) = last_time t cs

abbrev pub recipients_of : List BuilderCall → List MailPath
recipients_of [] = []
recipients_of (recipient path ∷ cs) = path ∷ recipients_of cs
recipients_of (_ ∷ cs) = recipients_of cs

-- The bytes of the writes up to the close of the writer.
abbrev pub until_closed : List BuilderCall → Bytes
until_closed [] = []
until_closed (writes p ∷ cs) = p ++ until_closed cs
until_closed (closes ∷ cs) = []
until_closed (_ ∷ cs) = until_closed cs

-- The bytes of the writes between the first opening of the writer and its close.
abbrev pub content_of : List BuilderCall → Bytes
content_of [] = []
content_of (opens ∷ cs) = until_closed cs
content_of (_ ∷ cs) = content_of cs

abbrev pub never_closed : List BuilderCall → Bool
never_closed [] = true
never_closed (closes ∷ cs) = false
never_closed (_ ∷ cs) = never_closed cs

-- The writer was opened, and not closed since.
abbrev pub left_open : List BuilderCall → Bool
left_open [] = false
left_open (opens ∷ cs) = never_closed cs
left_open (_ ∷ cs) = left_open cs

-- The writer's `closed`, if there is a writer.
abbrev writer_of : List BuilderCall → Option Bool
writer_of [] = none
writer_of (opens ∷ cs) = some (not (never_closed cs))
writer_of (_ ∷ cs) = writer_of cs

abbrev with_writer : Option Bool → Builder → Builder
with_writer w b = record b { finalized = false; data_writer = w }

-- The builder, with what these calls set besides the content.
abbrev settled : List BuilderCall → Builder → Builder
settled cs b = record b {
  mail_from = last_sender b.mail_from cs;
  esmtp_params = last_params b.esmtp_params cs;
  received_at = last_time b.received_at cs;
  recipients = b.recipients ++ recipients_of cs;
}

abbrev filled : List BuilderCall → Bytes → Builder → Builder
filled cs p b = record (settled cs b) { content = b.content ++ p }

abbrev is_empty : List MailPath → Bool
is_empty [] = true
is_empty (_ ∷ _) = false

-- What these calls, and then `Finalize`, are to come to.
abbrev pub sealed : EnvelopeMetadata → Bytes → ℕ → List BuilderCall → Finalized
sealed metadata id now cs = elim (last_sender none cs) [
  | none ↦ err no_mail_from
  | some path ↦
      if is_empty (recipients_of cs)
      then err no_recipients
      else if left_open cs
      then err data_writer_open
      else ok (record {
        id = id;
        mail_from = path;
        recipients = recipients_of cs;
        esmtp_params = last_params [] cs;
        received_at = last_time now cs;
        content = content_of cs;
        finalized = true;
        metadata = metadata;
      })
]

abbrev is_open : Option Bool → Bool
is_open none = false
is_open (some closed) = not closed
