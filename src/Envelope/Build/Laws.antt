-- ===== src/Envelope/Build/Laws.antt =====
-- envelope_builder.go: when an envelope can be finalized, and what that closes.
use icesmtp.Envelope.Build.{
  Builder, envelope_finalized, writer_closed, ok, err, set_mail_from, add_recipient, open_writer,
  write, finalize,
}
use icesmtp.Envelope.{Envelope}
use icesmtp.Parser.{EsmtpParams, MailPath}
use icesmtp.Prelude.{ℕ, true, false, [], some, Bytes, ◌≡◌, ◌≢◌, arith}

-- A builder that is not finalized and has a sender, a recipient and no open writer is finalized
-- without an error.
finalize_succeeds :
    (b : Builder) (sender : MailPath)
    → b.finalized ≡ false
    → b.mail_from ≡ some sender
    → b.recipients ≢ []
    → b.data_writer ≢ some false
    → (m : Envelope) × ((finalize b).1 ≡ ok m) × ((finalize b).0 ≡ record b { finalized = true })
unfolding finalize
finalize_succeeds b sender fresh has_sender has_recipient no_writer =
    let m : Envelope = record {
      id = b.id;
      mail_from = sender;
      recipients = b.recipients;
      esmtp_params = b.esmtp_params;
      received_at = b.received_at;
      content = b.content;
      finalized = true;
      metadata = b.metadata;
    } in
    (m, ground arith, ground arith)

-- Once an envelope was made, its builder refuses a sender, a recipient, a writer, data and a second
-- envelope, and none of these calls changes it.
pub finalize_closes :
    (b : Builder) (m : Envelope) (path : MailPath) (params : EsmtpParams) (now : ℕ) (p : Bytes)
    → (finalize b).1 ≡ ok m
    → let c = (finalize b).0 in
      (set_mail_from path params now c ≡ (c, some envelope_finalized))
      × (add_recipient path c ≡ (c, some envelope_finalized))
      × (open_writer c ≡ (c, some envelope_finalized))
      × (write p c ≡ (c, some writer_closed))
      × (finalize c ≡ (c, err envelope_finalized))
unfolding finalize set_mail_from add_recipient open_writer write
finalize_closes b m path params now p h = ground arith
