-- ===== src/Engine/Mail/Outcome.antt =====
-- engine.go: how MAIL and RCPT end, on each branch of their handlers.
use icesmtp.Engine.Mail.{
  metadata, declares_too_much, ask_sender_policy, is_accepted, handle_mail, accept_sender,
  with_sender, handle_rcpt, begin_transaction, accept_recipient, with_recipient, is_full,
}
use icesmtp.Engine.State.{Engine, session_info}
use icesmtp.Session.Config.{RecipientResult}
use mathlib.Core.Option.{some-injective}
use mathlib.Core.Path.{subst}
use icesmtp.Envelope.Build.{Builder, new_standard_envelope_builder, set_mail_from}
use icesmtp.Parser.{Command, MailPath, Parsed, ok, err, parse_mail_path}
use icesmtp.Prelude.{
  true, false, [], ◌∷◌, ◌++◌, Option, none, some, codes, ◌≡◌, refl, sym, ap, ◌∙◌, arith, ◌⊎◌, inl,
  inr, Bool-cases, ltb, leb, ◌&&◌, not,
}
use icesmtp.Session.Tls
use icesmtp.Session.Tls.{required}
use icesmtp.Protocol.Command.{mail, rcpt, is_command_allowed}
use icesmtp.Protocol.Reply.{Response, response_ok}
use icesmtp.Protocol.State.{mail_from, rcpt_to}

-- The command opened a transaction with this sender.
pub record Opens (cmd : Command) (e f : Engine) (r : Response) (path : MailPath) (b : Builder)
    : Type 0 where
  pub says_ok : r ≡ response_ok
  pub parsed : parse_mail_path e.around.wide_upper cmd.argument (codes "FROM") ≡ ok path
  pub machine : f.sm.state ≡ mail_from
  pub shown : f.session.state ≡ mail_from
  pub envelope : f.envelope ≡ some b
  pub sender : b.mail_from ≡ some path
  pub no_recipients : b.recipients ≡ []
  pub no_content : b.content ≡ []
  pub params : b.esmtp_params ≡ cmd.params
  pub tls : b.metadata.tls_active ≡ e.session.tls_active

-- MAIL changed nothing, or opened a transaction.
abbrev pub MailOutcome : Command → Engine → Engine × Response → Type 0
MailOutcome cmd e (f, r) = (f ≡ e) ⊎ ((path : MailPath) × (b : Builder) × Opens cmd e f r path b)

begin_transaction-Opens :
    (cmd : Command) (e : Engine) (path : MailPath)
    → is_command_allowed e.sm.state mail ≡ true
    → parse_mail_path e.around.wide_upper cmd.argument (codes "FROM") ≡ ok path
    → MailOutcome cmd e (begin_transaction path cmd.params e)
unfolding begin_transaction metadata new_standard_envelope_builder set_mail_from is_command_allowed
begin_transaction-Opens cmd e path allowed parsed =
    let n = e.stats.command_count in
    let b = new_standard_envelope_builder (metadata e) (e.around.fresh_id n) (e.around.now n) in
    let opened = (set_mail_from path cmd.params (e.around.now n) b).0 in
    inr (
      path,
      opened,
      record {
        says_ok = refl;
        parsed = parsed;
        machine = ground arith;
        shown = refl;
        envelope = refl;
        sender = refl;
        no_recipients = refl;
        no_content = refl;
        params = refl;
        tls = refl;
      },
    )

accept_sender-Opens :
    (cmd : Command) (e : Engine) (path : MailPath) (o : Option Response)
    → is_command_allowed e.sm.state mail ≡ true
    → parse_mail_path e.around.wide_upper cmd.argument (codes "FROM") ≡ ok path
    → MailOutcome cmd e (accept_sender cmd.params e path o)
accept_sender-Opens cmd e path (some r) allowed parsed = inl refl
accept_sender-Opens cmd e path none allowed parsed =
    begin_transaction-Opens cmd e path allowed parsed

with_sender-Opens :
    (cmd : Command) (e : Engine) (p : Parsed MailPath)
    → is_command_allowed e.sm.state mail ≡ true
    → parse_mail_path e.around.wide_upper cmd.argument (codes "FROM") ≡ p
    → MailOutcome cmd e (with_sender cmd.params e p)
with_sender-Opens cmd e (err _) allowed parsed = inl refl
with_sender-Opens cmd e (ok path) allowed parsed =
    elim (Bool-cases (declares_too_much e cmd.params)) [
      | inl too_much ↦ rw too_much (inl refl)
      | inr fits ↦ rw fits (
          accept_sender-Opens cmd e path (ask_sender_policy e.config.sender_policy path e) allowed
            parsed)
    ]

-- An allowed MAIL either changes nothing, or answers 250 and opens a transaction: the machine and
-- the session are in MailFrom, with an envelope that has the sender that was parsed, the
-- parameters of the command, neither recipients nor data, and the TLS state of the session.
pub handle_mail-Opens :
    (cmd : Command) (e : Engine)
    → is_command_allowed e.sm.state mail ≡ true
    → MailOutcome cmd e (handle_mail cmd e)
unfolding handle_mail
handle_mail-Opens cmd e allowed =
    let limits = e.config.limits in
    elim (Bool-cases (Tls.same e.config.tls_policy required && not e.session.tls_active)) [
      | inl insecure ↦ rw insecure (inl refl)
      | inr secure ↦
          elim (Bool-cases (
            ltb 0 limits.max_transactions
            && leb limits.max_transactions e.stats.transaction_count)) [
              | inl full ↦ rw (secure, full) (inl refl)
              | inr room ↦
                  rw (secure, room)
                    (with_sender-Opens cmd e
                      (parse_mail_path e.around.wide_upper cmd.argument (codes "FROM")) allowed
                      refl)
            ]
    ]

-- The command added this recipient.
pub record Adds (cmd : Command) (e f : Engine) (r : Response) (path : MailPath) (b : Builder)
    : Type 0 where
  pub says_ok : r ≡ response_ok
  pub parsed : parse_mail_path e.around.wide_upper cmd.argument (codes "TO") ≡ ok path
  pub machine : f.sm.state ≡ rcpt_to
  pub shown : f.session.state ≡ rcpt_to
  pub envelope : f.envelope ≡ some (record b { recipients = b.recipients ++ path ∷ [] })

-- RCPT changed nothing, or added a recipient.
abbrev pub RcptOutcome : Command → Engine → Builder → Engine × Response → Type 0
RcptOutcome cmd e b (f, r) = (f ≡ e) ⊎ ((path : MailPath) × Adds cmd e f r path b)

accept_recipient-Adds :
    (cmd : Command) (e : Engine) (path : MailPath) (b : Builder) (result : RecipientResult)
    → is_command_allowed e.sm.state rcpt ≡ true
    → b.finalized ≡ false
    → parse_mail_path e.around.wide_upper cmd.argument (codes "TO") ≡ ok path
    → RcptOutcome cmd e b (accept_recipient path b e result)
unfolding accept_recipient is_command_allowed
accept_recipient-Adds cmd e path b result allowed fresh parsed =
    elim (Bool-cases (not (is_accepted result.status))) [
      | inl refused ↦ rw refused (inl refl)
      | inr fine ↦
          rw (fine, fresh)
            (inr (
              path,
              record {
                says_ok = refl;
                parsed = parsed;
                machine = ground arith;
                shown = refl;
                envelope = refl;
              },
            ))
    ]

with_recipient-Adds :
    (cmd : Command) (e f : Engine) (r : Response) (b : Builder) (p : Parsed MailPath)
    → is_command_allowed e.sm.state rcpt ≡ true
    → b.finalized ≡ false
    → parse_mail_path e.around.wide_upper cmd.argument (codes "TO") ≡ p
    → with_recipient e (some b) p ≡ some (f, r)
    → RcptOutcome cmd e b (f, r)
unfolding accept_recipient is_command_allowed
with_recipient-Adds cmd e f r b (err why) allowed fresh parsed h = inl (ground arith)
with_recipient-Adds cmd e f r b (ok path) allowed fresh parsed h =
    elim (Bool-cases (is_full e.config.limits b)) [
      | inl full ↦ subst (RcptOutcome cmd e b) (some-injective _ (f, r) (rw full at h)) (inl refl)
      | inr room ↦
          let result = e.config.mailbox e.stats.command_count path (session_info e) in
          subst (RcptOutcome cmd e b)
            (some-injective (accept_recipient path b e result) (f, r) (rw room at h))
            (accept_recipient-Adds cmd e path b result allowed fresh parsed)
    ]

-- An allowed RCPT, with an envelope that is not finalized, either changes nothing, or answers 250,
-- goes to RcptTo, and puts the recipient that was parsed behind those of the envelope, of which
-- nothing else changes.
pub handle_rcpt-Adds :
    (cmd : Command) (e f : Engine) (r : Response) (b : Builder)
    → is_command_allowed e.sm.state rcpt ≡ true
    → e.envelope ≡ some b
    → b.finalized ≡ false
    → handle_rcpt cmd e ≡ some (f, r)
    → RcptOutcome cmd e b (f, r)
unfolding handle_rcpt
handle_rcpt-Adds cmd e f r b allowed has_envelope fresh h =
    let p = parse_mail_path e.around.wide_upper cmd.argument (codes "TO") in
    with_recipient-Adds cmd e f r b p allowed fresh refl
      (ap (λ (o : Option Builder). with_recipient e o p) (sym has_envelope) ∙ h)
