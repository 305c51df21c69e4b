-- ===== src/Engine/Invariant/Transactions.antt =====
-- The handlers of MAIL and RCPT keep the invariant: a sender and a recipient are in the envelope
-- with the consent of the policy and of the mailbox.
use icesmtp.Engine.Invariant.Handlers.{Ensures}
use icesmtp.Engine.Invariant.{
  approves, IsApproved, SenderIsApproved-some, AllWelcome, AllWelcome-nil, AllWelcome-concat,
  IsWelcome, IsCoherent,
}
use icesmtp.Engine.Mail.{
  handle_mail, handle_rcpt, begin_transaction, accept_recipient, is_full, with_recipient, refusal,
  ask_sender_policy, accept_sender, with_sender, declares_too_much,
}
use icesmtp.Envelope.{recipient_count}
use icesmtp.Limits.{SessionLimits}
use icesmtp.Envelope.Build
use icesmtp.Engine.State.{session_info, Engine}
use mathlib.Core.List.{concat-ne-nil}
use icesmtp.Envelope.Build.{Builder}
use icesmtp.Protocol.Reply.{Response, new_response}
use icesmtp.Session.Config.{SessionConfig, SessionInfo, SenderResult, RecipientResult, accepted}
use icesmtp.Session.Tls
use icesmtp.Session.Tls.{required}
use icesmtp.Parser.{MailPath, EsmtpParams, Command, Parsed, ok, err, parse_mail_path}
use icesmtp.Prelude.{
  ℕ, Bool, not, ◌&&◌, ap, sym, ◌∙◌, ◌++◌, true, false, none, some, ◌≡◌, refl, arith, length,
  length-append, [], ◌∷◌, ◌<◌, Option, Bool-cases, if◌then◌else◌, codes, inl, inr,
}
use icesmtp.Protocol.Command.{mail, rcpt, is_command_allowed}
use icesmtp.Protocol.State.{State, identified}

begin_transaction-IsCoherent :
    {config : SessionConfig} (path : MailPath) (params : EsmtpParams) (e : Engine)
    → e.sm.state ≡ identified
    → (Tls.same e.config.tls_policy required ≡ true → e.session.tls_active ≡ true)
    → IsApproved config path
    → IsCoherent config e
    → IsCoherent config (begin_transaction path params e).0
unfolding begin_transaction
begin_transaction-IsCoherent {config} path params e s secure approved h =
    ground (arith, AllWelcome-nil config, (SenderIsApproved-some config path).1 approved)

refusal-none : (r : SenderResult) → refusal r ≡ none → r.accepted ≡ true
refusal-none r h = ground arith

-- Where the policy of the engine refuses nothing, that of the configuration approves.
approves_lem :
    (o : Option (ℕ → MailPath → SessionInfo → SenderResult)) (path : MailPath) (e : Engine)
    → ask_sender_policy o path e ≡ none
    → approves o e.stats.command_count path (session_info e) ≡ true
approves_lem none path e h = refl
approves_lem (some validate) path e h =
    refusal-none (validate e.stats.command_count path (session_info e)) h

policy-IsApproved :
    {config : SessionConfig} (path : MailPath) (e : Engine)
    → IsCoherent config e
    → ask_sender_policy e.config.sender_policy path e ≡ none
    → IsApproved config path
policy-IsApproved path e h says = record {
  command = e.stats.command_count;
  session = session_info e;
  says =
      ap
        (λ (c : SessionConfig).
          approves c.sender_policy e.stats.command_count path (session_info e))
        (sym h.serves.0)
      ∙ approves_lem e.config.sender_policy path e says;
}

accept_sender-IsCoherent :
    {config : SessionConfig} (path : MailPath) (params : EsmtpParams) (e : Engine)
    (answer : Option Response)
    → e.sm.state ≡ identified
    → (Tls.same e.config.tls_policy required ≡ true → e.session.tls_active ≡ true)
    → (answer ≡ none → IsApproved config path)
    → IsCoherent config e
    → IsCoherent config (accept_sender params e path answer).0
accept_sender-IsCoherent path params e (some r) s secure approved h = h
accept_sender-IsCoherent path params e none s secure approved h =
    begin_transaction-IsCoherent path params e s secure (approved refl) h

with_sender-IsCoherent :
    {config : SessionConfig} (params : EsmtpParams) (e : Engine) (parsed : Parsed MailPath)
    → e.sm.state ≡ identified
    → (Tls.same e.config.tls_policy required ≡ true → e.session.tls_active ≡ true)
    → IsCoherent config e
    → IsCoherent config (with_sender params e parsed).0
with_sender-IsCoherent params e (err _) s secure h = h
with_sender-IsCoherent params e (ok path) s secure h =
    elim (Bool-cases (declares_too_much e params)) [
      | inl large ↦ rw large h
      | inr small ↦ rw small (
          accept_sender-IsCoherent path params e (ask_sender_policy e.config.sender_policy path e) s
            secure (policy-IsApproved path e h) h)
    ]

-- Two refusals that leave the engine alone, and what is done else.
guarded :
    (P : Engine → Type 0) (a b : Bool) (e : Engine) (r s : Response) (x : Engine × Response)
    → P e
    → (a ≡ false → P x.0)
    → P (if a then (e, r) else if b then (e, s) else x).0
guarded P true b e r s x h g = h
guarded P false true e r s x h g = h
guarded P false false e r s x h g = g refl

secured : (a b : Bool) → (a && not b) ≡ false → a ≡ true → b ≡ true
secured a b h g = ground arith

mail_allowed : (s : State) → is_command_allowed s mail ≡ true → s ≡ identified
unfolding is_command_allowed
mail_allowed s allowed = ground arith

pub handle_mail-IsCoherent :
    {config : SessionConfig} (cmd : Command) (e : Engine)
    → is_command_allowed e.sm.state mail ≡ true
    → IsCoherent config e
    → IsCoherent config (handle_mail cmd e).0
unfolding handle_mail
handle_mail-IsCoherent cmd e allowed h =
    let parsed = parse_mail_path e.around.wide_upper cmd.argument (codes "FROM") in
    guarded (IsCoherent _) _ _ e _ _ (with_sender cmd.params e parsed) h (λ passes.
      with_sender-IsCoherent cmd.params e parsed (mail_allowed e.sm.state allowed)
        (secured _ e.session.tls_active passes) h)

accept_recipient-IsCoherent :
    {config : SessionConfig} (path : MailPath) (b : Builder) (e : Engine) (result : RecipientResult)
    → e.envelope ≡ some b
    → is_command_allowed e.sm.state rcpt ≡ true
    → (0 < e.config.limits.max_recipients → length b.recipients < e.config.limits.max_recipients)
    → (result.status ≡ accepted → IsWelcome config path)
    → IsCoherent config e
    → IsCoherent config (accept_recipient path b e result).0
unfolding accept_recipient is_command_allowed
accept_recipient-IsCoherent {config} path b e result is_b allowed room welcome h =
    let added : result.status ≡ accepted
        → AllWelcome config b.recipients
        → AllWelcome config (b.recipients ++ path ∷ []) =
      λ s w. AllWelcome-concat config b.recipients path w (welcome s) in
    ground (arith, length-append b.recipients (path ∷ []), concat-ne-nil path b.recipients, added)

not-is_full :
    (limits : SessionLimits) (b : Builder)
    → is_full limits b ≡ false
    → 0 < limits.max_recipients
    → length b.recipients < limits.max_recipients
unfolding Build.build recipient_count
not-is_full limits b room bounded = ground arith

-- With a recipient asked for, the mailbox's answer or the limit decides.
add_recipient-IsCoherent :
    {config : SessionConfig} (path : MailPath) (b : Builder) (e : Engine) (result : RecipientResult)
    → e.envelope ≡ some b
    → is_command_allowed e.sm.state rcpt ≡ true
    → (result.status ≡ accepted → IsWelcome config path)
    → IsCoherent config e
    → IsCoherent config
        (if is_full e.config.limits b
          then (e, new_response 452 (codes "Too many recipients"))
          else accept_recipient path b e result).0
add_recipient-IsCoherent path b e result is_b allowed welcome h =
    elim (Bool-cases (is_full e.config.limits b)) [
      | inl full ↦ rw full h
      | inr room ↦ rw room (
          accept_recipient-IsCoherent path b e result is_b allowed
            (not-is_full e.config.limits b room) welcome h)
    ]

has_envelope :
    {config : SessionConfig} (e : Engine)
    → e.envelope ≡ none
    → is_command_allowed e.sm.state rcpt ≡ true
    → IsCoherent config e
    → ⊥
unfolding is_command_allowed
has_envelope e missing allowed h = ground arith

-- Who the mailbox of the engine accepts, the mailbox of the configuration does.
mailbox-IsWelcome :
    {config : SessionConfig} (path : MailPath) (e : Engine)
    → IsCoherent config e
    → (e.config.mailbox e.stats.command_count path (session_info e)).status ≡ accepted
    → IsWelcome config path
mailbox-IsWelcome path e h says = record {
  command = e.stats.command_count;
  session = session_info e;
  says =
      ap (λ (c : SessionConfig). (c.mailbox e.stats.command_count path (session_info e)).status)
        (sym h.serves.0)
      ∙ says;
}

with_recipient-IsCoherent :
    {config : SessionConfig} (e : Engine) (envelope : Option Builder) (parsed : Parsed MailPath)
    → e.envelope ≡ envelope
    → is_command_allowed e.sm.state rcpt ≡ true
    → IsCoherent config e
    → Ensures (IsCoherent config) (with_recipient e envelope parsed)
with_recipient-IsCoherent e none (err _) is_o allowed h = h
with_recipient-IsCoherent e (some b) (err _) is_o allowed h = h
with_recipient-IsCoherent e none (ok path) is_o allowed h = has_envelope e is_o allowed h
with_recipient-IsCoherent e (some b) (ok path) is_o allowed h =
    add_recipient-IsCoherent path b e _ is_o allowed (mailbox-IsWelcome path e h) h

pub handle_rcpt-IsCoherent :
    {config : SessionConfig} (cmd : Command) (e : Engine)
    → is_command_allowed e.sm.state rcpt ≡ true
    → IsCoherent config e
    → Ensures (IsCoherent config) (handle_rcpt cmd e)
unfolding handle_rcpt
handle_rcpt-IsCoherent cmd e allowed h = with_recipient-IsCoherent e e.envelope _ refl allowed h
