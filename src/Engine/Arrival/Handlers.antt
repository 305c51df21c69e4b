-- ===== src/Engine/Arrival/Handlers.antt =====
-- engine.go: the handlers other than that of DATA read nothing.
use icesmtp.Engine.Arrival.{extend, onto}
use icesmtp.Engine.Greet.{
  handle_helo, handle_ehlo, handle_rset, handle_noop, handle_quit, handle_vrfy, handle_help,
  handle_starttls, additional_commands,
}
use icesmtp.Engine.Mail.{
  handle_mail, handle_rcpt, accept_recipient, declares_too_much, metadata, begin_transaction,
}
use icesmtp.Engine.State.{Engine, session_info}
use icesmtp.Parser.{Command}
use icesmtp.Prelude.{List, ◌≡◌, refl, arith}
use icesmtp.Session.Connection.{Read}
use mathlib.Core.Option

module _ (more : List Read) (cmd : Command) (e : Engine) where
  pub handle_helo-extend : handle_helo cmd (extend more e) ≡ onto more (handle_helo cmd e)
  unfolding handle_helo
  handle_helo-extend = ground arith

  pub handle_ehlo-extend : handle_ehlo cmd (extend more e) ≡ onto more (handle_ehlo cmd e)
  unfolding handle_ehlo
  handle_ehlo-extend = ground arith

  pub handle_rset-extend : handle_rset cmd (extend more e) ≡ onto more (handle_rset cmd e)
  unfolding handle_rset
  handle_rset-extend = ground arith

  pub handle_quit-extend : handle_quit cmd (extend more e) ≡ onto more (handle_quit cmd e)
  unfolding handle_quit
  handle_quit-extend = ground arith

  pub handle_starttls-extend :
      handle_starttls cmd (extend more e) ≡ onto more (handle_starttls cmd e)
  unfolding handle_starttls
  handle_starttls-extend = ground arith

  pub handle_noop-extend : handle_noop cmd (extend more e) ≡ onto more (handle_noop cmd e)
  unfolding handle_noop
  handle_noop-extend = refl

  pub handle_vrfy-extend : handle_vrfy cmd (extend more e) ≡ onto more (handle_vrfy cmd e)
  unfolding handle_vrfy
  handle_vrfy-extend = refl

  pub handle_help-extend : handle_help cmd (extend more e) ≡ onto more (handle_help cmd e)
  unfolding handle_help additional_commands
  handle_help-extend = refl

  pub handle_mail-extend : handle_mail cmd (extend more e) ≡ onto more (handle_mail cmd e)
  unfolding handle_mail session_info declares_too_much metadata begin_transaction
  handle_mail-extend = ground arith

  pub handle_rcpt-extend :
      handle_rcpt cmd (extend more e) ≡ Option.map (onto more) (handle_rcpt cmd e)
  unfolding handle_rcpt session_info accept_recipient
  handle_rcpt-extend = ground arith
