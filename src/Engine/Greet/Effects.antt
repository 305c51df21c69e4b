-- ===== src/Engine/Greet/Effects.antt =====
-- engine.go: RSET, QUIT and STARTTLS on each branch.
use icesmtp.Engine.Greet.{handle_rset}
use icesmtp.Engine.State.{Engine}
use icesmtp.Prelude.{true, none, [], ◌∷◌, Bytes, codes, ◌≡◌, arith, if◌then◌else◌}
use icesmtp.Parser.{Command}
use icesmtp.Protocol.Command.{rset, is_command_allowed}
use icesmtp.Protocol.Reply.{
  Response, response_ok, response_command_not_implemented, new_multiline_response,
}
use icesmtp.Session.Config.{SessionConfig}
use icesmtp.Protocol.State.{greeted, identified, same}

-- An allowed RSET answers 250, drops the envelope, and leaves a machine that was at Greeted there
-- and every other at Identified, which the session shows; nothing was stored.
pub handle_rset_allowed :
    (cmd : Command) (e : Engine)
    → is_command_allowed e.sm.state rset ≡ true
    → let (f, r) = handle_rset cmd e in
      (r ≡ response_ok)
      × (f.envelope ≡ none)
      × (f.sm.state ≡ (if same e.sm.state greeted then greeted else identified))
      × (f.session.state ≡ f.sm.state)
      × (f.stored ≡ e.stored)
unfolding handle_rset is_command_allowed
handle_rset_allowed cmd e allowed = ground arith

-- What HELP is to answer: these commands in its third line, if its extension is on, and else 502.
abbrev pub help_with : SessionConfig → Bytes → Response
help_with config listed =
    if config.extensions.help
    then new_multiline_response 214 (
        codes "Supported commands:"
        ∷ codes "HELO EHLO MAIL RCPT DATA"
        ∷ listed
        ∷ codes "For more information, consult RFC 5321"
        ∷ [])
    else response_command_not_implemented
