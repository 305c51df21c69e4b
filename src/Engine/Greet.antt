-- ===== src/Engine/Greet.antt =====
-- engine.go: the handlers of HELO, EHLO, RSET, NOOP, QUIT, VRFY, HELP and STARTTLS.
pub mod Effects
use icesmtp.Engine.State.{Engine, show, reset_transaction}
use icesmtp.Parser.{Command, Parsed, ok, err, parse_helo_hostname}
use icesmtp.Prelude.{
  Bool, true, false, not, ◌&&◌, ◌||◌, List, [], ◌∷◌, ◌++◌, Option, none, some, Bytes, codes, ltb,
  if◌then◌else◌,
}
use icesmtp.Protocol.Command.{CommandVerb, helo, ehlo, quit, starttls}
use icesmtp.Protocol.Machine.{transition_for_command, reset, terminate}
use icesmtp.Protocol.Reply.{
  Response, new_response, new_multiline_response, response_ok, response_bye,
  response_syntax_error_params, response_command_not_implemented,
}
use icesmtp.Protocol.State.{greeted, identified, start_tls, same}
use icesmtp.Session.Config.{SessionConfig}
use icesmtp.Session.Tls
use icesmtp.Session.Tls.{disabled}
use icesmtp.Text.Number.{decimal}

-- `e.sm.TransitionForCommand(cmd, true)`, whose results are dropped.
abbrev pub move : CommandVerb → Engine → Engine
move cmd e = record e { sm = (transition_for_command e.sm cmd true).0 }

-- What HELO and EHLO do once the host name is parsed.
unfoldable pub identify : CommandVerb → Bytes → Engine → Engine
unfolding transition_for_command reset_transaction
identify cmd hostname e = reset_transaction (
    show identified
      (move cmd (record e { session = record e.session { client_hostname = hostname } })))

abbrev pub hello : Engine → Bytes → Bytes
hello e hostname = e.config.server_hostname ++ (codes " Hello " ++ hostname)

abbrev greet_helo : Engine → Parsed Bytes → Engine × Response
greet_helo e (err _) = (e, response_syntax_error_params)
greet_helo e (ok hostname) = (identify helo hostname e, new_response 250 (hello e hostname))

unfoldable pub handle_helo : Command → Engine → Engine × Response
unfolding identify
handle_helo cmd e = greet_helo e (parse_helo_hostname cmd.argument)

abbrev when : Bool → Bytes → List Bytes
when true line = line ∷ []
when false line = []

unfoldable pub offers_starttls : SessionConfig → Bool → Bool
offers_starttls config tls_active =
    config.extensions.starttls && not (Tls.same config.tls_policy disabled) && not tls_active

-- The lines that EHLO lists behind the greeting.
unfoldable pub extension_lines : SessionConfig → Bool → List Bytes
unfolding offers_starttls
extension_lines config tls_active =
    when (config.extensions.size && ltb 0 config.limits.max_message_size)
      (codes "SIZE " ++ decimal config.limits.max_message_size)
    ++ (when (offers_starttls config tls_active) (codes "STARTTLS")
        ++ (when config.extensions.eight_bit_mime (codes "8BITMIME")
            ++ (when config.extensions.pipelining (codes "PIPELINING")
                ++ (when config.extensions.enhanced_status_codes (codes "ENHANCEDSTATUSCODES")
                    ++ (when config.extensions.smtputf8 (codes "SMTPUTF8")
                        ++ when config.extensions.help (codes "HELP"))))))

abbrev greet_ehlo : Engine → Parsed Bytes → Engine × Response
greet_ehlo e (err _) = (e, response_syntax_error_params)
greet_ehlo e (ok hostname) = (
  identify ehlo hostname e,
  new_multiline_response 250 (hello e hostname ∷ extension_lines e.config e.session.tls_active),
)

unfoldable pub handle_ehlo : Command → Engine → Engine × Response
unfolding identify
handle_ehlo cmd e = greet_ehlo e (parse_helo_hostname cmd.argument)

unfoldable pub handle_rset : Command → Engine → Engine × Response
unfolding reset_transaction reset
handle_rset cmd e =
    let f = reset_transaction e in
    let sm = reset f.sm in
    (
      show (if same sm.state greeted || same sm.state identified then sm.state else identified)
          (record f { sm = sm }),
      response_ok,
    )

unfoldable pub handle_noop : Command → Engine → Engine × Response
handle_noop cmd e = (e, response_ok)

unfoldable pub handle_quit : Command → Engine → Engine × Response
unfolding transition_for_command terminate
handle_quit cmd e = let f = move quit e in (record f { sm = (terminate f.sm).0 }, response_bye)

unfoldable pub handle_vrfy : Command → Engine → Engine × Response
handle_vrfy cmd e = (
  e,
  if not e.config.extensions.vrfy
      then response_command_not_implemented
      else new_response 252 (codes "Cannot VRFY user; try RCPT to attempt delivery"),
)

abbrev is_some {ℓ} : {A : Type ℓ} → Option A → Bool
is_some none = false
is_some (some _) = true

-- The third line of HELP.
unfoldable pub additional_commands : Engine → Bytes
unfolding offers_starttls
additional_commands e =
    if offers_starttls e.config e.session.tls_active && is_some e.config.tls_provider
    then codes "RSET NOOP QUIT HELP STARTTLS"
    else codes "RSET NOOP QUIT HELP"

unfoldable pub handle_help : Command → Engine → Engine × Response
unfolding additional_commands
handle_help cmd e = (
  e,
  if not e.config.extensions.help
      then response_command_not_implemented
      else new_multiline_response 214 (
          codes "Supported commands:"
          ∷ codes "HELO EHLO MAIL RCPT DATA"
          ∷ additional_commands e
          ∷ codes "For more information, consult RFC 5321"
          ∷ []),
)

unfoldable pub handle_starttls : Command → Engine → Engine × Response
unfolding transition_for_command
handle_starttls cmd e =
    if Tls.same e.config.tls_policy disabled
    then (e, response_command_not_implemented)
    else if e.session.tls_active
    then (e, new_response 503 (codes "TLS already active"))
    else if not (is_some e.config.tls_provider)
    then (e, new_response 454 (codes "TLS not available"))
    else (show start_tls (move starttls e), new_response 220 (codes "Ready to start TLS"))
