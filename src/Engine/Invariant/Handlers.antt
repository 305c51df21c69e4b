-- ===== src/Engine/Invariant/Handlers.antt =====
-- The handlers of a command keep the invariant.
use icesmtp.Engine.Greet.{
  handle_helo, handle_ehlo, handle_rset, handle_quit, handle_starttls, identify,
}
use icesmtp.Engine.Invariant.{IsCoherent}
use icesmtp.Engine.State.{Engine}
use icesmtp.Session.Config.{SessionConfig}
use icesmtp.Parser.{ParseError, Command, Parsed, ok, err, parse_helo_hostname}
use icesmtp.Prelude.{true, none, some, ◌≡◌, refl, arith, Bytes, Option, ◌⊎◌, inl, inr}
use icesmtp.Protocol.Command.{CommandVerb, helo, ehlo, quit, rset, starttls, is_command_allowed}
use icesmtp.Protocol.Machine.{transition_for_command}

Parsed-cases {ℓ} :
    {A : Type ℓ} (p : Parsed A) → ((a : A) × (p ≡ ok a)) ⊎ ((why : ParseError) × (p ≡ err why))
Parsed-cases (ok a) = inl (a, refl)
Parsed-cases (err why) = inr (why, refl)

identify-IsCoherent :
    {config : SessionConfig} (cmd : CommandVerb) (hostname : Bytes) (e : Engine)
    → (cmd ≡ helo) ⊎ (cmd ≡ ehlo)
    → is_command_allowed e.sm.state cmd ≡ true
    → IsCoherent config e
    → IsCoherent config (identify cmd hostname e)
unfolding identify is_command_allowed transition_for_command
identify-IsCoherent cmd hostname e which allowed h = ground arith

pub handle_helo-IsCoherent :
    {config : SessionConfig} (cmd : Command) (e : Engine)
    → is_command_allowed e.sm.state helo ≡ true
    → IsCoherent config e
    → IsCoherent config (handle_helo cmd e).0
unfolding handle_helo
handle_helo-IsCoherent cmd e allowed h = elim (Parsed-cases (parse_helo_hostname cmd.argument)) [
  | inl (hostname, p) ↦ rw p (identify-IsCoherent helo hostname e (inl refl) allowed h)
  | inr (why, p) ↦ rw p h
]

pub handle_ehlo-IsCoherent :
    {config : SessionConfig} (cmd : Command) (e : Engine)
    → is_command_allowed e.sm.state ehlo ≡ true
    → IsCoherent config e
    → IsCoherent config (handle_ehlo cmd e).0
unfolding handle_ehlo
handle_ehlo-IsCoherent cmd e allowed h = elim (Parsed-cases (parse_helo_hostname cmd.argument)) [
  | inl (hostname, p) ↦ rw p (identify-IsCoherent ehlo hostname e (inr refl) allowed h)
  | inr (why, p) ↦ rw p h
]

pub handle_rset-IsCoherent :
    {config : SessionConfig} (cmd : Command) (e : Engine)
    → is_command_allowed e.sm.state rset ≡ true
    → IsCoherent config e
    → IsCoherent config (handle_rset cmd e).0
unfolding handle_rset is_command_allowed
handle_rset-IsCoherent cmd e allowed h = ground arith

pub handle_quit-IsCoherent :
    {config : SessionConfig} (cmd : Command) (e : Engine)
    → is_command_allowed e.sm.state quit ≡ true
    → IsCoherent config e
    → IsCoherent config (handle_quit cmd e).0
unfolding handle_quit is_command_allowed
handle_quit-IsCoherent cmd e allowed h = ground arith

pub handle_starttls-IsCoherent :
    {config : SessionConfig} (cmd : Command) (e : Engine)
    → is_command_allowed e.sm.state starttls ≡ true
    → IsCoherent config e
    → IsCoherent config (handle_starttls cmd e).0
unfolding handle_starttls is_command_allowed
handle_starttls-IsCoherent cmd e allowed h = ground arith

-- A step that may panic does not, and what it leaves has the property.
abbrev pub Ensures : {R : Type 0} → (Engine → Type 0) → Option (Engine × R) → Type 0
Ensures P none = ⊥
Ensures P (some (e, r)) = P e
