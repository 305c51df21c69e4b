-- ===== src/Protocol/Command.antt =====
-- command.go: the verbs, which states allow them, and which take an argument.
use icesmtp.Prelude.{Bool, true, false, List, [], ◌∷◌, ◌||◌, Bytes, codes}
use icesmtp.Protocol.State.{State, greeted, identified, mail_from, rcpt_to}

-- `CommandVerb` is a string in the source. `parse_command_verb` returns only these values.
pub data CommandVerb : Type 0 where
  helo ehlo mail rcpt data_cmd rset noop quit vrfy expn help starttls auth unknown : CommandVerb

-- `CommandVerb.String`.
unfoldable pub spell : CommandVerb → Bytes
spell helo = codes "HELO"
spell ehlo = codes "EHLO"
spell mail = codes "MAIL"
spell rcpt = codes "RCPT"
spell data_cmd = codes "DATA"
spell rset = codes "RSET"
spell noop = codes "NOOP"
spell quit = codes "QUIT"
spell vrfy = codes "VRFY"
spell expn = codes "EXPN"
spell help = codes "HELP"
spell starttls = codes "STARTTLS"
spell auth = codes "AUTH"
spell unknown = []

-- Go's `==` on the type.
abbrev pub same : CommandVerb → CommandVerb → Bool
same helo helo = true
same ehlo ehlo = true
same mail mail = true
same rcpt rcpt = true
same data_cmd data_cmd = true
same rset rset = true
same noop noop = true
same quit quit = true
same vrfy vrfy = true
same expn expn = true
same help help = true
same starttls starttls = true
same auth auth = true
same unknown unknown = true
same _ _ = false

-- The loops `for _, c := range allowed { if c == cmd { return true } }`.
abbrev pub contains : List CommandVerb → CommandVerb → Bool
contains [] cmd = false
contains (c ∷ cs) cmd = same c cmd || contains cs cmd

unfoldable pub allowed_commands : State → List CommandVerb
allowed_commands greeted = helo ∷ ehlo ∷ quit ∷ noop ∷ help ∷ rset ∷ []
allowed_commands identified =
    helo ∷ ehlo ∷ mail ∷ quit ∷ noop ∷ help ∷ rset ∷ vrfy ∷ expn ∷ starttls ∷ auth ∷ []
allowed_commands mail_from = rcpt ∷ rset ∷ quit ∷ noop ∷ help ∷ []
allowed_commands rcpt_to = rcpt ∷ data_cmd ∷ rset ∷ quit ∷ noop ∷ help ∷ []
allowed_commands _ = []

unfoldable pub is_command_allowed : State → CommandVerb → Bool
unfolding allowed_commands
is_command_allowed state cmd = contains (allowed_commands state) cmd

unfoldable pub command_requires_argument : CommandVerb → Bool
command_requires_argument helo = true
command_requires_argument ehlo = true
command_requires_argument mail = true
command_requires_argument rcpt = true
command_requires_argument _ = false

unfoldable pub command_forbids_argument : CommandVerb → Bool
command_forbids_argument data_cmd = true
command_forbids_argument rset = true
command_forbids_argument quit = true
command_forbids_argument starttls = true
command_forbids_argument _ = false
