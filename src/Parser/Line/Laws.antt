-- ===== src/Parser/Line/Laws.antt =====
-- parser.go: what every command that `ParseCommand` accepts satisfies.
use icesmtp.Parser.Error.{ok}
use icesmtp.Parser.Line.{Command, parse_command, build_command, trim_eol}
use icesmtp.Prelude.{
  ℕ, ◌<◌, ◌≤◌, true, false, [], ◌∷◌, Bytes, length, ◌≡◌, ◌≢◌, arith, equal, equal_iff, ◌⊎◌,
}
use icesmtp.Protocol.Command.{
  unknown, mail, rcpt, command_requires_argument, command_forbids_argument,
}

pub record IsAcceptable (max_command_length : ℕ) (raw : Bytes) (cmd : Command) : Type 0 where
  pub fits : 0 < max_command_length → length raw ≤ max_command_length
  pub known : cmd.verb ≢ unknown
  pub raw_line : cmd.raw ≡ trim_eol raw
  pub not_empty : cmd.raw ≢ []
  pub has_argument : command_requires_argument cmd.verb ≡ true → cmd.argument ≢ []
  pub no_argument : command_forbids_argument cmd.verb ≡ true → cmd.argument ≡ []
  pub few_params : (cmd.verb ≡ mail) ⊎ (cmd.verb ≡ rcpt) ⊎ (cmd.params ≡ [])

ne-nil : (s : Bytes) → equal s [] ≡ false → s ≢ []
ne-nil [] h = cc
ne-nil (c ∷ s) h = λ p. ground arith

eq-nil : (s : Bytes) → equal s [] ≡ true → s ≡ []
eq-nil s h = (equal_iff s []).0 h

-- A command that the parser accepts comes from a line inside the limit on its length, if there is
-- one; it keeps the line without its line end, which is not empty; it has a verb that is known, an
-- argument where the verb requires one and none where it forbids one, and parameters only for MAIL
-- and RCPT.
pub parse_command-IsAcceptable :
    (wide : Bytes → Bytes) (max_command_length : ℕ) (raw : Bytes) (cmd : Command)
    → parse_command wide max_command_length raw ≡ ok cmd
    → IsAcceptable max_command_length raw cmd
unfolding parse_command build_command
parse_command-IsAcceptable wide max_command_length raw cmd h = record {
  fits = ground arith;
  known = ground arith;
  raw_line = ground arith;
  not_empty = ne-nil cmd.raw (ground arith);
  has_argument = λ needs. ne-nil cmd.argument (ground arith);
  no_argument = λ bans. eq-nil cmd.argument (ground arith);
  few_params = ground arith;
}
