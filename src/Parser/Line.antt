-- ===== src/Parser/Line.antt =====
-- parser.go and command.go: a command line becomes a command.
pub mod Laws
use icesmtp.Prelude.{
  ℕ, ◌+◌, ◌&&◌, ◌||◌, List, [], ◌∷◌, ◌++◌, Option, none, some, Bytes, codes, length, take, drop,
  equal, ltb, if◌then◌else◌, not,
}
use icesmtp.Parser.Error.{
  ParserError, Parsed, ok, err, command_too_long, empty_command, invalid_command, missing_argument,
  unexpected_argument,
}
use icesmtp.Protocol.Command.{
  CommandVerb, helo, ehlo, mail, rcpt, data_cmd, rset, noop, quit, vrfy, expn, help, starttls, auth,
  unknown, spell, same, command_requires_argument, command_forbids_argument,
}
use icesmtp.Text.Case.{to_upper}
use icesmtp.Text.Search.{index_byte, trim_suffix}
use icesmtp.Text.Space.{trim_space, fields}

-- `ESMTPParams`: a Go map, of which each key stands once; nil is the empty one.
abbrev pub EsmtpParams : Type 0
EsmtpParams = List (Bytes × Bytes)

unfoldable pub lookup : Bytes → EsmtpParams → Option Bytes
lookup k [] = none
lookup k ((j, v) ∷ m) = if equal j k then some v else lookup k m

-- `params[k] = v`.
unfoldable pub insert : Bytes → Bytes → EsmtpParams → EsmtpParams
insert k v [] = (k, v) ∷ []
insert k v ((j, w) ∷ m) = if equal j k then (k, v) ∷ m else (j, w) ∷ insert k v m

pub record Command : Type 0 where
  pub verb : CommandVerb
  pub raw : Bytes
  pub argument : Bytes
  pub params : EsmtpParams

-- The cases of the `switch` in `ParseCommandVerb`.
abbrev verbs : List CommandVerb
verbs =
    helo ∷ ehlo ∷ mail ∷ rcpt ∷ data_cmd ∷ rset ∷ noop ∷ quit ∷ vrfy ∷ expn ∷ help ∷ starttls ∷ auth
    ∷ []

unfoldable pub find_verb : List CommandVerb → Bytes → CommandVerb
find_verb [] s = unknown
find_verb (v ∷ vs) s = if equal s (spell v) then v else find_verb vs s

unfoldable pub parse_command_verb : (Bytes → Bytes) → Bytes → CommandVerb
unfolding find_verb spell
parse_command_verb wide s = find_verb verbs (to_upper wide (trim_space s))

-- The verb and the argument, which is nil where there is no blank.
unfoldable pub split_command : Bytes → Bytes × Bytes
unfolding index_byte
split_command line = elim (index_byte b' ' line) [
  | none ↦ (line, [])
  | some idx ↦ (take idx line, drop (idx + 1) line)
]

-- One word behind the path: `KEY=value`, or a keyword alone.
unfoldable pub parse_param : (Bytes → Bytes) → Bytes → Bytes × Bytes
parse_param wide part = elim (index_byte b'=' part) [
  | none ↦ (to_upper wide part, [])
  | some idx ↦ (to_upper wide (take idx part), drop (idx + 1) part)
]

unfoldable pub add_params : (Bytes → Bytes) → EsmtpParams → List Bytes → EsmtpParams
unfolding parse_param insert
add_params wide params [] = params
add_params wide params (part ∷ parts) =
    let (key, value) = parse_param wide part in add_params wide (insert key value params) parts

-- The error of `parseESMTPParams` is always nil.
unfoldable pub parse_esmtp_params : (Bytes → Bytes) → Bytes → EsmtpParams
unfolding add_params
parse_esmtp_params wide arg = elim (index_byte b'>' arg) [
  | none ↦ []
  | some idx ↦ add_params wide [] (fields (trim_space (drop (idx + 1) arg)))
]

unfoldable pub trim_eol : Bytes → Bytes
unfolding trim_suffix
trim_eol line = trim_suffix (trim_suffix line (codes "\r\n")) (codes "\n")

abbrev fail {ℓ} : {A : Type ℓ} → ParserError → Bytes → Bytes → Parsed A
fail why context input = err (record { err = why; context = context; input = input })

-- `ParseCommand` from the verb on.
unfoldable pub build_command :
    (Bytes → Bytes) → Bytes → CommandVerb → Bytes → Bytes → Parsed Command
build_command wide line verb word arg =
    let arg_str = trim_space arg in
    if same verb unknown
    then fail invalid_command word line
    else if command_requires_argument verb && equal arg_str []
    then fail missing_argument (spell verb ++ codes " requires an argument") []
    else if command_forbids_argument verb && not (equal arg_str [])
    then fail unexpected_argument (spell verb ++ codes " does not accept arguments") []
    else ok (record {
      verb = verb;
      raw = line;
      argument = arg_str;
      params = if same verb mail || same verb rcpt then parse_esmtp_params wide arg_str else [];
    })

-- `Parser.ParseCommand`, for the parser's `MaxCommandLength`.
unfoldable pub parse_command : (Bytes → Bytes) → ℕ → Bytes → Parsed Command
unfolding build_command split_command trim_eol
parse_command wide max_command_length raw =
    let line = trim_eol raw in
    let (word, arg) = split_command line in
    if ltb 0 max_command_length && ltb max_command_length (length raw)
    then fail command_too_long [] raw
    else if equal line []
    then fail empty_command [] []
    else build_command wide line (parse_command_verb wide word) word arg
