-- ===== src/Tests/Parsing.antt =====
-- The theorems on the parser, at concrete inputs.
use icesmtp.Parser.Error.{Parsed, ok, err}
use icesmtp.Parser.Line.Laws.{IsAcceptable, parse_command-IsAcceptable}
use icesmtp.Parser.Line.{Command, parse_command, trim_eol, parse_command_verb}
use icesmtp.Parser.Path.Laws.{IsPath, parse_mail_path-IsPath}
use icesmtp.Parser.Path.{parse_mail_path, is_valid_address}
use icesmtp.Prelude.{codes, refl}
use icesmtp.Protocol.Command.{noop, command_requires_argument, command_forbids_argument}
use icesmtp.Tests.Sample.{command, path_of}
use icesmtp.Text.Case.{to_upper}
use icesmtp.Text.Search.{has_prefix, index_byte, last_index_byte, has_suffix}
use icesmtp.Text.Space.{trim_space}

abbrev parsed : Parsed Command → Command
parsed (ok c) = c
parsed (err _) = command noop ""

abbrev ehlo_line : Command
ehlo_line = parsed (parse_command (λ s. s) 512 (codes "EHLO client.test\r\n"))

parse_command-IsAcceptable_example : IsAcceptable 512 (codes "EHLO client.test\r\n") ehlo_line
unfolding parse_command trim_eol parse_command_verb command_requires_argument
    command_forbids_argument to_upper trim_space
parse_command-IsAcceptable_example =
    parse_command-IsAcceptable (λ s. s) 512 (codes "EHLO client.test\r\n") ehlo_line refl

parse_mail_path-IsPath_example : IsPath (path_of "a@b.org")
unfolding parse_mail_path is_valid_address to_upper trim_space has_prefix index_byte last_index_byte
    has_suffix
parse_mail_path-IsPath_example =
    parse_mail_path-IsPath (λ s. s) (codes "FROM:<a@b.org>") (codes "FROM") (path_of "a@b.org") refl
