-- ===== src/Parser.antt =====
-- parser.go: a command line, a mail path, the host name of HELO and EHLO, and dot-stuffing.
pub mod Error
pub mod Line
pub mod Path
pub mod Host
pub mod Dots
pub use Error.{ParserError, ParseError, Parsed, ok, err}
pub use Line.{Command, EsmtpParams}
unfoldable pub use Line.{lookup, parse_command}
pub use Path.{MailPath}
unfoldable pub use Path.{parse_mail_path}
unfoldable pub use Host.{parse_helo_hostname}
unfoldable pub use Dots.{is_terminator, unstuff_line, stuff_line}
