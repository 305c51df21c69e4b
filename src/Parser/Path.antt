-- ===== src/Parser/Path.antt =====
-- parser.go: the paths of MAIL FROM and RCPT TO.
pub mod Laws
use icesmtp.Prelude.{
  ℕ, ◌+◌, ◌-◌, Bool, true, false, ◌&&◌, ◌||◌, [], ◌++◌, none, some, Bytes, codes, length, take,
  drop, equal, leb, ◌==◌, if◌then◌else◌, not, all,
}
use icesmtp.Parser.Error.{
  ParserError, Parsed, ok, err, invalid_path, invalid_address, missing_colon,
}
use icesmtp.Text.Case.{to_upper}
use icesmtp.Text.Search.{index_byte, last_index_byte, has_prefix, has_suffix}
use icesmtp.Text.Space.{trim_space}

pub record MailPath : Type 0 where
  pub address : Bytes
  pub source_route : Bytes
  pub is_null : Bool

unfoldable pub is_alphanumeric : ℕ → Bool
is_alphanumeric c = leb b'a' c && leb c b'z' || leb b'A' c && leb c b'Z' || leb b'0' c && leb c b'9'

-- The source tests code points. One beyond ASCII fails, as its bytes do.
unfoldable pub is_valid_domain_char : ℕ → Bool
is_valid_domain_char c =
    leb b'a' c && leb c b'z'
    || leb b'A' c && leb c b'Z'
    || leb b'0' c && leb c b'9'
    || c == b'-'
    || c == b'.'

unfoldable pub is_valid_parts : Bytes → Bytes → Bool
unfolding is_valid_domain_char
is_valid_parts local_part domain =
    if equal local_part [] || equal domain []
    then false
    else if has_prefix domain (codes ".") || has_suffix domain (codes ".")
    then false
    else if has_prefix domain (codes "-") || has_suffix domain (codes "-")
    then false
    else all is_valid_domain_char domain

unfoldable pub is_valid_address : Bytes → Bool
unfolding is_valid_parts
is_valid_address addr = elim (last_index_byte b'@' addr) [
  | none ↦ false
  | some at ↦
      if at == 0 || at == length addr - 1
      then false
      else is_valid_parts (take at addr) (drop (at + 1) addr)
]

abbrev fail : ParserError → Bytes → Bytes → Parsed MailPath
fail why context input = err (record { err = why; context = context; input = input })

-- The source route at the front of a path, and the address behind it.
unfoldable pub split_route : Bytes → Bytes × Bytes
split_route inner = elim (index_byte b':' inner) [
  | none ↦ ([], inner)
  | some colon ↦
      if has_prefix inner (codes "@")
      then (take (colon + 1) inner, drop (colon + 1) inner)
      else ([], inner)
]

-- `extractPath` from the text between the brackets on.
unfoldable pub read_inner : Bytes → Parsed MailPath
unfolding split_route
read_inner inner =
    let (source_route, address) = split_route inner in
    if equal inner []
    then ok (record { address = []; source_route = []; is_null = true })
    else if not (is_valid_address address)
    then fail invalid_address (codes "invalid address format") address
    else ok (record { address = address; source_route = source_route; is_null = false })

unfoldable pub extract_path : Bytes → Parsed MailPath
unfolding read_inner
extract_path raw =
    let s = trim_space raw in
    if not (has_prefix s (codes "<"))
    then fail invalid_path (codes "path must start with <") s
    else elim (index_byte b'>' s) [
      | none ↦ fail invalid_path (codes "path must end with >") s
      | some close ↦ read_inner (drop 1 (take close s))
    ]

-- The prefix is FROM or TO. Its bytes and the colon come from no longer text under `ToUpper`, so
-- the slice behind them is in range.
unfoldable pub parse_mail_path : (Bytes → Bytes) → Bytes → Bytes → Parsed MailPath
unfolding extract_path
parse_mail_path wide raw prefix =
    let arg = trim_space raw in
    if not (has_prefix (to_upper wide arg) (prefix ++ codes ":"))
    then fail missing_colon (codes "expected " ++ (prefix ++ codes ":")) arg
    else extract_path (trim_space (drop (length prefix + 1) arg))
