-- ===== src/Parser/Host.antt =====
-- parser.go: the host name that HELO and EHLO give.
use icesmtp.Prelude.{
  Bool, true, false, ◌&&◌, ◌||◌, List, [], ◌∷◌, Bytes, codes, length, equal, ltb, ◌==◌,
  if◌then◌else◌, not, all, reverse,
}
use icesmtp.Parser.Error.{ParserError, Parsed, ok, err, missing_argument, invalid_syntax}
use icesmtp.Parser.Path.{is_alphanumeric}
use icesmtp.Text.Search.{has_prefix, has_suffix, split}
use icesmtp.Text.Space.{trim_space}

-- `label[0]` is alphanumeric; the caller has seen that there is one.
abbrev pub starts_alphanumeric : Bytes → Bool
starts_alphanumeric [] = false
starts_alphanumeric (c ∷ _) = is_alphanumeric c

-- One round of the loop over the labels.
unfoldable pub is_valid_label : Bytes → Bool
is_valid_label label =
    if equal label [] || ltb 63 (length label)
    then false
    else if not (starts_alphanumeric label) || not (starts_alphanumeric (reverse label))
    then false
    else all (λ c. is_alphanumeric c || c == b'-') label

unfoldable pub all_valid_labels : List Bytes → Bool
unfolding is_valid_label
all_valid_labels [] = true
all_valid_labels (label ∷ labels) = is_valid_label label && all_valid_labels labels

unfoldable pub is_valid_hostname : Bytes → Bool
unfolding all_valid_labels
is_valid_hostname s =
    if equal s [] || ltb 255 (length s) then false else all_valid_labels (split b'.' s)

abbrev fail : ParserError → Bytes → Bytes → Parsed Bytes
fail why context input = err (record { err = why; context = context; input = input })

unfoldable pub parse_helo_hostname : Bytes → Parsed Bytes
unfolding is_valid_hostname
parse_helo_hostname arg =
    let hostname = trim_space arg in
    if equal hostname []
    then fail missing_argument (codes "hostname required") []
    else if has_prefix hostname (codes "[")
    then (if not (has_suffix hostname (codes "]"))
        then fail invalid_syntax (codes "unclosed address literal") hostname
        else ok hostname)
    else if not (is_valid_hostname hostname)
    then fail invalid_syntax (codes "invalid hostname") hostname
    else ok hostname
