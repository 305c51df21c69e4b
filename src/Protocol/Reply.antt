-- ===== src/Protocol/Reply.antt =====
-- reply.go: reply codes, responses, and the text that is sent for a response.
use icesmtp.Prelude.{
  ℕ, ◌*◌, ◌/◌, Bool, ◌&&◌, List, [], ◌∷◌, ◌++◌, Option, none, some, Bytes, codes, leb, ltb,
}
use icesmtp.Text.Number.{decimal}

-- `ReplyCode`: an int of three digits.
abbrev pub ReplyCode : Type 0
ReplyCode = ℕ

unfoldable pub is_positive : ReplyCode → Bool
is_positive c = leb 200 c && ltb c 400

unfoldable pub is_negative : ReplyCode → Bool
is_negative c = leb 400 c

unfoldable pub is_transient : ReplyCode → Bool
is_transient c = leb 400 c && ltb c 500

unfoldable pub is_permanent : ReplyCode → Bool
is_permanent c = leb 500 c

unfoldable pub category : ReplyCode → ReplyCode
category c = c / 100 * 100

pub record EnhancedStatusCode : Type 0 where
  pub class : ℕ
  pub subject : ℕ
  pub detail : ℕ

-- `EnhancedStatusCode.String`.
unfoldable pub spell_enhanced : EnhancedStatusCode → Bytes
spell_enhanced e = decimal e.class ++ (b'.' ∷ (decimal e.subject ++ (b'.' ∷ decimal e.detail)))

pub record Response : Type 0 where
  pub code : ReplyCode
  pub enhanced_code : Option EnhancedStatusCode
  pub lines : List Bytes

-- `%d` and the separator, the enhanced code if there is one, the text, CRLF.
unfoldable pub spell_line : Response → ℕ → Bytes → Bytes
unfolding spell_enhanced
spell_line r separator line = elim r.enhanced_code [
  | none ↦ decimal r.code ++ (separator ∷ (line ++ codes "\r\n"))
  | some e ↦ decimal r.code ++ (separator ∷ (spell_enhanced e ++ (b' ' ∷ (line ++ codes "\r\n"))))
]

-- The loop over `r.Lines`; the last line has a blank for its separator, the others a hyphen.
unfoldable pub spell_lines : Response → List Bytes → Bytes
unfolding spell_line
spell_lines r [] = []
spell_lines r (line ∷ []) = spell_line r b' ' line
spell_lines r (line ∷ next ∷ rest) = spell_line r b'-' line ++ spell_lines r (next ∷ rest)

-- The case of no line at all.
unfoldable pub spell_bare : Response → Bytes
unfolding spell_enhanced
spell_bare r = elim r.enhanced_code [
  | none ↦ decimal r.code ++ codes "\r\n"
  | some e ↦ decimal r.code ++ (b' ' ∷ (spell_enhanced e ++ codes "\r\n"))
]

abbrev pub spell_response : Response → List Bytes → Bytes
spell_response r [] = spell_bare r
spell_response r (line ∷ rest) = spell_lines r (line ∷ rest)

-- `Response.String` and `Response.Bytes`.
unfoldable pub bytes : Response → Bytes
unfolding spell_lines spell_bare
bytes r = spell_response r r.lines

abbrev pub new_response : ReplyCode → Bytes → Response
new_response code text = record { code = code; enhanced_code = none; lines = text ∷ [] }

abbrev pub new_enhanced_response : ReplyCode → EnhancedStatusCode → Bytes → Response
new_enhanced_response code enhanced text = record {
  code = code;
  enhanced_code = some enhanced;
  lines = text ∷ [];
}

abbrev pub new_multiline_response : ReplyCode → List Bytes → Response
new_multiline_response code lines = record { code = code; enhanced_code = none; lines = lines }

abbrev pub response_bye : Response
response_bye = new_response 221 (codes "Bye")

abbrev pub response_ok : Response
response_ok = new_response 250 (codes "OK")

abbrev pub response_start_mail_input : Response
response_start_mail_input = new_response 354 (codes "Start mail input; end with <CRLF>.<CRLF>")

abbrev pub response_syntax_error : Response
response_syntax_error = new_response 500 (codes "Syntax error, command unrecognized")

abbrev pub response_syntax_error_params : Response
response_syntax_error_params = new_response 501 (codes "Syntax error in parameters or arguments")

abbrev pub response_command_not_implemented : Response
response_command_not_implemented = new_response 502 (codes "Command not implemented")

abbrev pub response_bad_sequence : Response
response_bad_sequence = new_response 503 (codes "Bad sequence of commands")

abbrev pub response_mailbox_unavailable : Response
response_mailbox_unavailable = new_response 550 (codes "Mailbox unavailable")

abbrev pub response_transaction_failed : Response
response_transaction_failed = new_response 554 (codes "Transaction failed")
