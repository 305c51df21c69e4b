-- ===== src/Logger.antt =====
-- logger.go: the levels, the standard logger and the texts of its attributes. The time that
-- `log.Logger` puts in front of a line and the line end behind it are left out.
pub mod Numbers
use icesmtp.Prelude.{
  ◌>>=◌, length, ℕ, zero, suc, ◌+◌, ◌-◌, ◌/◌, ◌%◌, ◌^◌, Bool, true, false, List, [], ◌∷◌, ◌++◌,
  Option, none, some, Bytes, codes, leb, ltb, ◌==◌, if◌then◌else◌,
}
use icesmtp.Text.Number.{ℤ, pos, negsuc}
use mathlib.Core.Option

pub data LogLevel : Type 0 where
  debug info warn error : LogLevel

unfoldable pub spell : LogLevel → Bytes
spell debug = codes "DEBUG"
spell info = codes "INFO"
spell warn = codes "WARN"
spell error = codes "ERROR"

abbrev pub severity : LogLevel → ℕ
severity debug = 0
severity info = 1
severity warn = 2
severity error = 3

-- The loop of `intToStr`: `i` bytes of the buffer are free, and one more digit than that is a panic.
unfoldable pub digits_onto : ℕ → ℕ → Bytes → Option Bytes
digits_onto zero n out = if n == 0 then some out else none
digits_onto (suc i) n out =
    let rest = digits_onto i (n / 10) ((b'0' + n % 10) ∷ out) in if n == 0 then some out else rest

-- `var buf [20]byte`.
unfoldable pub buffer_size : ℕ
buffer_size = 20

-- The sign takes a byte of the buffer.
abbrev pub with_sign : Option Bytes → Option Bytes
with_sign none = none
with_sign (some out) = if ltb (length out) buffer_size then some (b'-' ∷ out) else none

-- `intToStr` of an int64, whose `-n` of the least number is that number again, which is no more
-- than 0.
unfoldable pub int_to_str : ℤ → Option Bytes
int_to_str (pos n) = if n == 0 then some (codes "0") else digits_onto buffer_size n []
int_to_str (negsuc n) =
    if ltb (suc n) (2 ^ 63)
    then with_sign (digits_onto buffer_size (suc n) [])
    else with_sign (some [])

-- A value of an attribute, by the types that the logger tells apart; an error is its text, and
-- `value` any other type.
pub data LogAttrValue : Type 0 where
  nil value : LogAttrValue
  text error_text : Bytes → LogAttrValue
  int : ℤ → LogAttrValue
  flag : Bool → LogAttrValue

pub record LogAttr : Type 0 where
  pub key : Bytes
  pub attr_value : LogAttrValue

unfoldable pub format_value : LogAttrValue → Option Bytes
unfolding int_to_str
format_value nil = some (codes "<nil>")
format_value value = some (codes "<value>")
format_value (text s) = some s
format_value (error_text s) = some (codes "<value>")
format_value (int n) = int_to_str n
format_value (flag true) = some (codes "true")
format_value (flag false) = some (codes "false")

-- The switch of `log`, which knows errors.
abbrev attr_text : LogAttrValue → Option Bytes
attr_text (error_text s) = some s
attr_text v = format_value v

-- The loop that builds `attrStr`.
unfoldable pub attrs_text : List LogAttr → Option Bytes
unfolding format_value
attrs_text [] = some []
attrs_text (a ∷ rest) = do
  v ← attr_text a.attr_value
  more ← attrs_text rest
  some (b' ' ∷ (a.key ++ (b'=' ∷ (v ++ more))))

-- `written` are the lines that were given to `log.Logger`.
pub record StdLogger : Type 0 where
  pub level : LogLevel
  pub attrs : List LogAttr
  pub written : List Bytes

unfoldable pub new_std_logger : LogLevel → StdLogger
new_std_logger level = record { level = level; attrs = []; written = [] }

-- `[%s] %s%s`; without attributes the text of them is empty, and the other format prints the same.
unfoldable pub log : LogLevel → Bytes → List LogAttr → StdLogger → Option StdLogger
unfolding attrs_text spell
log level msg attrs l = do
  shown ← attrs_text (l.attrs ++ attrs)
  some (record l {
    written = l.written ++ ((b'[' ∷ (spell level ++ codes "] " ++ msg)) ++ shown) ∷ [];
  })

-- `Debug`, `Info`, `Warn` and `Error`.
unfoldable pub log_at : LogLevel → Bytes → List LogAttr → StdLogger → Option StdLogger
unfolding log
log_at level msg attrs l =
    if leb (severity l.level) (severity level) then log level msg attrs l else some l

unfoldable pub with_attrs : List LogAttr → StdLogger → StdLogger
with_attrs attrs l = record l { attrs = l.attrs ++ attrs }

unfoldable pub with_session : Bytes → StdLogger → StdLogger
unfolding with_attrs
with_session id l = with_attrs (record { key = codes "session_id"; attr_value = text id } ∷ []) l

-- `WriterTranscriptLogger`: what its writer has got. The errors of the writes are dropped, and
-- `data` comes with its own line ends.
abbrev pub log_input : Bytes → Bytes → Bytes
log_input bytes written = written ++ (codes "C: " ++ bytes)

abbrev pub log_output : Bytes → Bytes → Bytes
log_output bytes written = written ++ (codes "S: " ++ bytes)

-- `Attr`.
abbrev pub attr : Bytes → LogAttrValue → LogAttr
attr key v = record { key = key; attr_value = v }
