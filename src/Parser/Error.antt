-- ===== src/Parser/Error.antt =====
-- parser.go: the errors of the parser.
use icesmtp.Prelude.{Bytes}

-- The error variables of the file, and `ErrCommandTooLong` of limits.go.
pub data ParserError : Type 0 where
  empty_command invalid_command missing_argument unexpected_argument : ParserError
  invalid_path invalid_address missing_colon invalid_syntax command_too_long : ParserError

-- `ParseError`; no code sets its `Position`.
pub record ParseError : Type 0 where
  pub err : ParserError
  pub context : Bytes
  pub input : Bytes

-- The pair of a result and an `error`, of which one is nil.
pub data Parsed {ℓ} (A : Type ℓ) : Type ℓ where
  ok : A → Parsed A
  err : ParseError → Parsed A

infixl 5 ◌>>=◌ ◌>>◌
abbrev pub ◌>>=◌ {ℓ κ} : {A : Type ℓ} {B : Type κ} → Parsed A → (A → Parsed B) → Parsed B
ok a >>= f = f a
err e >>= f = err e

abbrev pub ◌>>◌ {ℓ} : {B : Type ℓ} → Parsed (Unit {0}) → Parsed B → Parsed B
m >> k = m >>= λ _. k
