-- ===== src/Parser/Dots.antt =====
-- parser.go: the lines of a message, `DataLineReader`.
pub mod Laws
use icesmtp.Prelude.{Bool, false, [], ◌∷◌, Bytes, ◌==◌, if◌then◌else◌}
use icesmtp.Parser.Line.{trim_eol}

-- `len(line) == 1 && line[0] == '.'`.
abbrev pub is_dot : Bytes → Bool
is_dot (c ∷ []) = c == b'.'
is_dot _ = false

unfoldable pub is_terminator : Bytes → Bool
unfolding trim_eol
is_terminator line = is_dot (trim_eol line)

unfoldable pub unstuff_line : Bytes → Bytes
unstuff_line [] = []
unstuff_line (c ∷ line) = if c == b'.' then line else c ∷ line

unfoldable pub stuff_line : Bytes → Bytes
stuff_line [] = []
stuff_line (c ∷ line) = if c == b'.' then b'.' ∷ c ∷ line else c ∷ line
