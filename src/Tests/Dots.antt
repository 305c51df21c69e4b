-- ===== src/Tests/Dots.antt =====
-- The theorems on dot-stuffing, at concrete inputs.
use icesmtp.Parser.Dots.Laws.{EndsMessage, is_terminator_iff}
use icesmtp.Parser.{is_terminator}
use icesmtp.Prelude.{true, ◌≡◌, ◌↔◌, codes}

is_terminator_iff_example : (is_terminator (codes ".\n") ≡ true) ↔ EndsMessage (codes ".\n")
is_terminator_iff_example = is_terminator_iff (codes ".\n")
