-- ===== src/Parser/Dots/Laws.antt =====
-- Dot-stuffing: which lines end a message, and that a stuffed line is read back.
use icesmtp.Parser.Dots.{is_dot, is_terminator, unstuff_line, stuff_line}
use icesmtp.Parser.Line.{trim_eol}
use icesmtp.Prelude.{
  true, false, [], ◌∷◌, ◌++◌, Bytes, codes, ◌≡◌, refl, sym, ap, ◌∙◌, ◌⊎◌, inl, inr, ◌↔◌, arith,
  Bool-cases,
}
use icesmtp.Text.Search.Laws.{trim_suffix_cases}
use icesmtp.Text.Search.{trim_suffix}

-- The lines that `IsTerminator` accepts.
abbrev pub EndsMessage : Bytes → Type 0
EndsMessage l =
    (l ≡ codes ".") ⊎ ((l ≡ codes ".\n") ⊎ ((l ≡ codes ".\r\n") ⊎ (l ≡ codes ".\n\r\n")))

is_dot-eq : (s : Bytes) → is_dot s ≡ true → s ≡ codes "."
is_dot-eq [] h = cc
is_dot-eq (c ∷ []) h = ground arith
is_dot-eq (c ∷ d ∷ s) h = cc

trim_eol-EndsMessage : (l : Bytes) → trim_eol l ≡ codes "." → EndsMessage l
unfolding trim_eol
trim_eol-EndsMessage l h = elim (trim_suffix_cases l (codes "\r\n")) [
  | inl whole ↦ elim (trim_suffix_cases (trim_suffix l (codes "\r\n")) (codes "\n")) [
    | inl same ↦ inl (sym whole ∙ sym same ∙ h)
    | inr cut ↦ inr (inl (sym whole ∙ cut ∙ ap (◌++ codes "\n") h))
  ]
  | inr short ↦ elim (trim_suffix_cases (trim_suffix l (codes "\r\n")) (codes "\n")) [
    | inl same ↦ inr (inr (inl (short ∙ ap (◌++ codes "\r\n") (sym same ∙ h))))
    | inr cut ↦ inr (inr (inr (short ∙ ap (◌++ codes "\r\n") (cut ∙ ap (◌++ codes "\n") h))))
  ]
]

EndsMessage-is_terminator : (l : Bytes) → EndsMessage l → is_terminator l ≡ true
unfolding is_terminator
EndsMessage-is_terminator l (inl e) = ap is_terminator e
EndsMessage-is_terminator l (inr (inl e)) = ap is_terminator e
EndsMessage-is_terminator l (inr (inr (inl e))) = ap is_terminator e
EndsMessage-is_terminator l (inr (inr (inr e))) = ap is_terminator e

-- A line ends the message exactly when it is a dot alone, or a dot with LF, with CRLF, or with LF
-- and CRLF behind it. So the dot need not stand before CRLF.
pub is_terminator_iff : (l : Bytes) → (is_terminator l ≡ true) ↔ EndsMessage l
unfolding is_terminator
is_terminator_iff l =
    (λ h. trim_eol-EndsMessage l (is_dot-eq (trim_eol l) h), EndsMessage-is_terminator l)

not-EndsMessage-stuff_line : (l : Bytes) → EndsMessage (stuff_line l) → ⊥
unfolding stuff_line
not-EndsMessage-stuff_line l h = ground arith

-- A line that a client has stuffed never ends the message.
pub is_terminator-stuff_line : (l : Bytes) → is_terminator (stuff_line l) ≡ false
is_terminator-stuff_line l = elim (Bool-cases (is_terminator (stuff_line l))) [
  | inr f ↦ f
  | inl t ↦ absurd (not-EndsMessage-stuff_line l ((is_terminator_iff (stuff_line l)).0 t))
]

-- The server takes off the dot that a client put on, and no other.
pub unstuff_line-stuff_line : (l : Bytes) → unstuff_line (stuff_line l) ≡ l
unfolding unstuff_line stuff_line
unstuff_line-stuff_line [] = refl
unstuff_line-stuff_line (c ∷ l) = ground arith
