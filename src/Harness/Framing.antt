-- ===== src/Harness/Framing.antt =====
-- The lines of a response, as reply.go prints them: each has one line end, and the last alone ends
-- the response for the harness.
use icesmtp.Harness.Client.{last_line, ends_response}
use icesmtp.Harness.Replies.{IsInside, is_inside, IsLine, IsResponse}
use icesmtp.Prelude.{
  joined, ℕ, ◌≤◌, ◌<◌, Bool, true, false, List, [], ◌∷◌, ◌++◌, Option, none, some, Bytes, codes,
  all, ◌≡◌, refl, sym, ap, ◌∙◌, arith, Option-cases, inl, inr,
}
use icesmtp.Protocol.Reply.{
  Response, EnhancedStatusCode, spell_enhanced, spell_line, spell_lines, spell_bare, spell_response,
}
use icesmtp.Text.Number.Digits.{all-append, all-is_digit-decimal, decimal_three}
use icesmtp.Text.Number.{decimal, is_digit}
use icesmtp.Text.Search.{index_byte}
use mathlib.Core.List.{append_assoc, append-nil}

-- The lines of a response as they are printed, one by one.
abbrev framed_lines : Response → List Bytes → List Bytes
framed_lines r [] = []
framed_lines r (line ∷ []) = spell_line r b' ' line ∷ []
framed_lines r (line ∷ next ∷ rest) = spell_line r b'-' line ∷ framed_lines r (next ∷ rest)

abbrev pub framed_all : Response → List Bytes → List Bytes
framed_all r [] = spell_bare r ∷ []
framed_all r (line ∷ rest) = framed_lines r (line ∷ rest)

abbrev pub framed : Response → List Bytes
framed r = framed_all r r.lines

joined-framed_lines :
    (r : Response) (line : Bytes) (rest : List Bytes)
    → joined (framed_lines r (line ∷ rest)) ≡ spell_lines r (line ∷ rest)
unfolding spell_lines
joined-framed_lines r line [] = append-nil (spell_line r b' ' line)
joined-framed_lines r line (next ∷ rest) =
    ap (spell_line r b'-' line ++◌) (joined-framed_lines r next rest)

pub joined-framed_all :
    (r : Response) (ls : List Bytes) → joined (framed_all r ls) ≡ spell_response r ls
joined-framed_all r [] = append-nil (spell_bare r)
joined-framed_all r (line ∷ rest) = joined-framed_lines r line rest

-- What stands behind the code and the separator.
abbrev text_of : Option EnhancedStatusCode → Bytes → Bytes
text_of none line = line ++ codes "\r\n"
text_of (some e) line = spell_enhanced e ++ (b' ' ∷ (line ++ codes "\r\n"))

spell_line_lem :
    (r : Response) (separator : ℕ) (line : Bytes)
    → spell_line r separator line ≡ decimal r.code ++ (separator ∷ text_of r.enhanced_code line)
unfolding spell_line
spell_line_lem r separator line = elim (Option-cases r.enhanced_code) [
  | inl h ↦ rw h
  | inr (e, h) ↦ rw h
]

all-map :
    (p q : ℕ → Bool)
    → ((c : ℕ) → p c ≡ true → q c ≡ true)
    → (s : Bytes) → all p s ≡ true
    → all q s ≡ true
all-map p q f [] h = refl
all-map p q f (c ∷ s) h = ground (arith, f c, all-map p q f s)

pub IsInside-decimal : (n : ℕ) → IsInside (decimal n)
unfolding is_digit
IsInside-decimal n =
    all-map is_digit is_inside (λ c h. ground arith) (decimal n) (all-is_digit-decimal n)

pub IsLine-crlf : (s : Bytes) → IsInside s → IsLine (s ++ codes "\r\n")
IsLine-crlf s h = (
  s ++ b'\r' ∷ [],
  all-append is_inside s (b'\r' ∷ []) h refl,
  sym (append_assoc s (b'\r' ∷ []) (b'\n' ∷ [])),
)

pub IsLine-append : (s l : Bytes) → IsInside s → IsLine l → IsLine (s ++ l)
IsLine-append s l h (t, g, is) =
    (s ++ t, all-append is_inside s t h g, ap (s ++◌) is ∙ sym (append_assoc s t (b'\n' ∷ [])))

pub IsLine-cons : (c : ℕ) (l : Bytes) → is_inside c ≡ true → IsLine l → IsLine (c ∷ l)
IsLine-cons c l h g = IsLine-append (c ∷ []) l (ground arith) g

IsInside-spell_enhanced : (e : EnhancedStatusCode) → IsInside (spell_enhanced e)
unfolding spell_enhanced
IsInside-spell_enhanced e = all-append is_inside (decimal e.class) _ (IsInside-decimal e.class) (
    all-append is_inside (decimal e.subject) _ (IsInside-decimal e.subject)
      (IsInside-decimal e.detail))

IsLine-text_of :
    (o : Option EnhancedStatusCode) (line : Bytes) → IsInside line → IsLine (text_of o line)
IsLine-text_of none line h = IsLine-crlf line h
IsLine-text_of (some e) line h =
    IsLine-append (spell_enhanced e) _ (IsInside-spell_enhanced e)
      (IsLine-cons b' ' _ refl (IsLine-crlf line h))

IsLine-spell_line :
    (r : Response) (separator : ℕ) (line : Bytes)
    → is_inside separator ≡ true
    → IsInside line
    → IsLine (spell_line r separator line)
IsLine-spell_line r separator line h g = rw (spell_line_lem r separator line) (
    IsLine-append (decimal r.code) _ (IsInside-decimal r.code)
      (IsLine-cons separator _ h (IsLine-text_of r.enhanced_code line g)))

IsLine-spell_bare : (r : Response) → IsLine (spell_bare r)
unfolding spell_bare
IsLine-spell_bare r = elim (Option-cases r.enhanced_code) [
  | inl h ↦ rw h (IsLine-crlf (decimal r.code) (IsInside-decimal r.code))
  | inr (e, h) ↦ rw h (
      IsLine-append (decimal r.code) _ (IsInside-decimal r.code)
        (IsLine-cons b' ' _ refl (IsLine-crlf (spell_enhanced e) (IsInside-spell_enhanced e))))
]

-- Three digits and a blank end a response; three digits and a hyphen do not.
ends_response-digits :
    (n : ℕ) (s : Bytes) → 100 ≤ n → n < 1000 → ends_response (decimal n ++ (b' ' ∷ s)) ≡ true
unfolding ends_response
ends_response-digits n s low high = rw (decimal_three n low high)

ends_response-hyphen :
    (n : ℕ) (s : Bytes) → 100 ≤ n → n < 1000 → ends_response (decimal n ++ (b'-' ∷ s)) ≡ false
unfolding ends_response index_byte
ends_response-hyphen n s low high = rw (decimal_three n low high) (ground arith)

ends_response-spell_bare :
    (r : Response) → 100 ≤ r.code → r.code < 1000 → ends_response (spell_bare r) ≡ true
unfolding spell_bare ends_response index_byte
ends_response-spell_bare r low high = elim (Option-cases r.enhanced_code) [
  | inl h ↦ rw (h, decimal_three r.code low high) (ground arith)
  | inr (e, h) ↦ rw (h, decimal_three r.code low high)
]

-- The texts of the lines have no line end in them.
abbrev pub AllInside : List Bytes → Type 0
AllInside [] = Unit
AllInside (l ∷ ls) = IsInside l × AllInside ls

framed_lines-IsResponse :
    (r : Response) (line : Bytes) (rest : List Bytes)
    → 100 ≤ r.code
    → r.code < 1000
    → AllInside (line ∷ rest)
    → IsResponse (framed_lines r (line ∷ rest))
framed_lines-IsResponse r line [] low high (h, _) = (
  IsLine-spell_line r b' ' line refl h,
  ap ends_response (spell_line_lem r b' ' line) ∙ ends_response-digits r.code _ low high,
)
framed_lines-IsResponse r line (next ∷ []) low high (h, g) = (
  IsLine-spell_line r b'-' line refl h,
  ap ends_response (spell_line_lem r b'-' line) ∙ ends_response-hyphen r.code _ low high,
  framed_lines-IsResponse r next [] low high g,
)
framed_lines-IsResponse r line (next ∷ third ∷ rest) low high (h, g) = (
  IsLine-spell_line r b'-' line refl h,
  ap ends_response (spell_line_lem r b'-' line) ∙ ends_response-hyphen r.code _ low high,
  framed_lines-IsResponse r next (third ∷ rest) low high g,
)

pub framed_all-IsResponse :
    (r : Response) (ls : List Bytes)
    → 100 ≤ r.code
    → r.code < 1000
    → AllInside ls
    → IsResponse (framed_all r ls)
framed_all-IsResponse r [] low high h = (IsLine-spell_bare r, ends_response-spell_bare r low high)
framed_all-IsResponse r (line ∷ rest) low high h = framed_lines-IsResponse r line rest low high h

-- The last line starts with the code.
last_line-framed_lines :
    (r : Response) (line : Bytes) (rest : List Bytes)
    → (t : Bytes) × (last_line (framed_lines r (line ∷ rest)) ≡ some (decimal r.code ++ t))
last_line-framed_lines r line [] =
    (b' ' ∷ text_of r.enhanced_code line, ap some (spell_line_lem r b' ' line))
last_line-framed_lines r line (next ∷ []) = last_line-framed_lines r next []
last_line-framed_lines r line (next ∷ third ∷ rest) = last_line-framed_lines r next (third ∷ rest)

pub last_line-framed_all :
    (r : Response) (ls : List Bytes)
    → (t : Bytes) × (last_line (framed_all r ls) ≡ some (decimal r.code ++ t))
unfolding spell_bare
last_line-framed_all r [] = elim (Option-cases r.enhanced_code) [
  | inl h ↦ (codes "\r\n", rw h)
  | inr (e, h) ↦ (b' ' ∷ (spell_enhanced e ++ codes "\r\n"), rw h)
]
last_line-framed_all r (line ∷ rest) = last_line-framed_lines r line rest
