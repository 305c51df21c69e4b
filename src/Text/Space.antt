-- ===== src/Text/Space.antt =====
-- Unicode white space in UTF-8: `strings.TrimSpace` and `strings.Fields`.
use icesmtp.Prelude.{
  ℕ, Bool, ◌&&◌, ◌||◌, List, [], ◌∷◌, ◌++◌, reverse, Bytes, leb, ◌==◌, if◌then◌else◌,
}

-- The white space of one byte: \t \n \v \f \r and the blank.
unfoldable pub is_space : ℕ → Bool
is_space c = leb 9 c && leb c 13 || c == b' '

-- U+0085 and U+00A0.
unfoldable pub is_space2 : ℕ → ℕ → Bool
is_space2 a b = a == 0xC2 && (b == 0x85 || b == 0xA0)

-- U+1680, U+2000 to U+200A, U+2028, U+2029, U+202F, U+205F and U+3000.
unfoldable pub is_space3 : ℕ → ℕ → ℕ → Bool
is_space3 a b c =
    a == 0xE1 && b == 0x9A && c == 0x80
    || a == 0xE2 && b == 0x80 && (leb 0x80 c && leb c 0x8A || c == 0xA8 || c == 0xA9 || c == 0xAF)
    || a == 0xE2 && b == 0x81 && c == 0x9F
    || a == 0xE3 && b == 0x80 && c == 0x80

-- Drops white space at the front.
unfoldable pub trim_left : Bytes → Bytes
unfolding is_space is_space2 is_space3
trim_left [] = []
trim_left (a ∷ []) = if is_space a then [] else a ∷ []
trim_left (a ∷ b ∷ []) =
    let less1 = trim_left (b ∷ []) in
    if is_space a then less1 else if is_space2 a b then [] else a ∷ b ∷ []
trim_left (a ∷ b ∷ c ∷ s) =
    let less1 = trim_left (b ∷ c ∷ s) in
    let less2 = trim_left (c ∷ s) in
    let less3 = trim_left s in
    if is_space a
    then less1
    else if is_space2 a b
    then less2
    else if is_space3 a b c
    then less3
    else a ∷ b ∷ c ∷ s

-- Drops white space at the end of a text that is given back to front.
trim_back : Bytes → Bytes
unfolding is_space is_space2 is_space3
trim_back [] = []
trim_back (a ∷ []) = if is_space a then [] else a ∷ []
trim_back (a ∷ b ∷ []) =
    let less1 = trim_back (b ∷ []) in
    if is_space a then less1 else if is_space2 b a then [] else a ∷ b ∷ []
trim_back (a ∷ b ∷ c ∷ s) =
    let less1 = trim_back (b ∷ c ∷ s) in
    let less2 = trim_back (c ∷ s) in
    let less3 = trim_back s in
    if is_space a
    then less1
    else if is_space2 b a
    then less2
    else if is_space3 c b a
    then less3
    else a ∷ b ∷ c ∷ s

unfoldable pub trim_space : Bytes → Bytes
unfolding trim_left trim_back
trim_space s = reverse (trim_back (reverse (trim_left s)))

-- A field that has been read, unless it is empty.
keep : Bytes → List Bytes → List Bytes
keep [] fields = fields
keep field fields = field ∷ fields

fields_from : Bytes → Bytes → List Bytes
unfolding is_space is_space2 is_space3 keep
fields_from field [] = keep field []
fields_from field (a ∷ []) = if is_space a then keep field [] else keep (field ++ a ∷ []) []
fields_from field (a ∷ b ∷ []) =
    let ends = keep field (fields_from [] (b ∷ [])) in
    let goes_on = fields_from (field ++ a ∷ []) (b ∷ []) in
    if is_space a then ends else if is_space2 a b then keep field [] else goes_on
fields_from field (a ∷ b ∷ c ∷ s) =
    let ends1 = keep field (fields_from [] (b ∷ c ∷ s)) in
    let ends2 = keep field (fields_from [] (c ∷ s)) in
    let ends3 = keep field (fields_from [] s) in
    let goes_on = fields_from (field ++ a ∷ []) (b ∷ c ∷ s) in
    if is_space a
    then ends1
    else if is_space2 a b
    then ends2
    else if is_space3 a b c
    then ends3
    else goes_on

unfoldable pub fields : Bytes → List Bytes
unfolding fields_from
fields = fields_from []
