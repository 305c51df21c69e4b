-- ===== src/Text/Case.antt =====
-- `strings.ToUpper` and `strings.ToLower`. A text of ASCII bytes is mapped byte by byte; what they
-- do to any other text rests on Unicode's tables, which are the parameter `wide`.
use icesmtp.Prelude.{ℕ, ◌+◌, ◌-◌, Bool, ◌&&◌, map, Bytes, all, ltb, leb, if◌then◌else◌}

unfoldable pub is_ascii : Bytes → Bool
is_ascii = all (λ c. ltb c 128)

unfoldable pub upper : ℕ → ℕ
upper c = if leb b'a' c && leb c b'z' then c - 32 else c

unfoldable pub lower : ℕ → ℕ
lower c = if leb b'A' c && leb c b'Z' then c + 32 else c

unfoldable pub to_upper : (Bytes → Bytes) → Bytes → Bytes
unfolding is_ascii upper
to_upper wide s = if is_ascii s then map upper s else wide s

unfoldable pub to_lower : (Bytes → Bytes) → Bytes → Bytes
unfolding is_ascii lower
to_lower wide s = if is_ascii s then map lower s else wide s
