-- ===== src/Engine/Mail/Size.antt =====
-- engine.go: what the SIZE parameter of MAIL does.
use icesmtp.Engine.Mail.{declares_too_much}
use icesmtp.Engine.State.{Engine}
use icesmtp.Parser.{EsmtpParams, lookup}
use icesmtp.Prelude.{ℕ, ◌<◌, ◌^◌, true, ◌&&◌, some, codes, ltb, ◌≡◌, arith}
use icesmtp.Text.Number.Laws.{sscanf_int64-decimal}
use icesmtp.Text.Number.{decimal, bounded, exceeds}

ltb-true : {n : ℕ} → 0 < n → ltb 0 n ≡ true
ltb-true h = ground arith

bounded-exceeds : (n limit : ℕ) → exceeds (bounded n) limit ≡ ltb limit n && ltb n (2 ^ 63)
unfolding bounded
bounded-exceeds n limit = ground arith

-- With the SIZE extension and a limit in force, a size that a client declares in decimal is taken
-- for too much exactly when it is above the limit and below 2 ^ 63: a size from there on is let
-- pass.
pub declares_too_much-decimal :
    (e : Engine) (params : EsmtpParams) (n : ℕ)
    → e.config.extensions.size ≡ true
    → 0 < e.config.limits.max_message_size
    → lookup (codes "SIZE") params ≡ some (decimal n)
    → declares_too_much e params ≡ ltb e.config.limits.max_message_size n && ltb n (2 ^ 63)
unfolding declares_too_much
declares_too_much-decimal e params n on limited declared =
    rw (on, ltb-true limited, declared, sscanf_int64-decimal n)
      (bounded-exceeds n e.config.limits.max_message_size)
