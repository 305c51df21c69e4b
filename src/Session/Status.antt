-- ===== src/Session/Status.antt =====
-- mailbox.go: the status of a mailbox.
use icesmtp.Prelude.{ℕ, Bytes, codes}

pub data MailboxStatus : Type 0 where
  ok not_found disabled over_quota temporarily_unavailable : MailboxStatus

unfoldable pub spell : MailboxStatus → Bytes
spell ok = codes "OK"
spell not_found = codes "NotFound"
spell disabled = codes "Disabled"
spell over_quota = codes "OverQuota"
spell temporarily_unavailable = codes "TemporarilyUnavailable"

unfoldable pub to_reply_code : MailboxStatus → ℕ
to_reply_code ok = 250
to_reply_code not_found = 550
to_reply_code disabled = 550
to_reply_code over_quota = 552
to_reply_code temporarily_unavailable = 450
