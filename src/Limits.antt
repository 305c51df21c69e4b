-- ===== src/Limits.antt =====
-- limits.go and session.go: the limits of a session, and the checks against them.
pub mod Policy
use icesmtp.Prelude.{ℕ, ◌&&◌, Option, none, some, ltb, leb, if◌then◌else◌}

-- `SessionLimits`, each limit not negative and 0 for none, without the timeouts: a timeout is
-- an event of the connection.
pub record SessionLimits : Type 0 where
  pub max_message_size : ℕ
  pub max_recipients : ℕ
  pub max_command_length : ℕ
  pub max_line_length : ℕ
  pub max_errors : ℕ
  pub max_transactions : ℕ
  pub max_auth_attempts : ℕ

abbrev pub default_session_limits : SessionLimits
default_session_limits = record {
  max_message_size = 26214400;
  max_recipients = 100;
  max_command_length = 512;
  max_line_length = 998;
  max_errors = 10;
  max_transactions = 100;
  max_auth_attempts = 3;
}

-- The errors of limits.go that the checks return.
pub data LimitError : Type 0 where
  message_too_large too_many_recipients command_too_long line_too_long : LimitError
  too_many_errors too_many_transactions : LimitError

unfoldable pub check_message_size : SessionLimits → ℕ → Option LimitError
check_message_size l size =
    if ltb 0 l.max_message_size && ltb l.max_message_size size then some message_too_large else none

unfoldable pub check_recipient_count : SessionLimits → ℕ → Option LimitError
check_recipient_count l count =
    if ltb 0 l.max_recipients && ltb l.max_recipients count then some too_many_recipients else none

unfoldable pub check_command_length : SessionLimits → ℕ → Option LimitError
check_command_length l length =
    if ltb 0 l.max_command_length && ltb l.max_command_length length
    then some command_too_long
    else none

unfoldable pub check_line_length : SessionLimits → ℕ → Option LimitError
check_line_length l length =
    if ltb 0 l.max_line_length && ltb l.max_line_length length then some line_too_long else none

unfoldable pub check_error_count : SessionLimits → ℕ → Option LimitError
check_error_count l count =
    if ltb 0 l.max_errors && leb l.max_errors count then some too_many_errors else none

unfoldable pub check_transaction_count : SessionLimits → ℕ → Option LimitError
check_transaction_count l count =
    if ltb 0 l.max_transactions && leb l.max_transactions count
    then some too_many_transactions
    else none
