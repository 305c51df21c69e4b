-- ===== src/Protocol/State.antt =====
-- state.go: the states of a session.
use icesmtp.Prelude.{Bool, true, false, ◌||◌, String}

pub data State : Type 0 where
  disconnected connected greeted identified mail_from rcpt_to : State
  receiving data_done start_tls terminating terminated aborted : State

-- `State.String`.
unfoldable pub spell : State → String
spell disconnected = "Disconnected"
spell connected = "Connected"
spell greeted = "Greeted"
spell identified = "Identified"
spell mail_from = "MailFrom"
spell rcpt_to = "RcptTo"
spell receiving = "Data"
spell data_done = "DataDone"
spell start_tls = "StartTLS"
spell terminating = "Terminating"
spell terminated = "Terminated"
spell aborted = "Aborted"

-- Go's `==` on the type.
abbrev pub same : State → State → Bool
same disconnected disconnected = true
same connected connected = true
same greeted greeted = true
same identified identified = true
same mail_from mail_from = true
same rcpt_to rcpt_to = true
same receiving receiving = true
same data_done data_done = true
same start_tls start_tls = true
same terminating terminating = true
same terminated terminated = true
same aborted aborted = true
same _ _ = false

unfoldable pub is_terminal : State → Bool
is_terminal s = same s terminated || same s aborted

unfoldable pub can_accept_commands : State → Bool
can_accept_commands greeted = true
can_accept_commands identified = true
can_accept_commands mail_from = true
can_accept_commands rcpt_to = true
can_accept_commands _ = false

unfoldable pub in_transaction : State → Bool
in_transaction s = same s mail_from || same s rcpt_to || same s receiving
