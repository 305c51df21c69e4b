-- ===== src/Custom.antt =====
-- examples/custom_policy/main.go: a mailbox with aliases, and a sender policy that blocks domains.
pub mod Blocked
use icesmtp.Mem.Mailbox.{domain_of}
use icesmtp.Parser.{MailPath}
use icesmtp.Prelude.{
  Bool, true, false, not, List, [], ◌∷◌, ◌++◌, Option, none, some, Bytes, codes, if◌then◌else◌,
}
use icesmtp.Protocol.Reply.{new_response, response_ok}
use icesmtp.Session.Config.{
  RecipientResult, SenderResult, accepted, rejected, sender_result_accepted, sender_result_rejected,
}
use icesmtp.Table.{Table, get}
use icesmtp.Text.Case.{to_lower}
use icesmtp.Text.Search.{has_suffix}

pub record AliasedMailbox : Type 0 where
  pub addresses : Table Bool
  pub aliases : Table Bytes
  pub domains : Table Bool

pub record RestrictedSenderPolicy : Type 0 where
  pub blocked_domains : List Bytes

-- `m[k]` of a map to bool.
abbrev pub is_set : Bytes → Table Bool → Bool
is_set k m = elim (get k m) [ none ↦ false | some b ↦ b ]

abbrev accept : MailPath → RecipientResult
accept path = record { path = path; status = accepted; response = response_ok }

abbrev reject : MailPath → Bytes → RecipientResult
reject path text = record { path = path; status = rejected; response = new_response 550 text }

-- The last two refusals.
abbrev pub refuse : AliasedMailbox → MailPath → Option Bytes → RecipientResult
refuse m path none = reject path (codes "No such user")
refuse m path (some domain) =
    if not (is_set domain m.domains)
    then reject path (codes "Domain not handled")
    else reject path (codes "No such user")

abbrev pub resolve : AliasedMailbox → MailPath → Option Bytes → Option Bytes → RecipientResult
resolve m path domain (some target) = accept path
resolve m path domain none = refuse m path domain

-- The loop over the blocked domains, whose names are not put in lower case.
unfoldable pub check_domains : List Bytes → Bytes → SenderResult
unfolding has_suffix
check_domains [] addr = sender_result_accepted
check_domains (blocked ∷ rest) addr =
    let later = check_domains rest addr in
    if has_suffix addr (codes "@" ++ blocked)
    then sender_result_rejected
        (new_response 550 (codes "Sender domain " ++ (blocked ++ codes " is blocked")))
    else later

module _ (wide : Bytes → Bytes) where
  -- `AliasedMailbox.ValidateRecipient`; its line in the log is left out.
  unfoldable pub validate_aliased : AliasedMailbox → MailPath → RecipientResult
  unfolding get domain_of
  validate_aliased m path =
      let addr = to_lower wide path.address in
      if is_set addr m.addresses
      then accept path
      else resolve m path (domain_of addr) (get addr m.aliases)

  unfoldable pub validate_sender : RestrictedSenderPolicy → MailPath → SenderResult
  unfolding check_domains
  validate_sender p sender =
      if sender.is_null
      then sender_result_accepted
      else check_domains p.blocked_domains (to_lower wide sender.address)
