-- ===== src/Mem/Mailbox.antt =====
-- mem/mailbox.go: the registry of addresses and domains. Every method holds the lock from its start
-- to its end, so that calls from several sessions are a sequence of calls.
pub mod Registry
use icesmtp.Parser.{MailPath}
use icesmtp.Prelude.{
  ℕ, suc, Bool, true, false, not, List, [], ◌∷◌, Option, none, some, Bytes, codes, drop, ◌+◌,
  if◌then◌else◌,
}
use icesmtp.Protocol.Reply.{Response, new_response, response_ok}
use icesmtp.Session.Config.{RecipientResult, SessionInfo, accepted, rejected}
use icesmtp.Session.Status
use icesmtp.Session.Status.{MailboxStatus}
use icesmtp.Table.{Table, get, has, put, delete, keys}
use icesmtp.Text.Case.{to_lower}
use icesmtp.Text.Search.{last_index_byte}

pub record MailboxEntry : Type 0 where
  pub address : Bytes
  pub enabled : Bool
  pub aliases : List Bytes

pub record Mailbox : Type 0 where
  pub addresses : Table MailboxEntry
  pub domains : Table Bool
  pub catch_all : Bool

unfoldable pub new_mailbox : Mailbox
new_mailbox = record { addresses = []; domains = []; catch_all = false }

-- `if idx := strings.LastIndex(addr, "@"); idx != -1 { domain := addr[idx+1:] ... }`.
unfoldable pub domain_of : Bytes → Option Bytes
domain_of addr = elim (last_index_byte b'@' addr) [
  | none ↦ none
  | some at ↦ some (drop (suc at) addr)
]

abbrev pub add_domain_of : Option Bytes → Mailbox → Mailbox
unfolding put
add_domain_of none m = m
add_domain_of (some domain) m = record m { domains = put domain true m.domains }

-- `m.domains[domain]`, which is false for a missing key.
abbrev pub handles : Mailbox → Bytes → Bool
unfolding get
handles m domain = elim (get domain m.domains) [ none ↦ false | some b ↦ b ]

abbrev reject : MailPath → Bytes → RecipientResult
reject path text = record { path = path; status = rejected; response = new_response 550 text }

abbrev accept : MailPath → RecipientResult
accept path = record { path = path; status = accepted; response = response_ok }

-- The last two refusals.
abbrev pub refuse : Mailbox → MailPath → Option Bytes → RecipientResult
unfolding get
refuse m path none = reject path (codes "No such user")
refuse m path (some domain) =
    if not (handles m domain)
    then reject path (codes "Domain not handled by this server")
    else reject path (codes "No such user")

abbrev pub catches : Mailbox → Option Bytes → Bool
unfolding get
catches m none = false
catches m (some domain) = if m.catch_all then handles m domain else false

-- From the look-up of the address on.
abbrev pub judge : Mailbox → MailPath → Option Bytes → Option MailboxEntry → RecipientResult
unfolding get
judge m path domain (some entry) =
    if not entry.enabled then reject path (codes "Mailbox disabled") else accept path
judge m path domain none = if catches m domain then accept path else refuse m path domain

-- The status for an entry that was looked up.
abbrev pub status_of : Option MailboxEntry → Bool × MailboxStatus
status_of none = (false, Status.not_found)
status_of (some entry) = if not entry.enabled then (false, Status.disabled) else (true, Status.ok)

-- `wide` is what `strings.ToLower` does beyond ASCII.
module _ (wide : Bytes → Bytes) where
  unfoldable pub add_address : Bytes → Mailbox → Mailbox
  unfolding put domain_of
  add_address address m =
      let addr = to_lower wide address in
      let entry : MailboxEntry = record { address = addr; enabled = true; aliases = [] } in
      add_domain_of (domain_of addr) (record m { addresses = put addr entry m.addresses })

  unfoldable pub add_addresses : List Bytes → Mailbox → Mailbox
  unfolding add_address
  add_addresses [] m = m
  add_addresses (address ∷ rest) m = add_addresses rest (add_address address m)

  -- The domain of the address stays.
  unfoldable pub remove_address : Bytes → Mailbox → Mailbox
  unfolding delete
  remove_address address m = record m { addresses = delete (to_lower wide address) m.addresses }

  unfoldable pub add_domain : Bytes → Mailbox → Mailbox
  unfolding put
  add_domain domain m = record m { domains = put (to_lower wide domain) true m.domains }

  unfoldable pub remove_domain : Bytes → Mailbox → Mailbox
  unfolding delete
  remove_domain domain m = record m { domains = delete (to_lower wide domain) m.domains }

  unfoldable pub add_domains : List Bytes → Mailbox → Mailbox
  unfolding add_domain
  add_domains [] m = m
  add_domains (d ∷ ds) m = add_domains ds (add_domain d m)

  unfoldable pub new_mailbox_with_domains : List Bytes → Mailbox
  unfolding add_domains new_mailbox
  new_mailbox_with_domains domains = add_domains domains new_mailbox

  unfoldable pub validate_recipient : Mailbox → MailPath → RecipientResult
  unfolding get domain_of
  validate_recipient m path =
      let addr = to_lower wide path.address in judge m path (domain_of addr) (get addr m.addresses)

  unfoldable pub exists_address : Mailbox → Bytes → Bool
  unfolding get
  exists_address m address = has (to_lower wide address) m.addresses

  unfoldable pub can_receive : Mailbox → Bytes → Bool × MailboxStatus
  unfolding get
  can_receive m address = status_of (get (to_lower wide address) m.addresses)

  unfoldable pub is_local_domain : Mailbox → Bytes → Bool
  unfolding get
  is_local_domain m domain = has (to_lower wide domain) m.domains

  -- `RelayAllowed`.
  unfoldable pub relay_allowed : Mailbox → Bytes → SessionInfo → Bool
  unfolding is_local_domain
  relay_allowed m domain session = if session.authenticated then true else is_local_domain m domain

unfoldable pub set_catch_all : Bool → Mailbox → Mailbox
set_catch_all enabled m = record m { catch_all = enabled }

unfoldable pub list_addresses : Mailbox → List Bytes
unfolding keys
list_addresses m = keys m.addresses

-- `ListDomains`, and `AcceptedDomains` of the policy.
unfoldable pub list_domains : Mailbox → List Bytes
unfolding keys
list_domains m = keys m.domains
