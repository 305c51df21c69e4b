-- ===== src/Servers/Sending.antt =====
-- Whom the custom server accepts mail from, and for.
use icesmtp.Custom.Blocked.{is_blocked, validate_sender-is_blocked}
use icesmtp.Custom.{AliasedMailbox, is_set, resolve, refuse, validate_aliased}
use icesmtp.Engine.Invariant.{
  All, All-map, AllWelcome, IsWelcome, IsDeliverable, SenderIsApproved, SenderIsApproved-some,
}
use icesmtp.Envelope.{Envelope}
use icesmtp.Mem.Delivery.{saves}
use icesmtp.Mem.Mailbox.{domain_of}
use icesmtp.Mem.Storage.Replay
use icesmtp.Mem.Storage.{StoredMessage, new_storage, find}
use icesmtp.Parser.{MailPath}
use icesmtp.Prelude.{
  ℕ, Bool, true, not, ◌||◌, List, [], ◌∷◌, Option, none, some, Bytes, codes, ◌≡◌, refl, sym, ap,
  ◌∙◌, arith, Bool-cases, Option-cases, inl, inr,
}
use icesmtp.Servers.Recipients.{is_one_of, all_true, rejected-ne-accepted}
use icesmtp.Servers.Storing.{StoredBy, find-StoredBy, StoredBy-IsDeliverable}
use icesmtp.Servers.{custom_config, custom_mailbox, custom_policy}
use icesmtp.Session.Config.{accepted, rejected}
use icesmtp.Table.{Table, get, keys, has}
use icesmtp.Text.Case.{to_lower}

abbrev pub mailboxes : List Bytes
mailboxes = codes "admin@example.com" ∷ codes "support@example.com" ∷ codes "user@example.com" ∷ []

abbrev pub aliases : List Bytes
aliases =
    codes "postmaster@example.com" ∷ codes "webmaster@example.com" ∷ codes "help@example.com" ∷ []

is_set-all_true : (ds : List Bytes) (k : Bytes) → is_set k (all_true ds) ≡ is_one_of ds (some k)
unfolding get
is_set-all_true [] k = refl
is_set-all_true (d ∷ ds) k = ground (arith, is_set-all_true ds k)

has-keys {ℓ} : {A : Type ℓ} (t : Table A) (k : Bytes) → has k t ≡ is_one_of (keys t) (some k)
unfolding get keys
has-keys [] k = refl
has-keys ((j, v) ∷ t) k = ground (arith, has-keys t k)

refuse-rejected :
    (m : AliasedMailbox) (path : MailPath) (o : Option Bytes) → (refuse m path o).status ≡ rejected
unfolding get
refuse-rejected m path none = refl
refuse-rejected m path (some d) = ground arith

resolve_lem :
    (m : AliasedMailbox) (path : MailPath) (o : Option Bytes) (k : Bytes)
    → (resolve m path o (get k m.aliases)).status ≡ accepted
    → has k m.aliases ≡ true
unfolding get
resolve_lem m path o k h = elim (Option-cases (get k m.aliases)) [
  | inl missing ↦ absurd (rejected-ne-accepted (sym (refuse-rejected m path o) ∙ (rw missing at h)))
  | inr (target, found) ↦ rw (found, has)
]

validate_aliased_lem :
    (wide : Bytes → Bytes) (m : AliasedMailbox) (path : MailPath)
    → (validate_aliased wide m path).status ≡ accepted
    → (is_set (to_lower wide path.address) m.addresses
        || has (to_lower wide path.address) m.aliases)
      ≡ true
unfolding validate_aliased
validate_aliased_lem wide m path h =
    let k = to_lower wide path.address in
    elim (Bool-cases (is_set k m.addresses)) [
      | inl direct ↦ rw direct
      | inr other ↦
          rw other (resolve_lem m path (domain_of k) k (rw (other, validate_aliased) at h))
    ]

module _ (wide : Bytes → Bytes) where
  -- The address, in lower case, is a mailbox or an alias of the server.
  abbrev pub IsKnown : MailPath → Type 0
  IsKnown path =
      let k = some (to_lower wide path.address) in
      (is_one_of mailboxes k || is_one_of aliases k) ≡ true

  -- The null path, or an address whose domain, in lower case, is not blocked.
  abbrev pub IsWanted : MailPath → Type 0
  IsWanted path =
      (path.is_null
        || not (is_blocked custom_policy.blocked_domains (domain_of (to_lower wide path.address))))
      ≡ true

  IsWelcome-IsKnown : (path : MailPath) → IsWelcome (custom_config wide) path → IsKnown path
  unfolding keys
  IsWelcome-IsKnown path h =
      let k = to_lower wide path.address in
      ap (λ (b : Bool). b || is_one_of aliases (some k)) (sym (is_set-all_true mailboxes k))
      ∙ ap (λ (b : Bool). is_set k custom_mailbox.addresses || b)
          (sym (has-keys custom_mailbox.aliases k))
      ∙ validate_aliased_lem wide custom_mailbox path h.says

  AllWelcome-IsKnown :
      (paths : List MailPath) → AllWelcome (custom_config wide) paths → All IsKnown paths
  unfolding AllWelcome
  AllWelcome-IsKnown paths h = All-map IsWelcome-IsKnown paths h

  SenderIsApproved-IsWanted :
      (path : MailPath) → SenderIsApproved (custom_config wide) (some path) → IsWanted path
  SenderIsApproved-IsWanted path h =
      let approved = (SenderIsApproved-some (custom_config wide) path).0 h in
      sym (validate_sender-is_blocked wide custom_policy path (refl, (refl, tt))) ∙ approved.says

  -- The custom server: after any sessions, which have stored these messages in this order, a
  -- message that is found in the storage under an identifier bears it, holds the data of its
  -- envelope, was stored by some session and is deliverable under the configuration (finalized,
  -- inside the limits, with a sender and recipients that were accepted); its sender is the null
  -- path or has a domain, in lower case, that is not blocked; and each of its recipients is, in
  -- lower case, one of the mailboxes or of the aliases.
  pub find-IsKnown :
      (ms : List Envelope) (now : Envelope → ℕ) (id : Bytes) (m : StoredMessage)
      → All (StoredBy (custom_config wide)) ms
      → find id (Replay.perform_all (saves now ms) new_storage) ≡ some m
      → (m.envelope.id ≡ id)
        × (m.content ≡ m.envelope.content)
        × StoredBy (custom_config wide) m.envelope
        × IsDeliverable (custom_config wide) m.envelope
        × IsWanted m.envelope.mail_from
        × All IsKnown m.envelope.recipients
  find-IsKnown ms now id m h found =
      let (same_id, whole, stored) = find-StoredBy (custom_config wide) ms now id m h found in
      let deliverable = StoredBy-IsDeliverable (custom_config wide) m.envelope stored in
      (
        same_id,
        whole,
        stored,
        deliverable,
        SenderIsApproved-IsWanted m.envelope.mail_from deliverable.approved,
        AllWelcome-IsKnown m.envelope.recipients deliverable.welcome,
      )
