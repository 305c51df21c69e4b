-- ===== src/Servers/Recipients.antt =====
-- Which recipients the example servers with a catch-all accept mail for.
use icesmtp.Engine.Invariant.{All, All-map, AllWelcome, IsWelcome, IsDeliverable}
use icesmtp.Envelope.{Envelope}
use icesmtp.Mem.Delivery.{saves}
use icesmtp.Mem.Mailbox.{
  Mailbox, domain_of, judge, handles, validate_recipient, new_mailbox, new_mailbox_with_domains,
  add_domains, add_domain, set_catch_all,
}
use icesmtp.Mem.Storage.Replay
use icesmtp.Mem.Storage.{StoredMessage, new_storage, find}
use icesmtp.Parser.{MailPath}
use icesmtp.Prelude.{
  ℕ, Bool, true, false, ◌||◌, List, [], ◌∷◌, Option, none, some, Bytes, codes, equal, ◌≡◌, ◌≢◌,
  refl, sym, ap, ◌∙◌, arith, Bool-cases, inl, inr,
}
use icesmtp.Servers.Storing.{StoredBy, find-StoredBy, StoredBy-IsDeliverable}
use icesmtp.Servers.{local_mailbox, minimal_config, plain_config, tls_config}
use icesmtp.Session.Config.{SessionConfig, accepted, rejected}
use icesmtp.Table.{Table, get, put}
use icesmtp.Text.Case.{to_lower, is_ascii, lower}

abbrev pub is_one_of : List Bytes → Option Bytes → Bool
is_one_of [] o = false
is_one_of (b ∷ bs) none = false
is_one_of (b ∷ bs) (some d) = equal b d || is_one_of bs (some d)

abbrev pub all_true : List Bytes → Table Bool
all_true [] = []
all_true (d ∷ ds) = (d, true) ∷ all_true ds

abbrev holding : List Bytes → Mailbox
holding ds = record { addresses = []; domains = all_true ds; catch_all = true }

handles-is_one_of : (ds : List Bytes) (d : Bytes) → handles (holding ds) d ≡ is_one_of ds (some d)
unfolding get
handles-is_one_of [] d = refl
handles-is_one_of (b ∷ ds) d = ground (arith, handles-is_one_of ds d)

pub rejected-ne-accepted : rejected ≢ accepted
rejected-ne-accepted h = cc

judge_foreign :
    (m : Mailbox) (path : MailPath) (d : Bytes)
    → handles m d ≡ false
    → (judge m path (some d) none).status ≡ rejected
unfolding get
judge_foreign m path d h = ground arith

judge-is_one_of :
    (ds : List Bytes) (path : MailPath) (o : Option Bytes)
    → (judge (holding ds) path o none).status ≡ accepted
    → is_one_of ds o ≡ true
unfolding get
judge-is_one_of ds path none h = ground arith
judge-is_one_of ds path (some d) h = elim (Bool-cases (handles (holding ds) d)) [
  | inl local ↦ sym (handles-is_one_of ds d) ∙ local
  | inr foreign ↦
      let refused = judge_foreign (holding ds) path d foreign in
      absurd (rejected-ne-accepted (sym refused ∙ h))
]

minimal_mailbox :
    (wide : Bytes → Bytes)
    → local_mailbox wide (codes "example.com" ∷ []) ≡ holding (codes "example.com" ∷ [])
unfolding local_mailbox new_mailbox_with_domains add_domains add_domain new_mailbox set_catch_all
    put to_lower is_ascii lower
minimal_mailbox wide = refl

tls_mailbox :
    (wide : Bytes → Bytes)
    → local_mailbox wide (codes "localhost" ∷ codes "example.com" ∷ [])
      ≡ holding (codes "localhost" ∷ codes "example.com" ∷ [])
unfolding local_mailbox new_mailbox_with_domains add_domains add_domain new_mailbox set_catch_all
    put to_lower is_ascii lower
tls_mailbox wide = refl

-- The example servers that have a catch-all.
pub data Example : Type 0 where
  minimal plain tls : Example

abbrev pub domains_of : Example → List Bytes
domains_of minimal = codes "example.com" ∷ []
domains_of plain = codes "localhost" ∷ codes "example.com" ∷ []
domains_of tls = codes "localhost" ∷ codes "example.com" ∷ []

module _ (wide : Bytes → Bytes) where
  abbrev pub config_of : Example → SessionConfig
  config_of minimal = minimal_config wide
  config_of plain = plain_config wide
  config_of tls = tls_config wide

  abbrev pub IsAtHome : Example → MailPath → Type 0
  IsAtHome x path = is_one_of (domains_of x) (domain_of (to_lower wide path.address)) ≡ true

  validate-IsAtHome :
      (m : Mailbox) (ds : List Bytes) (path : MailPath)
      → m ≡ holding ds
      → (validate_recipient wide m path).status ≡ accepted
      → is_one_of ds (domain_of (to_lower wide path.address)) ≡ true
  unfolding validate_recipient get
  validate-IsAtHome m ds path is h =
      judge-is_one_of ds path (domain_of (to_lower wide path.address))
        (ap (λ (n : Mailbox). (validate_recipient wide n path).status) (sym is) ∙ h)

  IsWelcome-IsAtHome :
      (x : Example) (path : MailPath) → IsWelcome (config_of x) path → IsAtHome x path
  IsWelcome-IsAtHome minimal path h =
      validate-IsAtHome _ (domains_of minimal) path (minimal_mailbox wide) h.says
  IsWelcome-IsAtHome plain path h =
      validate-IsAtHome _ (domains_of plain) path (tls_mailbox wide) h.says
  IsWelcome-IsAtHome tls path h =
      validate-IsAtHome _ (domains_of tls) path (tls_mailbox wide) h.says

  AllWelcome-IsAtHome :
      (x : Example) (paths : List MailPath)
      → AllWelcome (config_of x) paths
      → All (IsAtHome x) paths
  unfolding AllWelcome
  AllWelcome-IsAtHome x paths h = All-map (IsWelcome-IsAtHome x) paths h

  -- The minimal server and the TLS server, with and without a certificate: after any sessions,
  -- which have stored these messages in this order, a message that is found in the storage under an
  -- identifier bears it, holds the data of its envelope, was stored by some session and is
  -- deliverable under the configuration (finalized, inside the limits, with recipients that were
  -- accepted), and each of its recipients is at a domain of the server, example.com or, for the TLS
  -- server, also localhost, in lower case.
  pub find-IsAtHome :
      (x : Example) (ms : List Envelope) (now : Envelope → ℕ) (id : Bytes) (m : StoredMessage)
      → All (StoredBy (config_of x)) ms
      → find id (Replay.perform_all (saves now ms) new_storage) ≡ some m
      → (m.envelope.id ≡ id)
        × (m.content ≡ m.envelope.content)
        × StoredBy (config_of x) m.envelope
        × IsDeliverable (config_of x) m.envelope
        × All (IsAtHome x) m.envelope.recipients
  find-IsAtHome x ms now id m h found =
      let (same_id, whole, stored) = find-StoredBy (config_of x) ms now id m h found in
      let deliverable = StoredBy-IsDeliverable (config_of x) m.envelope stored in
      (
        same_id,
        whole,
        stored,
        deliverable,
        AllWelcome-IsAtHome x m.envelope.recipients deliverable.welcome,
      )
