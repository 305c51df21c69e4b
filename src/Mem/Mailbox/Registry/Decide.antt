-- ===== src/Mem/Mailbox/Registry/Decide.antt =====
-- The answers of a mailbox are read off its sets.
use icesmtp.Mem.Mailbox.Registry.{
  Registry, nothing, Op, accepts, perform_all, replay, Represents, new_mailbox-Represents,
  perform_all-Represents,
}
use icesmtp.Mem.Mailbox.{
  MailboxEntry, Mailbox, new_mailbox, domain_of, judge, handles, refuse, catches, status_of,
  validate_recipient, exists_address, can_receive, is_local_domain,
}
use icesmtp.Parser.{MailPath}
use icesmtp.Prelude.{
  Bool, true, false, not, ◌&&◌, ◌||◌, List, Option, none, some, Bytes, ◌≡◌, refl, sym, ap, ◌∙◌,
  arith, if◌then◌else◌, Bool-cases, inl, inr,
}
use icesmtp.Session.Config.{RecipientResult, accepted, rejected}
use icesmtp.Session.Status
use icesmtp.Session.Status.{MailboxStatus}
use icesmtp.Table.{get}
use icesmtp.Text.Case.{to_lower}

-- What a mailbox answers, for a path and for an address or a domain.
pub record Answers (wide : Bytes → Bytes) (m : Mailbox) (r : Registry) (path : MailPath)
    : Type 0 where
  pub verdict :
      (validate_recipient wide m path).status
      ≡ (if accepts r (to_lower wide path.address) then accepted else rejected)
  pub code :
      (validate_recipient wide m path).response.code
      ≡ (if accepts r (to_lower wide path.address) then 250 else 550)
  pub same_path : (validate_recipient wide m path).path ≡ path
  pub exists : exists_address wide m path.address ≡ r.known (to_lower wide path.address)
  pub receives : can_receive wide m path.address ≡ (
      if r.known (to_lower wide path.address) then (true, Status.ok) else (false, Status.not_found))
  pub is_local : is_local_domain wide m path.address ≡ r.local (to_lower wide path.address)

handles-local : (m : Mailbox) (r : Registry) (d : Bytes) → Represents m r → handles m d ≡ r.local d
unfolding get
handles-local m r d h = ground (arith, h.local d, h.marked d true, h.marked d false)

catches_lem :
    (m : Mailbox) (r : Registry) (o : Option Bytes)
    → Represents m r
    → catches m o ≡ (r.catch_all && elim o [ none ↦ false | some d ↦ r.local d ])
unfolding get
catches_lem m r none h = ground arith
catches_lem m r (some d) h = ground (arith, handles-local m r d h, h.catch_all)

-- A verdict and its reply code.
abbrev Decides : RecipientResult → MailPath → Bool → Type 0
Decides result path good =
    (result.status ≡ (if good then accepted else rejected))
    × (result.response.code ≡ (if good then 250 else 550))
    × (result.path ≡ path)

refuse-Decides :
    (m : Mailbox) (path : MailPath) (o : Option Bytes) → Decides (refuse m path o) path false
unfolding get
refuse-Decides m path none = (refl, refl, refl)
refuse-Decides m path (some d) = elim (Bool-cases (not (handles m d))) [
  | inl foreign ↦ rw foreign (refl, refl, refl)
  | inr ours ↦ rw ours (refl, refl, refl)
]

unknown :
    (m : Mailbox) (r : Registry) (addr : Bytes)
    → Represents m r
    → get addr m.addresses ≡ none
    → r.known addr ≡ false
unfolding get
unknown m r addr h missing =
    sym (h.known addr)
    ∙ ap (λ (o : Option MailboxEntry). elim o [ none ↦ false | some _ ↦ true ]) missing

found_known :
    (m : Mailbox) (r : Registry) (addr : Bytes) (e : MailboxEntry)
    → Represents m r
    → get addr m.addresses ≡ some e
    → r.known addr ≡ true
unfolding get
found_known m r addr e h found =
    sym (h.known addr)
    ∙ ap (λ (o : Option MailboxEntry). elim o [ none ↦ false | some _ ↦ true ]) found

judge-Decides :
    (m : Mailbox) (r : Registry) (path : MailPath) (addr : Bytes) (d : Option Bytes)
    (o : Option MailboxEntry)
    → Represents m r
    → get addr m.addresses ≡ o
    → Decides
        (judge m path d o)
        path
        (r.known addr || (r.catch_all && elim d [ none ↦ false | some n ↦ r.local n ]))
unfolding get
judge-Decides m r path addr d (some e) h found =
    rw (found_known m r addr e h found, h.enabled addr e found) (refl, refl, refl)
judge-Decides m r path addr d none h missing = elim (Bool-cases (catches m d)) [
  | inl caught ↦
      rw (unknown m r addr h missing, sym (catches_lem m r d h), caught) (refl, refl, refl)
  | inr lost ↦
      rw (unknown m r addr h missing, sym (catches_lem m r d h), lost) (refuse-Decides m path d)
]

status_of_lem :
    (m : Mailbox) (r : Registry) (addr : Bytes) (o : Option MailboxEntry)
    → Represents m r
    → get addr m.addresses ≡ o
    → status_of o ≡ (if r.known addr then (true, Status.ok) else (false, Status.not_found))
unfolding get
status_of_lem m r addr (some e) h found =
    rw (found_known m r addr e h found, h.enabled addr e found) refl
status_of_lem m r addr none h missing = rw (unknown m r addr h missing) refl

Represents-Answers :
    (wide : Bytes → Bytes) (m : Mailbox) (r : Registry) (path : MailPath)
    → Represents m r
    → Answers wide m r path
unfolding validate_recipient exists_address can_receive is_local_domain
Represents-Answers wide m r path h =
    let addr = to_lower wide path.address in
    let (verdict, code, same_path) =
      judge-Decides m r path addr (domain_of addr) (get addr m.addresses) h refl in
    record {
      verdict = verdict;
      code = code;
      same_path = same_path;
      exists = h.known addr;
      receives = status_of_lem m r addr (get addr m.addresses) h refl;
      is_local = h.local addr;
    }

-- A mailbox that any calls have made of a new one stands for the sets that the same calls make of
-- empty ones: a recipient is accepted, with 250, exactly when its address in lower case is known
-- or, with the catch-all on, its domain is local, and is else rejected with 550; `Exists`,
-- `CanReceive` and `IsLocalDomain` say what the sets say, and no mailbox is ever disabled.
pub perform_all-Answers :
    (wide : Bytes → Bytes) (os : List Op) (path : MailPath)
    → Answers wide (perform_all wide os new_mailbox) (replay wide os nothing) path
perform_all-Answers wide os path =
    Represents-Answers wide (perform_all wide os new_mailbox) (replay wide os nothing) path
      (perform_all-Represents wide os new_mailbox nothing new_mailbox-Represents)
