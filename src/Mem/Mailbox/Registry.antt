-- ===== src/Mem/Mailbox/Registry.antt =====
-- What the registry of mem/mailbox.go promises: two sets of names and a switch. The calls that a
-- program makes on a mailbox are these changes of the sets, and the answers are read off them.
pub mod Decide
use icesmtp.Mem.Mailbox.{
  MailboxEntry, Mailbox, new_mailbox, domain_of, add_domain_of, judge, handles, refuse, catches,
  status_of, add_address, remove_address, add_domain, remove_domain, set_catch_all,
  validate_recipient, exists_address, can_receive, is_local_domain,
}
use icesmtp.Parser.{MailPath}
use icesmtp.Prelude.{
  Bool, true, false, not, ◌&&◌, ◌||◌, List, [], ◌∷◌, Option, none, some, Bytes, equal, ◌≡◌, refl,
  sym, ap, ◌∙◌, arith, if◌then◌else◌, Bool-cases, inl, inr,
}
use icesmtp.Session.Config.{RecipientResult, accepted, rejected}
use icesmtp.Session.Status
use icesmtp.Session.Status.{MailboxStatus}
use icesmtp.Table.Laws.{get-put, get-delete, update}
use icesmtp.Table.{get, has, put, delete}
use icesmtp.Text.Case.{to_lower}

pub record Registry : Type 0 where
  pub known : Bytes → Bool
  pub local : Bytes → Bool
  pub catch_all : Bool

abbrev pub nothing : Registry
nothing = record { known = λ q. false; local = λ q. false; catch_all = false }

-- The calls that change a mailbox.
pub data Op : Type 0 where
  add remove open_domain close_domain : Bytes → Op
  set : Bool → Op

abbrev pub with_domain : Option Bytes → (Bytes → Bool) → Bytes → Bool
with_domain none f = f
with_domain (some d) f = update d true f

-- An address is accepted that is known, or, with the switch on, whose domain is local.
abbrev pub accepts : Registry → Bytes → Bool
unfolding domain_of
accepts r addr =
    r.known addr || (r.catch_all && elim (domain_of addr) [ none ↦ false | some d ↦ r.local d ])

module _ (wide : Bytes → Bytes) where
  unfoldable pub perform : Op → Mailbox → Mailbox
  unfolding add_address remove_address add_domain remove_domain set_catch_all
  perform (add a) m = add_address wide a m
  perform (remove a) m = remove_address wide a m
  perform (open_domain d) m = add_domain wide d m
  perform (close_domain d) m = remove_domain wide d m
  perform (set b) m = set_catch_all b m

  unfoldable pub perform_all : List Op → Mailbox → Mailbox
  unfolding perform
  perform_all [] m = m
  perform_all (o ∷ os) m = perform_all os (perform o m)

  -- The same call, on the sets. Names are compared in lower case.
  abbrev pub change : Op → Registry → Registry
  unfolding domain_of
  change (add a) r =
      let addr = to_lower wide a in
      record r { known = update addr true r.known; local = with_domain (domain_of addr) r.local }
  change (remove a) r = record r { known = update (to_lower wide a) false r.known }
  change (open_domain d) r = record r { local = update (to_lower wide d) true r.local }
  change (close_domain d) r = record r { local = update (to_lower wide d) false r.local }
  change (set b) r = record r { catch_all = b }

  abbrev pub replay : List Op → Registry → Registry
  unfolding domain_of
  replay [] r = r
  replay (o ∷ os) r = replay os (change o r)

-- The mailbox stands for the sets, and no entry is disabled and no domain marked as not handled.
pub record Represents (m : Mailbox) (r : Registry) : Type 0 where
  pub known : (q : Bytes) → has q m.addresses ≡ r.known q
  pub local : (q : Bytes) → has q m.domains ≡ r.local q
  pub catch_all : m.catch_all ≡ r.catch_all
  pub enabled : (q : Bytes) (e : MailboxEntry) → get q m.addresses ≡ some e → e.enabled ≡ true
  pub marked : (q : Bytes) (b : Bool) → get q m.domains ≡ some b → b ≡ true

pub new_mailbox-Represents : Represents new_mailbox nothing
unfolding new_mailbox get
new_mailbox-Represents = record {
  known = λ q. refl;
  local = λ q. refl;
  catch_all = refl;
  enabled = λ q e h. cc;
  marked = λ q b h. cc;
}

module _ {ℓ} {A : Type ℓ} where
  has-put :
      (k : Bytes) (v : A) (m : List (Bytes × A)) (q : Bytes)
      → has q (put k v m) ≡ (if equal k q then true else has q m)
  unfolding get
  has-put k v m q = ground (arith, get-put k v m q)

  has-delete :
      (k : Bytes) (m : List (Bytes × A)) (q : Bytes)
      → has q (delete k m) ≡ (if equal k q then false else has q m)
  unfolding get
  has-delete k m q = ground (arith, get-delete k m q)

add_domain_of-Represents :
    (o : Option Bytes) (m : Mailbox) (r : Registry)
    → Represents m r
    → Represents (add_domain_of o m) (record r { local = with_domain o r.local })
unfolding put
add_domain_of-Represents none m r h = record {
  known = h.known;
  local = h.local;
  catch_all = h.catch_all;
  enabled = h.enabled;
  marked = h.marked;
}
add_domain_of-Represents (some d) m r h = record {
  known = h.known;
  local = λ q.
      has-put d true m.domains q ∙ ap (λ (b : Bool). if equal d q then true else b) (h.local q);
  catch_all = h.catch_all;
  enabled = h.enabled;
  marked = λ q b g. ground (arith, get-put d true m.domains q, h.marked q b);
}

add_entry-Represents :
    (addr : Bytes) (m : Mailbox) (r : Registry)
    → Represents m r
    → Represents
        (record m {
          addresses =
              put addr (record { address = addr; enabled = true; aliases = [] }) m.addresses;
        })
        (record r { known = update addr true r.known })
add_entry-Represents addr m r h =
    let e : MailboxEntry = record { address = addr; enabled = true; aliases = [] } in
    record {
      known = λ q.
          has-put addr e m.addresses q
          ∙ ap (λ (b : Bool). if equal addr q then true else b) (h.known q);
      local = h.local;
      catch_all = h.catch_all;
      enabled = λ q f g. ground (arith, get-put addr e m.addresses q, h.enabled q f);
      marked = h.marked;
    }

module _ (wide : Bytes → Bytes) where
  perform-Represents :
      (o : Op) (m : Mailbox) (r : Registry)
      → Represents m r
      → Represents (perform wide o m) (change wide o r)
  unfolding perform add_address
  perform-Represents (add a) m r h =
      let addr = to_lower wide a in
      add_domain_of-Represents (domain_of addr) _ _ (add_entry-Represents addr m r h)
  perform-Represents (remove a) m r h =
      let addr = to_lower wide a in
      record {
        known = λ q.
            has-delete addr m.addresses q
            ∙ ap (λ (b : Bool). if equal addr q then false else b) (h.known q);
        local = h.local;
        catch_all = h.catch_all;
        enabled = λ q e g. ground (arith, get-delete addr m.addresses q, h.enabled q e);
        marked = h.marked;
      }
  perform-Represents (open_domain d) m r h =
      let name = to_lower wide d in
      record {
        known = h.known;
        local = λ q.
            has-put name true m.domains q
            ∙ ap (λ (b : Bool). if equal name q then true else b) (h.local q);
        catch_all = h.catch_all;
        enabled = h.enabled;
        marked = λ q b g. ground (arith, get-put name true m.domains q, h.marked q b);
      }
  perform-Represents (close_domain d) m r h =
      let name = to_lower wide d in
      record {
        known = h.known;
        local = λ q.
            has-delete name m.domains q
            ∙ ap (λ (b : Bool). if equal name q then false else b) (h.local q);
        catch_all = h.catch_all;
        enabled = h.enabled;
        marked = λ q b g. ground (arith, get-delete name m.domains q, h.marked q b);
      }
  perform-Represents (set b) m r h = record {
    known = h.known;
    local = h.local;
    catch_all = refl;
    enabled = h.enabled;
    marked = h.marked;
  }

  pub perform_all-Represents :
      (os : List Op) (m : Mailbox) (r : Registry)
      → Represents m r
      → Represents (perform_all wide os m) (replay wide os r)
  unfolding perform_all
  perform_all-Represents [] m r h = h
  perform_all-Represents (o ∷ os) m r h =
      perform_all-Represents os (perform wide o m) (change wide o r) (perform-Represents o m r h)
