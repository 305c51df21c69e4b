-- ===== src/Mem/Delivery.antt =====
-- A server whose mailbox and storage are those of mem/, as the example servers set it up: what a
-- session leaves in the storage.
use icesmtp.Engine.Invariant.Sessions.{run-IsDeliverable}
use icesmtp.Engine.Invariant.{All, All-map, IsDeliverable, IsWelcome, AllWelcome}
use icesmtp.Engine.Loop.{run, returned}
use icesmtp.Engine.State.{Engine, new_engine}
use icesmtp.Envelope.{Envelope}
use icesmtp.Mem.Mailbox.Registry
use icesmtp.Mem.Mailbox.Registry.Decide.{perform_all-Answers}
use icesmtp.Mem.Mailbox.Registry.{accepts, nothing}
use icesmtp.Mem.Mailbox.{Mailbox, new_mailbox, validate_recipient}
use icesmtp.Mem.Storage.Replay
use icesmtp.Mem.Storage.Replay.Account.{perform_all-IsAccount}
use icesmtp.Mem.Storage.Replay.{Op, save, message}
use icesmtp.Mem.Storage.{StoredMessage, new_storage, find}
use icesmtp.Parser.{MailPath}
use icesmtp.Prelude.{
  ℕ, Bool, true, false, List, [], ◌∷◌, Option, none, some, Bytes, equal, equal_iff, ◌≡◌, refl, sym,
  ap, ◌∙◌, arith, if◌then◌else◌, Bool-cases, inl, inr,
}
use icesmtp.Session.Config.{
  SessionConfig, SessionInfo, Surroundings, RecipientResult, RecipientStatus, accepted, rejected,
}
use icesmtp.Session.Connection.{Connection, Failure}
use icesmtp.Text.Case.{to_lower}
use mathlib.Core.Option.{some-injective}
use mathlib.Core.Path.{subst}

-- The mailbox that these calls have made of a new one.
abbrev pub registered : (Bytes → Bytes) → List Registry.Op → Mailbox
registered wide os = Registry.perform_all wide os new_mailbox

-- `config.Mailbox` is a mem.Mailbox, which other code may change between two commands: these are
-- the calls on it before the n-th.
abbrev pub mem_mailbox :
    (Bytes → Bytes) → (ℕ → List Registry.Op) → ℕ → MailPath → SessionInfo → RecipientResult
mem_mailbox wide os n path session = validate_recipient wide (registered wide (os n)) path

-- The stores of a session, one for each message that the engine gave to the storage.
abbrev pub saves : (Envelope → ℕ) → List Envelope → List Op
saves now [] = []
saves now (m ∷ ms) = save (now m) 0 m ∷ saves now ms

-- At some command the address was known, or its domain was local with the catch-all on.
pub record IsLocal (wide : Bytes → Bytes) (os : ℕ → List Registry.Op) (path : MailPath)
    : Type 0 where
  pub command : ℕ
  pub known :
      accepts (Registry.replay wide (os command) nothing) (to_lower wide path.address) ≡ true

pub record IsKept (config : SessionConfig) (wide : Bytes → Bytes) (os : ℕ → List Registry.Op)
    (id : Bytes) (m : StoredMessage) : Type 0 where
  pub same_id : m.envelope.id ≡ id
  pub whole : m.content ≡ m.envelope.content
  pub deliverable : IsDeliverable config m.envelope
  pub no_relay : All (IsLocal wide os) m.envelope.recipients

verdict-true :
    (b : Bool) (s : RecipientStatus)
    → s ≡ (if b then accepted else rejected)
    → s ≡ accepted
    → b ≡ true
verdict-true true s h g = refl
verdict-true false s h g = ground arith

IsWelcome-IsLocal :
    (config : SessionConfig) (wide : Bytes → Bytes) (os : ℕ → List Registry.Op) (path : MailPath)
    → config.mailbox ≡ mem_mailbox wide os
    → IsWelcome config path
    → IsLocal wide os path
IsWelcome-IsLocal config wide os path is_mem h = record {
  command = h.command;
  known =
      let a = perform_all-Answers wide (os h.command) path in
      verdict-true _ _ a.verdict (
        ap
          (λ (f : ℕ → MailPath → SessionInfo → RecipientResult).
            (f h.command path h.session).status)
          (sym is_mem)
        ∙ h.says);
}

AllWelcome-IsLocal :
    (config : SessionConfig) (wide : Bytes → Bytes) (os : ℕ → List Registry.Op)
    (paths : List MailPath)
    → config.mailbox ≡ mem_mailbox wide os
    → AllWelcome config paths
    → All (IsLocal wide os) paths
unfolding AllWelcome
AllWelcome-IsLocal config wide os paths is_mem h =
    All-map (λ path. IsWelcome-IsLocal config wide os path is_mem) paths h

-- What is found after the stores has a property that all their messages have.
pub replay-saves :
    (P : Envelope → Type 0) (now : Envelope → ℕ) (ms : List Envelope)
    (f : Bytes → Option StoredMessage) (id : Bytes) (m : StoredMessage)
    → All P ms
    → ((k : StoredMessage)
        → f id ≡ some k
        → (k.envelope.id ≡ id) × (k.content ≡ k.envelope.content) × P k.envelope)
    → Replay.replay (saves now ms) f id ≡ some m
    → (m.envelope.id ≡ id) × (m.content ≡ m.envelope.content) × P m.envelope
replay-saves P now [] f id m all h found = h m found
replay-saves P now (e ∷ ms) f id m (p, all) h found =
    replay-saves P now ms (Replay.change (save (now e) 0 e) f) id m all
      (λ k here. elim (Bool-cases (equal e.id id)) [
        | inl same ↦
            subst
              (λ (x : StoredMessage).
                (x.envelope.id ≡ id) × (x.content ≡ x.envelope.content) × P x.envelope)
              (some-injective (message (now e) e e.content) k (rw same at here))
              ((equal_iff e.id id).0 same, refl, p)
        | inr other ↦ h k (rw other at here)
      ])
      found

-- When a session from its start returns, with a mem.Mailbox that other code may change meanwhile,
-- and each message that it stored was put into a new mem.Storage: what `Get` finds there under an
-- identifier is a message with that identifier and with the data of its envelope, inside the limits
-- of the session and under its TLS policy, of which each recipient had, at some command, a known
-- address or, with the catch-all on, a local domain. So the server is no open relay.
pub find-IsKept :
    (config : SessionConfig) (wide : Bytes → Bytes) (os : ℕ → List Registry.Op)
    (around : Surroundings) (conn : Connection) (client ip : Bytes) (rounds : ℕ) (e : Engine)
    (why : Option Failure) (now : Envelope → ℕ) (id : Bytes) (m : StoredMessage)
    → config.mailbox ≡ mem_mailbox wide os
    → run rounds (new_engine config around conn client ip) ≡ returned e why
    → find id (Replay.perform_all (saves now e.stored) new_storage) ≡ some m
    → IsKept config wide os id m
find-IsKept config wide os around conn client ip rounds e why now id m is_mem returns found =
    let all = run-IsDeliverable config around conn client ip rounds e why returns in
    let (same_id, whole, deliverable) =
      replay-saves (IsDeliverable config) now e.stored (λ q. none) id m all (λ k here. cc)
        (sym ((perform_all-IsAccount (saves now e.stored)).found id) ∙ found) in
    record {
      same_id = same_id;
      whole = whole;
      deliverable = deliverable;
      no_relay = AllWelcome-IsLocal config wide os m.envelope.recipients is_mem deliverable.welcome;
    }
