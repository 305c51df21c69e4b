-- ===== src/Servers/Storing.antt =====
-- What the storage of a server holds after any sessions, in whatever order they store.
use icesmtp.Engine.Invariant.Sessions.{run-IsDeliverable}
use icesmtp.Engine.Invariant.{All, IsDeliverable}
use icesmtp.Engine.Loop.{run, returned}
use icesmtp.Engine.State.{Engine, new_engine}
use icesmtp.Envelope.{Envelope}
use icesmtp.Mem.Delivery.{saves, replay-saves}
use icesmtp.Mem.Storage.Replay
use icesmtp.Mem.Storage.Replay.Account.{perform_all-IsAccount}
use icesmtp.Mem.Storage.{StoredMessage, new_storage, find}
use icesmtp.Prelude.{ℕ, List, [], ◌∷◌, ◌++◌, Option, none, some, Bytes, ◌≡◌, sym, ◌∙◌}
use icesmtp.Session.Config.{SessionConfig, Surroundings}
use icesmtp.Session.Connection.{Connection, Failure}
use mathlib.Core.Path.{subst}

-- A session that was served under this configuration, from its start to its return.
pub record Served (config : SessionConfig) : Type 0 where
  pub around : Surroundings
  pub conn : Connection
  pub session_id : Bytes
  pub ip : Bytes
  pub rounds : ℕ
  pub engine : Engine
  pub why : Option Failure
  pub returns : run rounds (new_engine config around conn session_id ip) ≡ returned engine why

-- Some session of the server has stored the message.
pub record StoredBy (config : SessionConfig) (m : Envelope) : Type 0 where
  pub session : Served config
  pub before : List Envelope
  pub after : List Envelope
  pub place : session.engine.stored ≡ before ++ m ∷ after

All-middle {ℓ κ} :
    {A : Type ℓ} (P : A → Type κ) (xs ys : List A) (x : A) → All P (xs ++ x ∷ ys) → P x
All-middle P [] ys x (p, h) = p
All-middle P (z ∷ xs) ys x (_, h) = All-middle P xs ys x h

pub StoredBy-IsDeliverable :
    (config : SessionConfig) (m : Envelope) → StoredBy config m → IsDeliverable config m
StoredBy-IsDeliverable config m s =
    let t = s.session in
    All-middle (IsDeliverable config) s.before s.after m (
      subst (All (IsDeliverable config)) s.place (
        run-IsDeliverable config t.around t.conn t.session_id t.ip t.rounds t.engine t.why
          t.returns))

-- What is found in a storage that was new, after sessions have stored these messages in this order.
pub find-StoredBy :
    (config : SessionConfig) (ms : List Envelope) (now : Envelope → ℕ) (id : Bytes)
    (m : StoredMessage)
    → All (StoredBy config) ms
    → find id (Replay.perform_all (saves now ms) new_storage) ≡ some m
    → (m.envelope.id ≡ id) × (m.content ≡ m.envelope.content) × StoredBy config m.envelope
find-StoredBy config ms now id m h found =
    replay-saves (StoredBy config) now ms (λ q. none) id m h (λ k here. cc)
      (sym ((perform_all-IsAccount (saves now ms)).found id) ∙ found)
