-- ===== src/Engine/Invariant.antt =====
-- engine.go: what holds of the engine before each round of its main loop.
pub mod Handlers
pub mod Transactions
pub mod Message
pub mod Rounds
pub mod Sessions
use icesmtp.Engine.State.{Engine}
use icesmtp.Envelope.Build.{Builder}
use icesmtp.Envelope.{Envelope, recipient_count}
use icesmtp.Limits.{SessionLimits}
use icesmtp.Prelude.{
  ℕ, ◌≤◌, ◌<◌, Bool, true, false, List, [], ◌∷◌, ◌++◌, Option, none, some, length, ◌≡◌, ◌≢◌, ◌↔◌,
  arith,
}
use icesmtp.Protocol.State.{
  State, disconnected, connected, identified, mail_from, rcpt_to, receiving, start_tls, terminated,
  aborted,
}
use icesmtp.Parser.{MailPath}
use icesmtp.Session.Config.{SessionConfig, SessionInfo, SenderResult, accepted}
use icesmtp.Session.Tls
use icesmtp.Session.Tls.{required}

-- The state that the session shows is that of the machine. Before the greeting it shows
-- Disconnected, and once it is over any state; where the machine is left in Data the session shows Identified.
abbrev pub Agrees : State → State → Type 0
Agrees connected shown = shown ≡ disconnected
Agrees terminated shown = Unit
Agrees aborted shown = Unit
Agrees receiving shown = shown ≡ identified
Agrees s shown = shown ≡ s

abbrev pub IsWithin : ℕ → ℕ → Type 0
IsWithin limit n = 0 < limit → n ≤ limit

abbrev pub All {ℓ κ} : {A : Type ℓ} → (A → Type κ) → List A → Type κ
All P [] = Unit
All P (x ∷ xs) = P x × All P xs

-- The mailbox has accepted the path as a recipient, at some command and in some session.
pub record IsWelcome (config : SessionConfig) (path : MailPath) : Type 0 where
  pub command : ℕ
  pub session : SessionInfo
  pub says : (config.mailbox command path session).status ≡ accepted

-- The mailbox has accepted each of these recipients.
unfoldable pub AllWelcome : SessionConfig → List MailPath → Type 0
AllWelcome config paths = All (IsWelcome config) paths

-- What a sender policy says, if there is one.
abbrev pub approves :
    Option (ℕ → MailPath → SessionInfo → SenderResult) → ℕ → MailPath → SessionInfo → Bool
approves none n path session = true
approves (some validate) n path session = (validate n path session).accepted

-- The sender policy, if there is one, has accepted the path as a sender, at some command and in
-- some session.
pub record IsApproved (config : SessionConfig) (path : MailPath) : Type 0 where
  pub command : ℕ
  pub session : SessionInfo
  pub says : approves config.sender_policy command path session ≡ true

-- The same of the sender of a builder, if it has one.
unfoldable pub SenderIsApproved : SessionConfig → Option MailPath → Type 0
SenderIsApproved config none = Unit
SenderIsApproved config (some path) = IsApproved config path

-- A builder that has a sender and neither a writer nor data, inside the limits.
pub record IsStarted (config : SessionConfig) (b : Builder) : Type 0 where
  pub has_sender : b.mail_from ≢ none
  pub unfinished : b.finalized ≡ false
  pub unopened : b.data_writer ≡ none
  pub no_content : b.content ≡ []
  pub few_recipients : IsWithin config.limits.max_recipients (length b.recipients)
  pub welcome : AllWelcome config b.recipients
  pub approved : SenderIsApproved config b.mail_from
  pub secure : Tls.same config.tls_policy required ≡ true → b.metadata.tls_active ≡ true

-- The envelope that goes with a state of the machine.
abbrev pub Fits : SessionConfig → State → Option Builder → Type 0
Fits config mail_from (some b) = IsStarted config b
Fits config mail_from none = ⊥
Fits config rcpt_to (some b) = IsStarted config b × (b.recipients ≢ [])
Fits config rcpt_to none = ⊥
Fits config terminated o = Unit
Fits config aborted o = Unit
Fits config _ none = Unit
Fits config _ (some b) = ⊥

abbrev pub is_some {ℓ} : {A : Type ℓ} → Option A → Bool
is_some none = false
is_some (some _) = true

-- An upgrade is under way only with a provider, and before TLS is active.
abbrev pub CanUpgrade : State → SessionConfig → Bool → Type 0
CanUpgrade start_tls config tls_active = (is_some config.tls_provider ≡ true) × (tls_active ≡ false)
CanUpgrade _ config tls_active = Unit

-- What every message that the storage took satisfies.
pub record IsDeliverable (config : SessionConfig) (m : Envelope) : Type 0 where
  pub finalized : m.finalized ≡ true
  pub has_recipient : m.recipients ≢ []
  pub few_recipients : IsWithin config.limits.max_recipients (length m.recipients)
  pub welcome : AllWelcome config m.recipients
  pub approved : SenderIsApproved config (some m.mail_from)
  pub small : IsWithin config.limits.max_message_size (length m.content)
  pub secure : Tls.same config.tls_policy required ≡ true → m.metadata.tls_active ≡ true

pub All-concat {ℓ κ} :
    {A : Type ℓ} (P : A → Type κ) (xs : List A) (x : A) → All P xs → P x → All P (xs ++ x ∷ [])
All-concat P [] x h p = (p, tt)
All-concat P (y ∷ xs) x h p = (h.0, All-concat P xs x h.1 p)

pub All-map {ℓ κ} :
    {A : Type ℓ} {P Q : A → Type κ} → ((x : A) → P x → Q x) → (xs : List A) → All P xs → All Q xs
All-map f [] h = tt
All-map f (x ∷ xs) (p, h) = (f x p, All-map f xs h)

-- The engine runs under this configuration, and what it stored is fit for it.
abbrev pub Serves : SessionConfig → Engine → Type 0
Serves config e = (e.config ≡ config) × All (IsDeliverable config) e.stored

pub record IsCoherent (config : SessionConfig) (e : Engine) : Type 0 where
  pub serves : Serves config e
  pub agrees : Agrees e.sm.state e.session.state
  pub fits : Fits config e.sm.state e.envelope
  pub can_upgrade : CanUpgrade e.sm.state config e.session.tls_active

pub AllWelcome-nil : (config : SessionConfig) → AllWelcome config []
unfolding AllWelcome
AllWelcome-nil config = tt

pub AllWelcome-concat :
    (config : SessionConfig) (paths : List MailPath) (path : MailPath)
    → AllWelcome config paths
    → IsWelcome config path
    → AllWelcome config (paths ++ path ∷ [])
unfolding AllWelcome
AllWelcome-concat config paths path h w = All-concat (IsWelcome config) paths path h w

pub SenderIsApproved-some :
    (config : SessionConfig) (path : MailPath)
    → SenderIsApproved config (some path) ↔ IsApproved config path
unfolding SenderIsApproved
SenderIsApproved-some config path = (λ h. h, λ h. h)
