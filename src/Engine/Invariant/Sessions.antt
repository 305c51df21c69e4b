-- ===== src/Engine/Invariant/Sessions.antt =====
-- What a session keeps from its start to its end.
use icesmtp.Engine.Invariant.Handlers.{Ensures}
use icesmtp.Engine.Invariant.Rounds.{
  upgrade_under_way, with_provider-IsCoherent, process_one_command-IsCoherent,
}
use icesmtp.Engine.Invariant.{IsCoherent, IsDeliverable, All}
use icesmtp.Engine.Loop.{
  Step, perform_tls_upgrade, Turn, leave, again, panic, after_upgrade, after_command, turn, Ending,
  returned, panicked, out_of_rounds, finish, run_loop, run, welcome, send_greeting, greeting,
}
use icesmtp.Engine.State.{
  show, on_connect, Engine, new_engine, write_response, notify, handle_disconnect,
}
use mathlib.Core.Path.{subst}
use icesmtp.Prelude.{
  ℕ, zero, suc, true, [], none, some, ◌≡◌, ◌≢◌, refl, arith, Bytes, Option, ◌⊎◌, inl, inr,
  Bool-cases, Option-cases,
}
use icesmtp.Protocol.Machine.{StateMachine, connect, greet}
use icesmtp.Protocol.State.{disconnected, connected, greeted, start_tls, same, is_terminal}
use icesmtp.Session.Config.{DisconnectReason, SessionConfig, Surroundings}
use icesmtp.Session.Connection.{Connection, Failure, is_io_error, is_timeout_error}

abbrev pub TurnIsCoherent : SessionConfig → Turn → Type 0
TurnIsCoherent config (leave _ _ e) = IsCoherent config e
TurnIsCoherent config (again e) = IsCoherent config e
TurnIsCoherent config panic = ⊥

after_upgrade-IsCoherent :
    (config : SessionConfig) (s : Step)
    → Ensures (IsCoherent config) s
    → TurnIsCoherent config (after_upgrade s)
after_upgrade-IsCoherent config none h = h
after_upgrade-IsCoherent config (some (e, none)) h = h
after_upgrade-IsCoherent config (some (e, some f)) h = h

after_command-IsCoherent :
    (config : SessionConfig) (s : Step)
    → Ensures (IsCoherent config) s
    → TurnIsCoherent config (after_command s)
unfolding is_terminal is_timeout_error is_io_error
after_command-IsCoherent config none h = h
after_command-IsCoherent config (some (e, none)) h = h
after_command-IsCoherent config (some (e, some f)) h = ground arith

-- A round of the main loop keeps the invariant, and does not panic.
pub turn-IsCoherent :
    {config : SessionConfig} (e : Engine) → IsCoherent config e → TurnIsCoherent config (turn e)
unfolding turn perform_tls_upgrade
turn-IsCoherent e h = elim (Option-cases (e.around.context e.conn.clock)) [
  | inr (f, over) ↦ rw (over, turn) h
  | inl live ↦ elim (Bool-cases (is_terminal e.sm.state)) [
    | inl ended ↦ rw (live, turn, ended) h
    | inr running ↦ elim (Bool-cases (same e.session.state start_tls)) [
      | inl shows ↦
          let (s, provider, _) = upgrade_under_way e h running shows in
          rw (live, turn, running, shows)
            (after_upgrade-IsCoherent _ _
              (with_provider-IsCoherent e.config.tls_provider e provider s h))
      | inr other_state ↦
          rw (live, turn, running, other_state)
            (after_command-IsCoherent _ _ (process_one_command-IsCoherent e h))
    ]
  ]
]

abbrev pub EndIsCoherent : SessionConfig → Ending → Type 0
EndIsCoherent config (returned e _) = IsCoherent config e
EndIsCoherent config panicked = ⊥
EndIsCoherent config out_of_rounds = Unit

close-IsCoherent :
    {config : SessionConfig} (e : Engine)
    → IsCoherent config e
    → IsCoherent config (record e { closed = true })
close-IsCoherent e h = record {
  serves = h.serves;
  agrees = h.agrees;
  fits = h.fits;
  can_upgrade = h.can_upgrade;
}

pub Turn-cases :
    (t : Turn)
    → ((reason : DisconnectReason) × (why : Option Failure) × (e : Engine) × (t
          ≡ leave reason why e))
      ⊎ (((e : Engine) × (t ≡ again e)) ⊎ (t ≡ panic))
Turn-cases (leave reason why e) = inl (reason, why, e, refl)
Turn-cases (again e) = inr (inl (e, refl))
Turn-cases panic = inr (inr refl)

finish-IsCoherent :
    {config : SessionConfig} (reason : DisconnectReason) (why : Option Failure) (e : Engine)
    → IsCoherent config e
    → EndIsCoherent config (finish reason why e)
unfolding handle_disconnect
finish-IsCoherent reason why e h = elim (Bool-cases e.closed) [
  | inl shut ↦ rw (shut, finish) (close-IsCoherent e h)
  | inr live ↦
      rw (live, finish)
        (record {
          serves = h.serves;
          agrees = h.agrees;
          fits = h.fits;
          can_upgrade = h.can_upgrade;
        })
]

run_loop-IsCoherent :
    {config : SessionConfig} (rounds : ℕ) (e : Engine)
    → IsCoherent config e
    → EndIsCoherent config (run_loop rounds e)
unfolding run_loop
run_loop-IsCoherent zero e h = tt
run_loop-IsCoherent {config} (suc rounds) e h = elim (Turn-cases (turn e)) [
  | inl (reason, why, f, t) ↦
      rw (run_loop, t) (finish-IsCoherent reason why f (rw t at (turn-IsCoherent e h)))
  | inr (inl (f, t)) ↦
      rw (run_loop, t) (run_loop-IsCoherent rounds f (rw t at (turn-IsCoherent e h)))
  | inr (inr t) ↦ absurd (rw t at (turn-IsCoherent e h))
]

-- The engine between `Connect` and `Greet`.
pub record IsFresh (config : SessionConfig) (e : Engine) : Type 0 where
  pub same_config : e.config ≡ config
  pub connecting : e.sm.state ≡ connected
  pub unseen : e.session.state ≡ disconnected
  pub empty : e.envelope ≡ none
  pub nothing_stored : e.stored ≡ []

fresh-IsCoherent : {config : SessionConfig} (e : Engine) → IsFresh config e → IsCoherent config e
fresh-IsCoherent e h = ground arith

pub greeted-IsCoherent :
    {config : SessionConfig} (e : Engine)
    → IsFresh config e
    → IsCoherent config (show greeted (record e { sm = (greet e.sm).0 }))
unfolding greet
greeted-IsCoherent e h = ground arith

pub greet-none : (sm : StateMachine) → sm.state ≡ connected → greet sm ≡ ((greet sm).0, none)
unfolding greet
greet-none sm h = ground arith

welcome-IsCoherent :
    {config : SessionConfig} (rounds : ℕ) (e : Engine) (o : Option Failure)
    → IsFresh config e
    → EndIsCoherent config (welcome rounds (e, o))
unfolding greet
welcome-IsCoherent rounds e (some f) h = finish-IsCoherent _ _ e (fresh-IsCoherent e h)
welcome-IsCoherent rounds e none h =
    rw (greet-none e.sm h.connecting) (run_loop-IsCoherent rounds _ (greeted-IsCoherent e h))

send_greeting-IsCoherent :
    {config : SessionConfig} (rounds : ℕ) (e : Engine)
    → IsFresh config e
    → EndIsCoherent config (send_greeting rounds e)
unfolding write_response greet
send_greeting-IsCoherent rounds e h =
    let (f, why) = write_response (greeting e) e in
    welcome-IsCoherent rounds f why (record {
      same_config = h.same_config;
      connecting = h.connecting;
      unseen = h.unseen;
      empty = h.empty;
      nothing_stored = h.nothing_stored;
    })

run-IsCoherent :
    (config : SessionConfig) (around : Surroundings) (conn : Connection) (id ip : Bytes)
    (rounds : ℕ)
    → EndIsCoherent config (run rounds (new_engine config around conn id ip))
unfolding run new_engine
run-IsCoherent config around conn id ip rounds =
    let e = new_engine config around conn id ip in
    send_greeting-IsCoherent rounds (notify on_connect (record e { sm = (connect e.sm).0 }))
      (record {
        same_config = refl;
        connecting = refl;
        unseen = refl;
        empty = refl;
        nothing_stored = refl;
      })

-- A session of an engine from its start, however many rounds it is given and whatever the
-- connection, the mailbox, the policies, the storage, the hooks and the context do: no handler
-- panics, neither on a missing envelope nor on a missing TLS provider.
pub run-ne-panicked :
    (config : SessionConfig) (around : Surroundings) (conn : Connection) (id ip : Bytes)
    (rounds : ℕ)
    → run rounds (new_engine config around conn id ip) ≢ panicked
run-ne-panicked config around conn id ip rounds p =
    subst (EndIsCoherent config) p (run-IsCoherent config around conn id ip rounds)

-- When a session from its start returns, every message that was stored in it is finalized and has
-- a recipient, keeps to the limits on recipients and on the message size, where there are such,
-- was received over TLS if the policy requires TLS, has a sender that the sender policy, if there
-- is one, accepted at some command, and has only recipients that the mailbox accepted at some
-- command.
pub run-IsDeliverable :
    (config : SessionConfig) (around : Surroundings) (conn : Connection) (id ip : Bytes)
    (rounds : ℕ) (e : Engine) (why : Option Failure)
    → run rounds (new_engine config around conn id ip) ≡ returned e why
    → All (IsDeliverable config) e.stored
run-IsDeliverable config around conn id ip rounds e why p =
    (subst (EndIsCoherent config) p (run-IsCoherent config around conn id ip rounds)).serves.1
