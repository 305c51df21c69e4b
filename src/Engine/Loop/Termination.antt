-- ===== src/Engine/Loop/Termination.antt =====
-- engine.go: with enough rounds the main loop ends, when the connection does.
use icesmtp.Engine.Invariant.Rounds.{upgrade_under_way}
use icesmtp.Engine.Invariant.Sessions.{
  Turn-cases, turn-IsCoherent, IsFresh, greeted-IsCoherent, greet-none, run-ne-panicked,
}
use icesmtp.Engine.Invariant.{IsCoherent}
use icesmtp.Engine.Loop.Reads.{Uses, write_response-Uses, Leaves, process_line-Uses}
use icesmtp.Engine.Loop.{
  Step, Turn, again, Ending, returned, panicked, out_of_rounds, turn, run, welcome, send_greeting,
  greeting, run_loop, after_command, after_upgrade, after_read, process_line, after_handshake,
  with_provider, finish_upgrade, process_one_command, perform_tls_upgrade, finish,
}
use icesmtp.Engine.State.{Engine, new_engine, show, notify, on_connect, write_response}
use icesmtp.Prelude.{
  ℕ, zero, suc, ◌+◌, ◌<◌, Bool, false, List, [], ◌∷◌, Option, none, some, Bytes, ◌≡◌, ◌≢◌, refl,
  arith, length, ◌⊎◌, if◌then◌else◌, inl, inr, Bool-cases, Option-cases, take,
}
use icesmtp.Protocol.Machine.{connect, greet}
use icesmtp.Protocol.State.{greeted, is_terminal, start_tls, same}
use icesmtp.Session.Config.{SessionConfig, Surroundings, DisconnectReason, error}
use icesmtp.Session.Connection.{
  Connection, Failure, Read, line, failed, Handshake, secured, broken, eof, unexpected_eof,
  closed_pipe, timed_out, is_io_error, is_timeout_error, pop_read, upgrade_to, upgrade_tls,
  reset_reader,
}
use icesmtp.Text.Search.Laws.{drop-append}

-- The error is the end of the stream, a closed pipe, or a timeout.
abbrev pub Closes : Failure → Type 0
Closes f = (f ≡ eof) ⊎ ((f ≡ unexpected_eof) ⊎ ((f ≡ closed_pipe) ⊎ (f ≡ timed_out)))

abbrev pub HandshakeCloses : Handshake → Type 0
HandshakeCloses (secured _ _ _ at_end) = Closes at_end
HandshakeCloses broken = Unit

-- What an upgrade can add to the reads, and the upgrade itself.
abbrev pub secret_reads : Handshake → ℕ
secret_reads (secured _ _ rs _) = suc (length rs)
secret_reads broken = 0

-- The rounds that are left at most, before the last.
abbrev pub budget : Connection → Bool → ℕ
budget c tls_active = length c.reads + (if tls_active then 0 else secret_reads c.handshake)

record IsBounded (n : ℕ) (e : Engine) : Type 0 where
  small : budget e.conn e.session.tls_active < n
  closes : Closes e.conn.at_end
  closes_later : HandshakeCloses e.conn.handshake

abbrev TurnIsBounded : ℕ → Turn → Type 0
TurnIsBounded n (again e) = IsBounded n e
TurnIsBounded n _ = Unit

Uses-IsBounded : {n : ℕ} {e f : Engine} → Uses e f → IsBounded n e → IsBounded n f
Uses-IsBounded u h = ground arith

after_command-IsBounded :
    (n : ℕ) (s : Step) → Leaves (IsBounded n) s → TurnIsBounded n (after_command s)
unfolding is_terminal is_timeout_error is_io_error
after_command-IsBounded n none h = tt
after_command-IsBounded n (some (e, none)) h = h
after_command-IsBounded n (some (e, some f)) h = ground arith

Leaves-IsBounded :
    {R : Type 0} (n : ℕ) (e : Engine) (o : Option (Engine × R))
    → IsBounded n e
    → Leaves (Uses e) o
    → Leaves (IsBounded n) o
Leaves-IsBounded n e none h u = tt
Leaves-IsBounded n e (some (f, r)) h u = Uses-IsBounded u h

at_end-IsBounded :
    (n : ℕ) (e : Engine) (f : Failure)
    → Closes f
    → TurnIsBounded n (after_command (some (e, some f)))
unfolding is_terminal is_timeout_error is_io_error
at_end-IsBounded n e f h = ground arith

-- One command takes a read off, or ends the session where there is none.
after_read-IsBounded :
    (n : ℕ) (e : Engine) (r : Read) (conn : Connection)
    → IsBounded n (record e { conn = conn })
    → TurnIsBounded n (after_command (after_read e (r, conn)))
after_read-IsBounded n e (failed f) conn h =
    after_command-IsBounded n (some (record e { conn = conn }, some f)) h
after_read-IsBounded n e (line raw) conn h =
    let f = record e { conn = conn } in
    after_command-IsBounded n (process_line raw f)
      (Leaves-IsBounded n f (process_line raw f) h (process_line-Uses raw f))

next_read-IsBounded :
    (n : ℕ) (e : Engine) (rs : List Read)
    → e.conn.reads ≡ rs
    → IsBounded (suc n) e
    → let (r, conn) = pop_read e.conn rs in TurnIsBounded n (after_command (after_read e (r, conn)))
next_read-IsBounded n e [] is_rs h =
    at_end-IsBounded n (record e { conn = (pop_read e.conn []).1 }) e.conn.at_end h.closes
next_read-IsBounded n e (r ∷ rs) is_rs h =
    after_read-IsBounded n e r (pop_read e.conn (r ∷ rs)).1 (ground arith)

process_one_command-IsBounded :
    (n : ℕ) (e : Engine)
    → IsBounded (suc n) e
    → TurnIsBounded n (after_command (process_one_command e))
unfolding process_one_command
process_one_command-IsBounded n e h = next_read-IsBounded n e e.conn.reads refl h

after_handshake-IsBounded :
    (n : ℕ) (e : Engine) (h : Handshake)
    → e.conn.handshake ≡ h
    → e.session.tls_active ≡ false
    → IsBounded (suc n) e
    → TurnIsBounded n (after_upgrade (some (after_handshake e (upgrade_to e.conn h))))
unfolding finish_upgrade reset_reader
after_handshake-IsBounded n e broken is_h plain b = tt
after_handshake-IsBounded n e (secured s held rs at_end) is_h plain b = record {
  small = rw (drop-append (take held e.conn.reads) rs) (ground arith);
  closes = ground arith;
  closes_later = b.closes_later;
}

with_provider-IsBounded :
    (n : ℕ) (e : Engine) (o : Option (ℕ → Option Failure))
    → e.session.tls_active ≡ false
    → IsBounded (suc n) e
    → TurnIsBounded n (after_upgrade (with_provider o e))
unfolding upgrade_tls
with_provider-IsBounded n e none plain b = tt
with_provider-IsBounded n e (some get_config) plain b =
    elim (Option-cases (get_config e.stats.command_count)) [
      | inl ready ↦ rw ready (after_handshake-IsBounded n e e.conn.handshake refl plain b)
      | inr (f, fails) ↦ rw fails tt
    ]

turn-IsBounded :
    {config : SessionConfig} (n : ℕ) (e : Engine)
    → IsCoherent config e
    → IsBounded (suc n) e
    → TurnIsBounded n (turn e)
unfolding turn perform_tls_upgrade
turn-IsBounded n e h b = elim (Option-cases (e.around.context e.conn.clock)) [
  | inr (f, over) ↦ rw (over, turn) tt
  | inl live ↦ elim (Bool-cases (is_terminal e.sm.state)) [
    | inl ended ↦ rw (live, turn, ended) tt
    | inr running ↦ elim (Bool-cases (same e.session.state start_tls)) [
      | inl shows ↦
          let (_, _, plain) = upgrade_under_way e h running shows in
          rw (live, turn, running, shows)
            (with_provider-IsBounded n e e.config.tls_provider plain b)
      | inr other_state ↦
          rw (live, turn, running, other_state) (process_one_command-IsBounded n e b)
    ]
  ]
]

finish-ne-out_of_rounds :
    (reason : DisconnectReason) (why : Option Failure) (e : Engine)
    → finish reason why e ≢ out_of_rounds
finish-ne-out_of_rounds reason why e h = cc

run_loop_ends :
    {config : SessionConfig} (n : ℕ) (e : Engine)
    → IsCoherent config e
    → IsBounded n e
    → run_loop n e ≢ out_of_rounds
unfolding run_loop
run_loop_ends zero e h b = ground arith
run_loop_ends (suc n) e h b = elim (Turn-cases (turn e)) [
  | inl (reason, why, f, t) ↦ rw (run_loop, t) (finish-ne-out_of_rounds reason why f)
  | inr (inl (f, t)) ↦
      rw (run_loop, t)
        (run_loop_ends n f (rw t at (turn-IsCoherent e h)) (rw t at (turn-IsBounded n e h b)))
  | inr (inr t) ↦ absurd (rw t at (turn-IsCoherent e h))
]

-- The connection ends: each read behind the last is an error that ends a session, and so it is on
-- the encrypted stream that a handshake leads to.
abbrev pub Ends : Connection → Type 0
Ends conn = Closes conn.at_end × HandshakeCloses conn.handshake

welcome-ends :
    {config : SessionConfig} (rounds : ℕ) (e : Engine) (o : Option Failure)
    → IsFresh config e
    → IsBounded rounds e
    → welcome rounds (e, o) ≢ out_of_rounds
unfolding greet
welcome-ends rounds e (some f) h b = finish-ne-out_of_rounds error (some f) e
welcome-ends rounds e none h b =
    let f = show greeted (record e { sm = (greet e.sm).0 }) in
    rw (greet-none e.sm h.connecting) (
      run_loop_ends rounds f (greeted-IsCoherent e h)
        (record { small = b.small; closes = b.closes; closes_later = b.closes_later }))

send_greeting-ends :
    {config : SessionConfig} (rounds : ℕ) (e : Engine)
    → IsFresh config e
    → IsBounded rounds e
    → send_greeting rounds e ≢ out_of_rounds
unfolding write_response greet
send_greeting-ends rounds e h b =
    let (f, why) = write_response (greeting e) e in
    welcome-ends rounds f why
      (record {
        same_config = h.same_config;
        connecting = h.connecting;
        unseen = h.unseen;
        empty = h.empty;
        nothing_stored = h.nothing_stored;
      })
      (Uses-IsBounded (write_response-Uses (greeting e) e) b)

run_in_time :
    (config : SessionConfig) (around : Surroundings) (conn : Connection) (id ip : Bytes)
    (rounds : ℕ)
    → Ends conn
    → length conn.reads + secret_reads conn.handshake < rounds
    → run rounds (new_engine config around conn id ip) ≢ out_of_rounds
unfolding run new_engine
run_in_time config around conn id ip rounds ends enough =
    let e = new_engine config around conn id ip in
    send_greeting-ends rounds (notify on_connect (record e { sm = (connect e.sm).0 }))
      (record {
        same_config = refl;
        connecting = refl;
        unseen = refl;
        empty = refl;
        nothing_stored = refl;
      })
      (record { small = enough; closes = ends.0; closes_later = ends.1 })

Ending-returned :
    (x : Ending)
    → x ≢ panicked
    → x ≢ out_of_rounds
    → (e : Engine) × (why : Option Failure) × (x ≡ returned e why)
Ending-returned (returned e why) p q = (e, why, refl)
Ending-returned panicked p q = absurd (p refl)
Ending-returned out_of_rounds p q = absurd (q refl)

-- On a connection whose reads, the plain and the encrypted ones, end with the end of the stream, a
-- closed pipe or a timeout, a session from its start returns, without a panic, once the main loop
-- is given more rounds than there are plain reads, with one more for an upgrade and those of the
-- encrypted stream, whatever the client sends and the called code answers.
pub run_returns :
    (config : SessionConfig) (around : Surroundings) (conn : Connection) (id ip : Bytes)
    (rounds : ℕ)
    → Ends conn
    → length conn.reads + secret_reads conn.handshake < rounds
    → (e : Engine) × (why : Option Failure) × (run rounds (new_engine config around conn id ip)
        ≡ returned e why)
run_returns config around conn id ip rounds ends enough =
    Ending-returned (run rounds (new_engine config around conn id ip))
      (run-ne-panicked config around conn id ip rounds)
      (run_in_time config around conn id ip rounds ends enough)
