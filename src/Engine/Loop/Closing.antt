-- ===== src/Engine/Loop/Closing.antt =====
-- engine.go: `Close`, called by another goroutine while the main loop runs.
use icesmtp.Engine.Loop.{
  run_loop, turn, leave, finish, returned, after_command, process_one_command, after_read,
}
use icesmtp.Engine.State.{Engine, close, handle_disconnect}
use icesmtp.Prelude.{
  ℕ, suc, List, ◌∷◌, true, Option, none, some, ◌≡◌, ◌≢◌, refl, arith, ap, ◌∙◌, Option-cases, inl,
  inr,
}
use icesmtp.Protocol.Machine.{abort, transition}
use icesmtp.Protocol.State.{disconnected, terminating, is_terminal}
use icesmtp.Session.Config.{DisconnectReason, normal, timeout}
use icesmtp.Session.Connection.{Failure, Read, failed, read_line, pop_read}

close_of_running :
    (e : Engine)
    → e.sm.state ≢ disconnected
    → e.sm.state ≢ terminating
    → is_terminal (close e).sm.state ≡ true
unfolding close abort transition is_terminal
close_of_running e begun going = ground arith

finish-close :
    (reason : DisconnectReason) (why : Option Failure) (e : Engine)
    → finish reason why (close e) ≡ returned (close e) none
unfolding close handle_disconnect
finish-close reason why e = refl

-- The engine behind a read, of which these are left.
abbrev pub behind_read : List Read → Engine → Engine
behind_read rs e = record e { conn = record e.conn { reads = rs; clock = suc e.conn.clock } }

turn-close :
    (e : Engine)
    → is_terminal (close e).sm.state ≡ true
    → (reason : DisconnectReason) × (why : Option Failure) × (turn (close e)
        ≡ leave reason why (close e))
unfolding turn close
turn-close e over = elim (Option-cases (e.around.context e.conn.clock)) [
  | inl live ↦ (normal, none, rw (live, turn, over) refl)
  | inr (f, done) ↦ (timeout, some f, rw (done, turn) refl)
]

wait_lem :
    (e : Engine) (why : Failure) (rs : List Read)
    → is_terminal (close e).sm.state ≡ true
    → e.conn.reads ≡ failed why ∷ rs
    → after_command (process_one_command (close e)) ≡ leave normal none (behind_read rs (close e))
unfolding process_one_command read_line close
wait_lem e why rs over fails =
    ap (λ (reads : List Read). after_command (after_read (close e) (pop_read (close e).conn reads)))
      fails
    ∙ rw over refl

finish-behind_read :
    (rs : List Read) (e : Engine)
    → finish normal none (behind_read rs (close e)) ≡ returned (behind_read rs (close e)) none
unfolding close handle_disconnect
finish-behind_read rs e = refl

-- `Close` ends the session of an engine whose machine is neither Disconnected nor Terminating. If
-- it comes between two rounds of the main loop, the next one ends the loop, whatever the context
-- says; if it comes while a round waits for a line, and the read has an error, then that round ends
-- it, whatever the error is. In both cases the session returns nil, and the engine stays as Close
-- and the read have left it: no response is sent, nothing is stored, and OnDisconnect is not
-- called.
pub run_loop-close :
    (e : Engine)
    → e.sm.state ≢ disconnected
    → e.sm.state ≢ terminating
    → ((rounds : ℕ) → run_loop (suc rounds) (close e) ≡ returned (close e) none)
      × ((why : Failure) (rs : List Read)
          → e.conn.reads ≡ failed why ∷ rs
          → let f = behind_read rs (close e) in
            (after_command (process_one_command (close e)) ≡ leave normal none f)
            × (finish normal none f ≡ returned f none))
unfolding run_loop
run_loop-close e begun going =
    let over = close_of_running e begun going in
    let (reason, why, ends) = turn-close e over in
    (
      λ rounds. rw (run_loop, ends) (finish-close reason why e),
      λ why rs fails. (wait_lem e why rs over fails, finish-behind_read rs e),
    )
