-- ===== src/Engine/Loop/Quit.antt =====
-- engine.go: QUIT ends the session.
use icesmtp.Engine.Greet.{handle_quit}
use icesmtp.Engine.Loop.{
  run_command, handle_command, settle, forgive, run_loop, leave, turn, finish,
}
use icesmtp.Engine.State.{Engine, write_response}
use icesmtp.Parser.{Command}
use icesmtp.Prelude.{ℕ, suc, true, Option, none, some, ◌≡◌, refl, arith, ap, ◌∙◌}
use icesmtp.Protocol.Command.{quit, is_command_allowed}
use icesmtp.Protocol.Reply.{Response, response_bye, is_positive}
use icesmtp.Protocol.State.{terminated, is_terminal}
use icesmtp.Session.Config.{Surroundings, normal}
use icesmtp.Session.Connection.{Failure}

-- The session is over, with nothing stored since.
pub record IsOver (e f : Engine) : Type 0 where
  pub machine : f.sm.state ≡ terminated
  pub not_stored : f.stored ≡ e.stored
  pub same_around : f.around ≡ e.around
  pub answered : f.conn.sent ≡ (write_response response_bye e).0.conn.sent

handle_quit-IsOver :
    (cmd : Command) (e : Engine)
    → is_command_allowed e.sm.state quit ≡ true
    → IsOver e (write_response response_bye (handle_quit cmd e).0).0
unfolding handle_quit is_command_allowed write_response
handle_quit-IsOver cmd e allowed = ground arith

turn_of_terminated :
    (f : Engine)
    → f.sm.state ≡ terminated
    → f.around.context f.conn.clock ≡ none
    → turn f ≡ leave normal none f
unfolding turn is_terminal
turn_of_terminated f over live = rw (live, turn, over) refl

run_loop_of_terminated :
    (rounds : ℕ) (f : Engine)
    → f.sm.state ≡ terminated
    → f.around.context f.conn.clock ≡ none
    → run_loop (suc rounds) f ≡ finish normal none f
unfolding run_loop
run_loop_of_terminated rounds f over live = rw (run_loop, turn_of_terminated f over live) refl

settle-IsOver :
    (e f : Engine) (r : Response) (o : Option Failure)
    → IsOver e f
    → (g : Engine) × (why : Option Failure) × (settle r (f, o) ≡ some (g, why)) × IsOver e g
unfolding is_positive
settle-IsOver e f r (some why) h = (f, some why, refl, h)
settle-IsOver e f r none h = (forgive r f, none, refl, ground arith)

run_command-settle :
    (cmd : Command) (e : Engine)
    → cmd.verb ≡ quit
    → is_command_allowed e.sm.state quit ≡ true
    → run_command cmd e ≡ settle response_bye (write_response response_bye (handle_quit cmd e).0)
unfolding run_command handle_command handle_quit
run_command-settle cmd e is_quit allowed = rw (is_quit, allowed) refl

-- An allowed QUIT is answered with 221, as far as the response can be written, terminates the
-- machine and stores nothing, and the next round of the main loop, with the context not done,
-- ends the session normally.
pub run_command-quit :
    (cmd : Command) (e : Engine) (rounds : ℕ)
    → cmd.verb ≡ quit
    → is_command_allowed e.sm.state quit ≡ true
    → ((n : ℕ) → e.around.context n ≡ none)
    → (f : Engine) × (why : Option Failure) × (run_command cmd e ≡ some (f, why))
      × IsOver e f
      × (run_loop (suc rounds) f ≡ finish normal none f)
run_command-quit cmd e rounds is_quit allowed live =
    let (w, o) = write_response response_bye (handle_quit cmd e).0 in
    let (f, why, settled, over) =
      settle-IsOver e w response_bye o (handle_quit-IsOver cmd e allowed) in
    (
      f,
      why,
      run_command-settle cmd e is_quit allowed ∙ settled,
      over,
      run_loop_of_terminated rounds f over.machine
          (ap (λ (a : Surroundings). a.context f.conn.clock) over.same_around ∙ live f.conn.clock),
    )
