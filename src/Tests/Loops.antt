-- ===== src/Tests/Loops.antt =====
-- The theorems on the end of the main loop, at concrete inputs.
use icesmtp.Engine.Loop.Closing.{behind_read, run_loop-close}
use icesmtp.Engine.Loop.Errors.{IsLast, IsForgiven, after_command-reject_line}
use icesmtp.Engine.Loop.Livelock.{run_loop_of_lost}
use icesmtp.Engine.Loop.Quit.{IsOver, run_command-quit}
use icesmtp.Engine.Loop.Termination.{run_returns}
use icesmtp.Engine.Loop.{
  after_command, reject_line, run, run_loop, returned, out_of_rounds, run_command, finish, leave,
  process_one_command,
}
use icesmtp.Engine.State.{Engine, new_engine, close}
use icesmtp.Prelude.{ℕ, suc, List, ◌∷◌, none, some, Option, [], ◌≡◌, inl, ◌⊎◌, refl, codes, arith}
use icesmtp.Protocol.Command.{quit, is_command_allowed}
use icesmtp.Protocol.State.{identified, can_accept_commands, is_terminal}
use icesmtp.Session.Config.{normal}
use icesmtp.Session.Connection.{Failure, Read, failed, closed_pipe, other}
use icesmtp.Tests.Sample.{config, around, client, dialogue, server, server_in, command}

run_returns_example :
    (e : Engine) × (why : Option Failure) × (run 20 (server dialogue []) ≡ returned e why)
run_returns_example =
    run_returns config around (client dialogue []) (codes "s1") (codes "127.0.0.1") 20
      (inl refl, inl refl) (omega arith)

-- The connection was reset.
abbrev reset_by_peer : Engine
reset_by_peer =
    let e = server_in identified none [] [] in record e { conn = record e.conn { at_end = other } }

run_loop_of_lost_example : run_loop 1000 reset_by_peer ≡ out_of_rounds
unfolding new_engine is_terminal
run_loop_of_lost_example =
    run_loop_of_lost 1000 reset_by_peer
      (record { live = λ n. refl; running = refl; plain = refl; no_reads = refl; fails = refl })

abbrev ready : Engine
ready = server_in identified none [] []

run_command-quit_example :
    (f : Engine) × (why : Option Failure) × (run_command (command quit "") ready ≡ some (f, why))
    × IsOver ready f
    × (run_loop 3 f ≡ finish normal none f)
unfolding new_engine is_command_allowed
run_command-quit_example = run_command-quit (command quit "") ready 2 refl refl (λ n. refl)

after_command-reject_line_example :
    ((f : Engine) × IsLast ready (after_command (reject_line ready)) f)
    ⊎ ((f : Engine) × IsForgiven ready (after_command (reject_line ready)) f)
unfolding new_engine can_accept_commands
after_command-reject_line_example = after_command-reject_line ready refl

-- The connection is closed while the engine waits.
abbrev waiting : Engine
waiting = server_in identified none (failed closed_pipe ∷ []) []

run_loop-close_example :
    ((rounds : ℕ) → run_loop (suc rounds) (close waiting) ≡ returned (close waiting) none)
    × ((why : Failure) (rs : List Read)
        → waiting.conn.reads ≡ failed why ∷ rs
        → let f = behind_read rs (close waiting) in
          (after_command (process_one_command (close waiting)) ≡ leave normal none f)
          × (finish normal none f ≡ returned f none))
run_loop-close_example = run_loop-close waiting (λ p. cc) (λ p. cc)
