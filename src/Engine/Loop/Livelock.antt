-- ===== src/Engine/Loop/Livelock.antt =====
-- engine.go: a connection error that the main loop does not know keeps it going for ever.
use icesmtp.Engine.Loop.{
  out_of_rounds, turn, again, run_loop, process_one_command, after_command, after_read,
}
use icesmtp.Engine.State.{Engine}
use icesmtp.Prelude.{ℕ, zero, suc, false, [], none, some, ◌≡◌, refl, ap, ◌∙◌, arith}
use icesmtp.Protocol.State.{start_tls, same, is_terminal}
use icesmtp.Session.Connection.{Failure, other, pop_read, is_timeout_error, is_io_error}

-- A session that is not over, on a connection that has failed for good with such an error, while
-- the context is not done.
pub record IsLost (e : Engine) : Type 0 where
  pub live : (n : ℕ) → e.around.context n ≡ none
  pub running : is_terminal e.sm.state ≡ false
  pub plain : same e.session.state start_tls ≡ false
  pub no_reads : e.conn.reads ≡ []
  pub fails : e.conn.at_end ≡ other

next_read-IsLost :
    (e : Engine)
    → e.conn.reads ≡ []
    → process_one_command e
      ≡ some (record e { conn = record e.conn { clock = suc e.conn.clock } }, some e.conn.at_end)
unfolding process_one_command
next_read-IsLost e h = ap (λ rs. let (r, c) = pop_read e.conn rs in after_read e (r, c)) h

after_command-other :
    (e : Engine) (f : Failure)
    → is_terminal e.sm.state ≡ false
    → f ≡ other
    → after_command (some (e, some f)) ≡ again e
unfolding is_terminal is_timeout_error is_io_error
after_command-other e f running fails = ground arith

turn-IsLost :
    (e : Engine)
    → IsLost e
    → turn e ≡ again (record e { conn = record e.conn { clock = suc e.conn.clock } })
unfolding turn
turn-IsLost e h =
    rw (h.live e.conn.clock, turn, h.running, h.plain)
      (ap after_command (next_read-IsLost e h.no_reads)
        ∙ after_command-other (record e { conn = record e.conn { clock = suc e.conn.clock } })
            e.conn.at_end h.running h.fails)

-- The main loop of such a session does not return, for any number of rounds.
pub run_loop_of_lost : (rounds : ℕ) (e : Engine) → IsLost e → run_loop rounds e ≡ out_of_rounds
unfolding run_loop
run_loop_of_lost zero e h = refl
run_loop_of_lost (suc rounds) e h =
    rw (run_loop, turn-IsLost e h)
      (run_loop_of_lost rounds (record e { conn = record e.conn { clock = suc e.conn.clock } })
        (record {
          live = h.live;
          running = h.running;
          plain = h.plain;
          no_reads = h.no_reads;
          fails = h.fails;
        }))
