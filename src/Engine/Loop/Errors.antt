-- ===== src/Engine/Loop/Errors.antt =====
-- engine.go: lines that do not parse, and the limit on errors.
use icesmtp.Engine.Loop.{Turn, leave, again, reject_line, set_errors, after_command}
use icesmtp.Engine.State.{Engine, write_response, check_error_limit}
use icesmtp.Prelude.{
  suc, ◌<◌, ◌≤◌, true, ◌&&◌, none, codes, ltb, leb, ◌≡◌, refl, arith, ◌⊎◌, inl, inr, Bool-cases,
}
use icesmtp.Protocol.Machine.{abort}
use icesmtp.Protocol.Reply.{new_response, response_syntax_error}
use icesmtp.Protocol.State.{aborted, can_accept_commands, is_terminal}
use icesmtp.Session.Config.{normal}
use icesmtp.Session.Connection.{is_timeout_error, is_io_error}

-- The line was one error too many.
pub record IsLast (e : Engine) (t : Turn) (f : Engine) : Type 0 where
  pub leaves : t ≡ leave normal none f
  pub at_limit : e.config.limits.max_errors ≤ suc e.session.consecutive_errors
  pub limited : 0 < e.config.limits.max_errors
  pub machine : f.sm.state ≡ aborted
  pub answered :
      f.conn
      ≡ (write_response (new_response 421 (codes "Too many errors, closing connection")) e).0.conn

-- The line was an error that the session survives.
pub record IsForgiven (e : Engine) (t : Turn) (f : Engine) : Type 0 where
  pub goes_on : t ≡ again f
  pub below :
      (e.config.limits.max_errors ≡ 0)
      ⊎ (suc e.session.consecutive_errors < e.config.limits.max_errors)
  pub machine : f.sm ≡ e.sm
  pub counted : f.session.consecutive_errors ≡ suc e.session.consecutive_errors
  pub envelope : f.envelope ≡ e.envelope
  pub answered : f.conn ≡ (write_response response_syntax_error e).0.conn

-- In a state that takes commands, a line that does not parse either reaches the limit on errors, if
-- there is one, and then is answered with 421, aborts the machine and ends the session, as a
-- normal disconnect; or it stays below, and then is answered with 500 and counted, and the machine
-- and the envelope do not change.
pub after_command-reject_line :
    (e : Engine)
    → can_accept_commands e.sm.state ≡ true
    → ((f : Engine) × IsLast e (after_command (reject_line e)) f)
      ⊎ ((f : Engine) × IsForgiven e (after_command (reject_line e)) f)
unfolding reject_line check_error_limit can_accept_commands is_terminal write_response abort
    is_timeout_error is_io_error
after_command-reject_line e live =
    let n = suc e.session.consecutive_errors in
    let c = set_errors n e in
    elim (Bool-cases (ltb 0 e.config.limits.max_errors && leb e.config.limits.max_errors n)) [
      | inl reached ↦
          let w =
            (write_response (new_response 421 (codes "Too many errors, closing connection")) c).0 in
          inl (
            record w { sm = (abort w.sm).0 },
            record {
              leaves = ground arith;
              at_limit = ground arith;
              limited = ground arith;
              machine = ground arith;
              answered = refl;
            },
          )
      | inr below ↦ inr (
        (write_response response_syntax_error c).0,
        record {
          goes_on = ground arith;
          below = ground arith;
          machine = refl;
          counted = refl;
          envelope = refl;
          answered = refl;
        },
      )
    ]
