-- ===== src/Engine/Arrival/Rounds.antt =====
-- engine.go: one round of the main loop, when more has arrived than the round reads.
use icesmtp.Engine.Arrival.{
  extend, onto, IsWithin, Lifted, Lifted-later, write_response-extend, write_response-IsWithin,
}
use icesmtp.Engine.Arrival.Data.{handle_data-extend}
use icesmtp.Engine.Arrival.Handlers.{
  handle_helo-extend, handle_ehlo-extend, handle_rset-extend, handle_noop-extend,
  handle_quit-extend, handle_vrfy-extend, handle_help-extend, handle_starttls-extend,
  handle_mail-extend, handle_rcpt-extend,
}
use icesmtp.Engine.Loop.{
  dispatch, forgive, handle_command, settle, reply, run_command, set_errors, after_hook,
  after_parse, after_read, ask_hook, refuse_line, reject_line, process_line, process_one_command,
  turn, Turn, leave, again, panic, after_command, Step,
}
use icesmtp.Engine.Mail.{handle_rcpt}
use icesmtp.Engine.State.{Engine, write_response, check_error_limit, session_info}
use icesmtp.Limits.{LimitError}
use icesmtp.Parser.{Command, Parsed, parse_command}
use icesmtp.Parser
use icesmtp.Prelude.{
  ℕ, suc, ◌+◌, codes, ◌++◌, List, [], ◌∷◌, Option, none, some, Bytes, false, ◌≡◌, refl, sym, ◌∙◌,
  ap, arith, length, Bool-cases, inl, inr, Option-cases,
}
use icesmtp.Protocol.Command.{
  is_command_allowed, CommandVerb, helo, ehlo, mail, rcpt, data_cmd, rset, noop, quit, vrfy, help,
  starttls,
}
use icesmtp.Protocol.Machine.{abort}
use icesmtp.Protocol.Reply.{
  Response, is_positive, new_response, response_bad_sequence, response_syntax_error,
  response_transaction_failed,
}
use icesmtp.Session.Config.{SessionInfo}
use icesmtp.Protocol.State.{start_tls, is_terminal, same}
use icesmtp.Session.Connection.{
  Failure, Read, line, failed, refused, read_line, pop_read, is_timeout_error, is_io_error,
}
use mathlib.Core.Option

-- The same turn, when more has arrived.
abbrev pub extend_turn : List Read → Turn → Turn
extend_turn more (leave reason why f) = leave reason why (extend more f)
extend_turn more (again f) = again (extend more f)
extend_turn more panic = panic

-- Each read of the turn was one that had arrived.
abbrev pub TurnIsWithin : Engine → Turn → Type 0
TurnIsWithin e (leave _ _ f) = IsWithin e f
TurnIsWithin e (again f) = IsWithin e f
TurnIsWithin e panic = Unit

module _ (more : List Read) where
  Lifted-same :
      {R : Type 0} (e : Engine) (now after : Option (Engine × R))
      → after ≡ Option.map (onto more) now
      → Lifted more e now after
  Lifted-same e none after h = h
  Lifted-same e (some (f, r)) after h = λ _. h

  dispatch-extend :
      (v : CommandVerb) (cmd : Command) (e : Engine)
      → Lifted more e (dispatch v cmd e) (dispatch v cmd (extend more e))
  dispatch-extend helo cmd e = λ _. ap some (handle_helo-extend more cmd e)
  dispatch-extend ehlo cmd e = λ _. ap some (handle_ehlo-extend more cmd e)
  dispatch-extend mail cmd e = λ _. ap some (handle_mail-extend more cmd e)
  dispatch-extend rcpt cmd e = Lifted-same e (handle_rcpt cmd e) _ (handle_rcpt-extend more cmd e)
  dispatch-extend data_cmd cmd e = handle_data-extend more cmd e
  dispatch-extend rset cmd e = λ _. ap some (handle_rset-extend more cmd e)
  dispatch-extend quit cmd e = λ _. ap some (handle_quit-extend more cmd e)
  dispatch-extend starttls cmd e = λ _. ap some (handle_starttls-extend more cmd e)
  dispatch-extend noop cmd e = λ _. ap some (handle_noop-extend more cmd e)
  dispatch-extend vrfy cmd e = λ _. ap some (handle_vrfy-extend more cmd e)
  dispatch-extend help cmd e = λ _. ap some (handle_help-extend more cmd e)
  dispatch-extend _ cmd e = λ _. refl

  settle-extend :
      (r : Response) (e : Engine) (o : Option Failure)
      → settle r (extend more e, o) ≡ Option.map (onto more) (settle r (e, o))
  unfolding is_positive
  settle-extend r e (some f) = refl
  settle-extend r e none = ground arith

  settle-Lifted :
      (e f : Engine) (r : Response) (o : Option Failure) (after : Step)
      → (IsWithin e f → after ≡ settle r (extend more f, o))
      → Lifted more e (settle r (f, o)) after
  unfolding is_positive
  settle-Lifted e f r (some why) after h = h
  settle-Lifted e f r none after h = λ within. h (unforgiven within) ∙ settle-extend r f none
    where
      unforgiven : IsWithin e (forgive r f) → IsWithin e f
      unforgiven within = ground arith

  reply-extend :
      (e : Engine) (o after : Option (Engine × Response))
      → Lifted more e o after
      → Lifted more e (reply o) (reply after)
  reply-extend e none after h = ap reply h
  reply-extend e (some (f, r)) after h =
      let (g, why) = write_response r f in
      settle-Lifted e g r why (reply after) (λ within.
        ap reply (h (sym (write_response-IsWithin r f) ∙ within))
        ∙ ap (settle r) (write_response-extend more r f))

  refuse_line-extend :
      (e : Engine) (o : Option LimitError)
      → refuse_line (extend more e) o ≡ Option.map (onto more) (refuse_line e o)
  unfolding abort
  refuse_line-extend e none =
      ap (λ (p : Engine × Option Failure). some (p.0, some refused))
        (write_response-extend more response_syntax_error e)
  refuse_line-extend e (some why) =
      ap
        (λ (p : Engine × Option Failure). some (record p.0 { sm = (abort p.0.sm).0 }, some refused))
        (write_response-extend more (new_response 421 (codes "Too many errors, closing connection"))
          e)

  run_command-extend :
      (cmd : Command) (e : Engine)
      → Lifted more e (run_command cmd e) (run_command cmd (extend more e))
  unfolding run_command handle_command
  run_command-extend cmd e = elim (Bool-cases (is_command_allowed e.sm.state cmd.verb)) [
    | inl allowed ↦ rw allowed (
        reply-extend e (dispatch cmd.verb cmd e) (dispatch cmd.verb cmd (extend more e))
          (dispatch-extend cmd.verb cmd e))
    | inr forbidden ↦ rw forbidden (λ _.
        ap (λ (p : Engine × Option Failure). some (p.0, none))
          (write_response-extend more response_bad_sequence
            (set_errors (suc e.session.consecutive_errors) e)))
  ]

  after_hook-extend :
      (cmd : Command) (e : Engine) (o : Option Failure)
      → Lifted more e (after_hook cmd e o) (after_hook cmd (extend more e) o)
  after_hook-extend cmd e (some f) = λ _.
      ap (λ (p : Engine × Option Failure). some (p.0, some f))
        (write_response-extend more response_transaction_failed e)
  after_hook-extend cmd e none = run_command-extend cmd e

  ask_hook-extend :
      (hook : Option (ℕ → Command → SessionInfo → Option Failure)) (cmd : Command) (e : Engine)
      → ask_hook hook cmd (extend more e) ≡ ask_hook hook cmd e
  unfolding session_info
  ask_hook-extend none cmd e = refl
  ask_hook-extend (some f) cmd e = refl

  after_parse-extend :
      (e : Engine) (p : Parsed Command)
      → Lifted more e (after_parse e p) (after_parse (extend more e) p)
  after_parse-extend e (Parser.ok cmd) =
      rw (ask_hook-extend e.config.hooks cmd e)
        (after_hook-extend cmd e (ask_hook e.config.hooks cmd e))
  after_parse-extend e (Parser.err why) =
      let f = set_errors (suc e.session.consecutive_errors) e in
      unfold reject_line in
      unfold check_error_limit in
      Lifted-same e (refuse_line f (check_error_limit f)) _
        (refuse_line-extend f (check_error_limit f))

  process_line-extend :
      (raw : Bytes) (e : Engine)
      → Lifted more e (process_line raw e) (process_line raw (extend more e))
  unfolding process_line
  process_line-extend raw e =
      let f = record e {
        stats = record e.stats {
          bytes_read = e.stats.bytes_read + length raw;
          command_count = suc e.stats.command_count;
        };
      } in
      after_parse-extend f (parse_command e.around.wide_upper e.max_command_length raw)

  after_read-extend :
      (e : Engine) (rs : List Read)
      → let now = record e { conn = record e.conn { reads = rs } } in
        Lifted more now
          (after_read now (pop_read now.conn rs))
          (after_read (extend more now) (pop_read (extend more now).conn (rs ++ more)))
  after_read-extend e [] = λ within. absurd (no_read within)
    where
      no_read : suc e.conn.clock + 0 ≡ e.conn.clock + 0 → ⊥
      no_read h = omega (arith, h)
  after_read-extend e (failed f ∷ rs) = λ _. refl
  after_read-extend e (line raw ∷ rs) =
      let now = record e { conn = record e.conn { reads = line raw ∷ rs } } in
      let f = record e { conn = record e.conn { reads = rs; clock = suc e.conn.clock } } in
      Lifted-later more now f (process_line raw f) (process_line raw (extend more f)) (omega arith)
        (process_line-extend raw f)

  process_one_command-extend :
      (e : Engine) → Lifted more e (process_one_command e) (process_one_command (extend more e))
  unfolding process_one_command read_line
  process_one_command-extend e = after_read-extend e e.conn.reads

  after_command-onto :
      (now : Step)
      → after_command (Option.map (onto more) now) ≡ extend_turn more (after_command now)
  unfolding is_terminal is_timeout_error is_io_error
  after_command-onto none = refl
  after_command-onto (some (f, none)) = refl
  after_command-onto (some (f, some why)) = ground arith

  after_command-extend :
      (e : Engine) (now after : Step)
      → Lifted more e now after
      → TurnIsWithin e (after_command now)
      → after_command after ≡ extend_turn more (after_command now)
  unfolding is_terminal is_timeout_error is_io_error
  after_command-extend e none after lifted h = ap after_command lifted
  after_command-extend e (some (f, o)) after lifted h =
      ap after_command (lifted (within o h)) ∙ after_command-onto (some (f, o))
    where
      within : (o : Option Failure) → TurnIsWithin e (after_command (some (f, o))) → IsWithin e f
      within none h = h
      within (some why) h = ground (arith, h)

  -- A round that is not the TLS upgrade, and reads only what had arrived.
  pub turn-extend :
      (e : Engine)
      → same e.session.state start_tls ≡ false
      → TurnIsWithin e (turn e)
      → turn (extend more e) ≡ extend_turn more (turn e)
  unfolding turn
  turn-extend e plain h = elim (Option-cases (e.around.context e.conn.clock)) [
    | inr (why, over) ↦ rw (over, turn) refl
    | inl live ↦ elim (Bool-cases (is_terminal e.sm.state)) [
      | inl ended ↦ rw (live, turn, ended) refl
      | inr lives ↦
          rw (live, turn, lives, plain)
            (after_command-extend e (process_one_command e) (process_one_command (extend more e))
              (process_one_command-extend e) (rw (live, turn, lives, plain) at h))
    ]
  ]
