-- ===== src/Engine/Loop/Wedge.antt =====
-- engine.go: a failed DATA leaves the machine in Data, where every command is refused.
use icesmtp.Engine.Loop.{
  Step, run_command, after_hook, ask_hook, after_parse, process_line, reject_line, refuse_line,
  set_errors, after_read, process_one_command, turn, Turn, leave, again, panic, after_command,
}
use icesmtp.Engine.Invariant.Handlers.{Ensures}
use icesmtp.Engine.State.{Engine, write_response, check_error_limit}
use icesmtp.Envelope.{Envelope}
use icesmtp.Limits.{LimitError}
use icesmtp.Parser.{Command, Parsed, ok, err, parse_command}
use icesmtp.Prelude.{
  suc, ◌+◌, ◌≤◌, ◌++◌, codes, [], ◌∷◌, false, List, Option, none, some, ◌≡◌, ap, ◌⊎◌, inl, inr,
  arith, Option-cases, Bool-cases, length,
}
use icesmtp.Protocol.Command.{is_command_allowed}
use icesmtp.Protocol.Machine.{abort}
use icesmtp.Protocol.Reply.{
  Response, new_response, response_bad_sequence, response_syntax_error, response_transaction_failed,
}
use icesmtp.Protocol.State.{State, same, start_tls, is_terminal, receiving, aborted, identified}
use icesmtp.Session.Connection
use icesmtp.Session.Connection.{
  Connection, Failure, Read, line, pop_write, pop_read, failed, read_line, is_timeout_error,
  is_io_error,
}

-- These responses, and errors behind them.
pub data Refuses (sent : List Response) : List Response → Type 0 where
  so_far : Refuses sent sent
  one_more :
      (rs : List Response) (r : Response)
      → Refuses sent rs
      → 400 ≤ r.code
      → Refuses sent (rs ++ r ∷ [])

-- What each step in a wedged session leaves: the machine is in Data, or aborted, and since the
-- session wedged nothing was stored and nothing but errors was answered.
pub record IsWedged (stored : List Envelope) (sent : List Response) (e : Engine) : Type 0 where
  pub stays : (e.sm.state ≡ receiving) ⊎ (e.sm.state ≡ aborted)
  pub shown : e.session.state ≡ identified
  pub nothing_new : e.stored ≡ stored
  pub refuses : Refuses sent e.conn.sent

pub write_response-Refuses :
    (sent : List Response) (r : Response) (e : Engine)
    → 400 ≤ r.code
    → Refuses sent e.conn.sent
    → Refuses sent (write_response r e).0.conn.sent
unfolding write_response Connection.write
write_response-Refuses sent r e bad h = written e.conn.writes
  where
    written : (ws : List (Option Failure)) → Refuses sent (pop_write r e.conn ws).0.sent
    written [] = one_more e.conn.sent r h bad
    written (none ∷ ws) = one_more e.conn.sent r h bad
    written (some f ∷ ws) = h

refuse_line-IsWedged :
    {stored : List Envelope} {sent : List Response} (e : Engine) (o : Option LimitError)
    → IsWedged stored sent e
    → Ensures (IsWedged stored sent) (refuse_line e o)
unfolding write_response abort
refuse_line-IsWedged {sent = sent} e none h = record {
  stays = h.stays;
  shown = h.shown;
  nothing_new = h.nothing_new;
  refuses = write_response-Refuses sent response_syntax_error e (omega arith) h.refuses;
}
refuse_line-IsWedged {sent = sent} e (some why) h = record {
  stays = ground arith;
  shown = h.shown;
  nothing_new = h.nothing_new;
  refuses =
      write_response-Refuses sent (new_response 421 (codes "Too many errors, closing connection")) e
        (omega arith) h.refuses;
}

run_command-IsWedged :
    {stored : List Envelope} {sent : List Response} (cmd : Command) (e : Engine)
    → IsWedged stored sent e
    → Ensures (IsWedged stored sent) (run_command cmd e)
unfolding run_command write_response is_command_allowed
run_command-IsWedged {stored} {sent} cmd e h =
    let forbidden : is_command_allowed e.sm.state cmd.verb ≡ false = ground (arith, h.stays) in
    rw forbidden (record {
      stays = h.stays;
      shown = h.shown;
      nothing_new = h.nothing_new;
      refuses =
          write_response-Refuses sent response_bad_sequence
            (set_errors (suc e.session.consecutive_errors) e) (omega arith) h.refuses;
    })

after_parse-IsWedged :
    {stored : List Envelope} {sent : List Response} (e : Engine) (p : Parsed Command)
    → IsWedged stored sent e
    → Ensures (IsWedged stored sent) (after_parse e p)
unfolding reject_line write_response
after_parse-IsWedged e (err why) h =
    let f = set_errors (suc e.session.consecutive_errors) e in
    refuse_line-IsWedged f (check_error_limit f) (record {
      stays = h.stays;
      shown = h.shown;
      nothing_new = h.nothing_new;
      refuses = h.refuses;
    })
after_parse-IsWedged {sent = sent} e (ok cmd) h =
    elim (Option-cases (ask_hook e.config.hooks cmd e)) [
      | inl passes ↦ rw (passes, after_hook) (run_command-IsWedged cmd e h)
      | inr (f, stopped) ↦
          rw (stopped, after_hook)
            (record {
              stays = h.stays;
              shown = h.shown;
              nothing_new = h.nothing_new;
              refuses =
                  write_response-Refuses sent response_transaction_failed e (omega arith) h.refuses;
            })
    ]

read_line-Refuses :
    (sent : List Response) (c : Connection)
    → Refuses sent c.sent
    → Refuses sent (read_line c).1.sent
unfolding read_line
read_line-Refuses sent c h = popped c.reads
  where
    popped : (rs : List Read) → Refuses sent (pop_read c rs).1.sent
    popped [] = h
    popped (r ∷ rs) = h

after_read-IsWedged :
    {stored : List Envelope} {sent : List Response} (e : Engine) (r : Read) (conn : Connection)
    → IsWedged stored sent e
    → Refuses sent conn.sent
    → Ensures (IsWedged stored sent) (after_read e (r, conn))
unfolding process_line
after_read-IsWedged e (failed f) conn h kept = record {
  stays = h.stays;
  shown = h.shown;
  nothing_new = h.nothing_new;
  refuses = kept;
}
after_read-IsWedged e (line raw) conn h kept =
    let f = record e {
      conn = conn;
      stats = record e.stats {
        bytes_read = e.stats.bytes_read + length raw;
        command_count = suc e.stats.command_count;
      };
    } in
    after_parse-IsWedged f (parse_command e.around.wide_upper e.max_command_length raw)
      (record { stays = h.stays; shown = h.shown; nothing_new = h.nothing_new; refuses = kept })

-- What a round in a wedged session may do.
abbrev pub TurnIsWedged : List Envelope → List Response → Turn → Type 0
TurnIsWedged stored sent (leave _ _ e) = IsWedged stored sent e
TurnIsWedged stored sent (again e) = IsWedged stored sent e
TurnIsWedged stored sent panic = ⊥

after_command-IsWedged :
    (stored : List Envelope) (sent : List Response) (s : Step)
    → Ensures (IsWedged stored sent) s
    → TurnIsWedged stored sent (after_command s)
unfolding is_terminal is_timeout_error is_io_error
after_command-IsWedged stored sent none h = h
after_command-IsWedged stored sent (some (e, none)) h = h
after_command-IsWedged stored sent (some (e, some f)) h = ground arith

pub turn-IsWedged :
    {stored : List Envelope} {sent : List Response} (e : Engine)
    → IsWedged stored sent e
    → TurnIsWedged stored sent (turn e)
unfolding turn process_one_command
turn-IsWedged {stored} {sent} e h = elim (Option-cases (e.around.context e.conn.clock)) [
  | inr (f, over) ↦ rw (over, turn) h
  | inl live ↦ elim (Bool-cases (is_terminal e.sm.state)) [
    | inl ended ↦ rw (live, turn, ended) h
    | inr running ↦
        let plain : same e.session.state start_tls ≡ false =
          ap (λ (s : State). same s start_tls) h.shown in
        rw (live, turn, running, plain)
          (after_command-IsWedged stored sent _ (
            let (r, conn) = read_line e.conn in
            after_read-IsWedged e r conn h (read_line-Refuses sent e.conn h.refuses)))
  ]
]

-- The main loop goes on from one engine to the other, by any number of rounds.
pub data Passes : Engine → Engine → Type 0 where
  here : {e : Engine} → Passes e e
  onward : {e f g : Engine} → turn e ≡ again f → Passes f g → Passes e g

pub Passes-IsWedged :
    {stored : List Envelope} {sent : List Response} {e f : Engine}
    → IsWedged stored sent e
    → Passes e f
    → IsWedged stored sent f
Passes-IsWedged h here = h
Passes-IsWedged h (onward {e} goes rest) = Passes-IsWedged (rw goes at (turn-IsWedged e h)) rest
