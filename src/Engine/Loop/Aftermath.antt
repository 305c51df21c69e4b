-- ===== src/Engine/Loop/Aftermath.antt =====
-- engine.go: what the main loop does behind a DATA that was answered with an error.
use icesmtp.Engine.Data.Ends.{IsRefused, Outcome}
use icesmtp.Engine.Data.Outcome.{handle_data-Outcome}
use icesmtp.Engine.Data.{handle_data}
use icesmtp.Engine.Loop.Wedge.{
  IsWedged, TurnIsWedged, turn-IsWedged, Passes, Passes-IsWedged, so_far, write_response-Refuses,
}
use icesmtp.Engine.Loop.{reply, settle, turn}
use icesmtp.Engine.State.{Engine, write_response}
use icesmtp.Envelope.Build.{Builder}
use icesmtp.Parser.{Command}
use icesmtp.Prelude.{◌≤◌, [], Option, none, some, ◌≡◌, ap, inl, inr, true, arith}
use icesmtp.Protocol.Command.{data_cmd, is_command_allowed}
use icesmtp.Protocol.Reply.{Response, is_positive}
use icesmtp.Session.Connection.{Failure}
use mathlib.Core.Path.{subst}

Outcome-IsRefused :
    (b : Builder) (e f : Engine) (r : Response) → 400 ≤ r.code → Outcome b e f r → IsRefused e f r
Outcome-IsRefused b e f r bad (inl (m, h, _)) = absurd (omega (arith, bad, h.says_ok))
Outcome-IsRefused b e f r bad (inr (inl (h, _))) = h
Outcome-IsRefused b e f r bad (inr (inr (h, _))) =
    absurd (omega (arith, bad, ap (λ (q : Response). q.code) h.zero_response))

settle_lem :
    (r : Response) (k h : Engine) (why o : Option Failure)
    → 400 ≤ r.code
    → settle r (k, why) ≡ some (h, o)
    → k ≡ h
unfolding is_positive
settle_lem r k h none o bad settled = ground arith
settle_lem r k h (some f) o bad settled = ground arith

reply-IsWedged :
    (e g h : Engine) (r : Response) (o : Option Failure)
    → 400 ≤ r.code
    → IsRefused e g r
    → reply (some (g, r)) ≡ some (h, o)
    → IsWedged e.stored g.conn.sent h
unfolding write_response
reply-IsWedged e g h r o bad refused replied =
    let (k, why) = write_response r g in
    subst (IsWedged e.stored g.conn.sent) (settle_lem r k h why o bad replied) (record {
      stays = inl refused.stuck;
      shown = refused.shows;
      nothing_new = refused.not_stored;
      refuses = write_response-Refuses g.conn.sent r g bad so_far;
    })

-- Behind an allowed DATA that is answered with an error, the session is of no use. Whatever the
-- client sends, RSET, EHLO and QUIT included, however often the main loop goes on, and whether the
-- session ever returns or not: at each engine that it goes on from, and behind its next round,
-- which does not panic, the machine is in Data or aborted, the session shows Identified, no message
-- was stored since before the DATA, and every response since the prompt, that of the DATA included,
-- is an error.
pub turn_after_failure :
    (cmd : Command) (e g h f : Engine) (b : Builder) (r : Response) (o : Option Failure)
    → is_command_allowed e.sm.state data_cmd ≡ true
    → e.envelope ≡ some b
    → b.content ≡ []
    → handle_data cmd e ≡ some (g, r)
    → 400 ≤ r.code
    → reply (some (g, r)) ≡ some (h, o)
    → Passes h f
    → IsWedged e.stored g.conn.sent f × TurnIsWedged e.stored g.conn.sent (turn f)
turn_after_failure cmd e g h f b r o allowed has_envelope empty answered bad replied on =
    let refused =
      Outcome-IsRefused b e g r bad
        (handle_data-Outcome cmd e g b r allowed has_envelope empty answered) in
    let wedged = Passes-IsWedged (reply-IsWedged e g h r o bad refused replied) on in
    (wedged, turn-IsWedged f wedged)
