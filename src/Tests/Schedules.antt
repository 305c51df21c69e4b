-- ===== src/Tests/Schedules.antt =====
-- A client that sends NOOP and QUIT, one by one or at once.
use icesmtp.Engine.Arrival.Schedule.{
  System, Step, arrive, serve, Reach, here, onward, Ends, ends, run_loop-Reach, Reach-Ends, whole,
}
use icesmtp.Engine.Arrival.{extend, IsWithin}
use icesmtp.Engine.Greet.{handle_noop, handle_quit}
use icesmtp.Engine.Loop.{
  Turn, leave, again, panic, finish, run_loop, turn, process_one_command, run_command,
  handle_command,
}
use icesmtp.Engine.State.{Engine, new_engine}
use icesmtp.Parser.{parse_command}
use icesmtp.Protocol.Command.{
  is_command_allowed, command_requires_argument, command_forbids_argument,
}
use icesmtp.Parser.Line.{parse_command_verb}
use icesmtp.Text.Case.{to_upper}
use icesmtp.Text.Space.{trim_space}
use icesmtp.Protocol.Machine.{transition, transition_for_command}
use icesmtp.Prelude.{ℕ, ◌+◌, Bool, true, false, List, [], ◌∷◌, none, ◌≡◌, refl}
use icesmtp.Protocol.State.{identified, start_tls, same}
use icesmtp.Session.Config.{normal}
use icesmtp.Session.Connection.{Read}
use icesmtp.Tests.Sample.{server_in, crlf}

abbrev empty_handed : Engine
empty_handed = server_in identified none [] []

abbrev noop_line : Read
noop_line = crlf "NOOP"

abbrev quit_line : Read
quit_line = crlf "QUIT"

abbrev system : List Read → Engine → System
system pending e = record { pending = pending; engine = e }

abbrev behind : Turn → Engine
behind (again f) = f
behind (leave _ _ f) = f
behind _ = empty_handed

-- The engines behind the turns, when the lines come one by one.
abbrev after_noop : Engine
after_noop = behind (turn (extend (noop_line ∷ []) empty_handed))

abbrev after_quit : Engine
after_quit = behind (turn (extend (quit_line ∷ []) after_noop))

-- And when they come at once.
abbrev before_quit : Engine
before_quit = behind (turn (extend (quit_line ∷ []) (extend (noop_line ∷ []) empty_handed)))

abbrev behind_quit : Engine
behind_quit = behind (turn before_quit)

abbrev goes_on : Turn → Bool
goes_on (again f) = true
goes_on _ = false

-- The turn of an engine that goes on.
take_turn :
    (pending : List Read) (e : Engine)
    → same e.session.state start_tls ≡ false
    → goes_on (turn e) ≡ true
    → IsWithin e (behind (turn e))
    → Step (system pending e) (system pending (behind (turn e)))
take_turn pending e plain goes within = serve plain (again-behind (turn e) goes) within
  where
    again-behind : (t : Turn) → goes_on t ≡ true → t ≡ again (behind t)
    again-behind (again f) h = refl
    again-behind (leave _ _ f) h = cc
    again-behind panic h = cc

serve_noop :
    Step
      (system (quit_line ∷ []) (extend (noop_line ∷ []) empty_handed))
      (system (quit_line ∷ []) after_noop)
unfolding turn process_one_command run_command handle_command handle_noop handle_quit parse_command
    is_command_allowed command_requires_argument command_forbids_argument parse_command_verb
    to_upper trim_space transition transition_for_command new_engine
serve_noop = take_turn (quit_line ∷ []) (extend (noop_line ∷ []) empty_handed) refl refl refl

serve_quit : Step (system [] (extend (quit_line ∷ []) after_noop)) (system [] after_quit)
unfolding turn process_one_command run_command handle_command handle_noop handle_quit parse_command
    is_command_allowed command_requires_argument command_forbids_argument parse_command_verb
    to_upper trim_space transition transition_for_command new_engine
serve_quit = take_turn [] (extend (quit_line ∷ []) after_noop) refl refl refl

serve_noop_first :
    Step
      (system [] (extend (quit_line ∷ []) (extend (noop_line ∷ []) empty_handed)))
      (system [] before_quit)
unfolding turn process_one_command run_command handle_command handle_noop handle_quit parse_command
    is_command_allowed command_requires_argument command_forbids_argument parse_command_verb
    to_upper trim_space transition transition_for_command new_engine
serve_noop_first =
    take_turn [] (extend (quit_line ∷ []) (extend (noop_line ∷ []) empty_handed)) refl refl refl

serve_quit_next : Step (system [] before_quit) (system [] behind_quit)
unfolding turn process_one_command run_command handle_command handle_noop handle_quit parse_command
    is_command_allowed command_requires_argument command_forbids_argument parse_command_verb
    to_upper trim_space transition transition_for_command new_engine
serve_quit_next = take_turn [] before_quit refl refl refl

one_by_one : Reach (system (noop_line ∷ quit_line ∷ []) empty_handed) (system [] after_quit)
one_by_one = onward arrive (onward serve_noop (onward arrive (onward serve_quit here)))

at_once : Reach (system (noop_line ∷ quit_line ∷ []) empty_handed) (system [] behind_quit)
at_once = onward arrive (onward arrive (onward serve_noop_first (onward serve_quit_next here)))

left_one_by_one : Ends (system [] after_quit) (finish normal none after_quit)
unfolding turn process_one_command run_command handle_command handle_noop handle_quit parse_command
    is_command_allowed command_requires_argument command_forbids_argument parse_command_verb
    to_upper trim_space transition transition_for_command new_engine
left_one_by_one = ends {e = after_quit} {f = after_quit} refl refl refl

left_at_once : Ends (system [] behind_quit) (finish normal none behind_quit)
unfolding turn process_one_command run_command handle_command handle_noop handle_quit parse_command
    is_command_allowed command_requires_argument command_forbids_argument parse_command_verb
    to_upper trim_space transition transition_for_command new_engine
left_at_once = ends {e = behind_quit} {f = behind_quit} refl refl refl

run_loop-Reach_example :
    (n : ℕ) × ((k : ℕ)
      → run_loop (n + k) (whole (system (noop_line ∷ quit_line ∷ []) empty_handed))
        ≡ run_loop k (whole (system [] after_quit)))
run_loop-Reach_example = run_loop-Reach one_by_one

Reach-Ends_example : finish normal none after_quit ≡ finish normal none behind_quit
Reach-Ends_example = Reach-Ends one_by_one left_one_by_one at_once left_at_once
