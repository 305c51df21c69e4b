-- ===== src/Protocol/Machine.antt =====
-- statemachine.go: `StateMachine`, a state that only the transitions of a table may change.
pub mod Table
pub mod Paths
use icesmtp.Prelude.{
  Bool, Bytes, codes, equal, true, false, not, List, [], ◌∷◌, ◌++◌, Option, none, some, ◌||◌,
  if◌then◌else◌,
}
use icesmtp.Protocol.Command.{
  CommandVerb, helo, ehlo, mail, rcpt, data_cmd, rset, noop, quit, vrfy, expn, help, starttls, auth,
}
use icesmtp.Protocol.State
use icesmtp.Protocol.State.{
  State, disconnected, connected, greeted, identified, mail_from, rcpt_to, receiving, data_done,
  start_tls, terminating, terminated, aborted, same, in_transaction,
}

-- What an observer is told. An empty `Command` is `none`; no code sets one.
pub record StateTransition : Type 0 where
  pub from : State
  pub to : State
  pub command : Option CommandVerb
  pub success : Bool

pub record StateTransitionError : Type 0 where
  pub current : State
  pub attempted : State
  pub command : Option CommandVerb
  pub message : Bytes

-- `StateTransitionError.Error`.
unfoldable pub spell_error : StateTransitionError → Bytes
unfolding State.spell
spell_error e =
    if not (equal e.message [])
    then e.message
    else codes "invalid state transition from "
      ++ (codes (State.spell e.current) ++ (codes " to " ++ codes (State.spell e.attempted)))

-- The transition, and the error, that the methods make.
abbrev pub moved : State → State → StateTransition
moved from to = record { from = from; to = to; command = none; success = true }

abbrev refused : State → State → Bytes → StateTransitionError
refused current attempted message = record {
  current = current;
  attempted = attempted;
  command = none;
  message = message;
}

-- The observer is the list of the notifications that it got, the latest last.
pub record StateMachine : Type 0 where
  pub state : State
  pub observed : List StateTransition

unfoldable pub new_state_machine : StateMachine
new_state_machine = record { state = disconnected; observed = [] }

abbrev pub includes : List State → State → Bool
includes [] s = false
includes (x ∷ xs) s = same x s || includes xs s

unfoldable pub valid_transitions : State → List State
valid_transitions disconnected = connected ∷ []
valid_transitions connected = greeted ∷ terminated ∷ aborted ∷ []
valid_transitions greeted = identified ∷ terminating ∷ aborted ∷ []
valid_transitions identified = identified ∷ mail_from ∷ start_tls ∷ terminating ∷ aborted ∷ []
valid_transitions mail_from = rcpt_to ∷ identified ∷ terminating ∷ aborted ∷ []
valid_transitions rcpt_to = rcpt_to ∷ receiving ∷ identified ∷ terminating ∷ aborted ∷ []
valid_transitions receiving = data_done ∷ aborted ∷ []
valid_transitions data_done = identified ∷ terminating ∷ aborted ∷ []
valid_transitions start_tls = greeted ∷ aborted ∷ []
valid_transitions terminating = terminated ∷ []
valid_transitions terminated = []
valid_transitions aborted = []

unfoldable pub can_transition : StateMachine → State → Bool
unfolding valid_transitions
can_transition sm new_state = includes (valid_transitions sm.state) new_state

-- A method that changes the machine returns the new one, and its error if there is one.
unfoldable pub transition : StateMachine → State → StateMachine × Option StateTransitionError
unfolding can_transition
transition sm new_state =
    if not (can_transition sm new_state) then (sm, some (refused sm.state new_state [])) else (
      record { state = new_state; observed = sm.observed ++ moved sm.state new_state ∷ [] },
      none,
    )

unfoldable pub next_state_for_command : State → CommandVerb → State
unfolding in_transaction
next_state_for_command s helo = identified
next_state_for_command s ehlo = identified
next_state_for_command s mail = mail_from
next_state_for_command s rcpt = rcpt_to
next_state_for_command s data_cmd = receiving
next_state_for_command s rset = if in_transaction s then identified else s
next_state_for_command s quit = terminating
next_state_for_command s starttls = start_tls
next_state_for_command s _ = s

-- The source also returns the state, which is that of the new machine.
unfoldable pub transition_for_command :
    StateMachine → CommandVerb → Bool → StateMachine × Option StateTransitionError
unfolding next_state_for_command transition
transition_for_command sm cmd success =
    let new_state = next_state_for_command sm.state cmd in
    if not success
    then (sm, none)
    else if same new_state sm.state
    then (sm, none)
    else transition sm new_state

-- `Reset` drops the error of its transition.
unfoldable pub reset : StateMachine → StateMachine
unfolding transition in_transaction
reset sm =
    if in_transaction sm.state || same sm.state data_done then (transition sm identified).0 else sm

-- The shape that `Connect`, `Greet`, `DataComplete` and `TLSComplete` share.
abbrev from_only : State → State → Bytes → StateMachine → StateMachine × Option StateTransitionError
from_only required target message sm =
    if not (same sm.state required)
    then (sm, some (refused sm.state target message))
    else transition sm target

unfoldable pub connect : StateMachine → StateMachine × Option StateTransitionError
unfolding transition
connect = from_only disconnected connected (codes "already connected")

unfoldable pub greet : StateMachine → StateMachine × Option StateTransitionError
unfolding transition
greet = from_only connected greeted (codes "not in connected state")

unfoldable pub data_complete : StateMachine → StateMachine × Option StateTransitionError
unfolding transition
data_complete = from_only receiving data_done (codes "not in data state")

unfoldable pub tls_complete : StateMachine → StateMachine × Option StateTransitionError
unfolding transition
tls_complete = from_only start_tls greeted (codes "not in STARTTLS state")

unfoldable pub terminate : StateMachine → StateMachine × Option StateTransitionError
unfolding transition
terminate sm = transition sm terminated

unfoldable pub abort : StateMachine → StateMachine × Option StateTransitionError
unfolding transition
abort sm = transition sm aborted

-- `CommandStateRequirements`; a verb that the map lacks is `none`.
unfoldable pub command_state_requirements : CommandVerb → Option (List State)
command_state_requirements helo = some (greeted ∷ identified ∷ [])
command_state_requirements ehlo = some (greeted ∷ identified ∷ [])
command_state_requirements mail = some (identified ∷ [])
command_state_requirements rcpt = some (mail_from ∷ rcpt_to ∷ [])
command_state_requirements data_cmd = some (rcpt_to ∷ [])
command_state_requirements rset = some (greeted ∷ identified ∷ mail_from ∷ rcpt_to ∷ [])
command_state_requirements noop = some (greeted ∷ identified ∷ mail_from ∷ rcpt_to ∷ [])
command_state_requirements quit = some (greeted ∷ identified ∷ mail_from ∷ rcpt_to ∷ [])
command_state_requirements vrfy = some (identified ∷ [])
command_state_requirements expn = some (identified ∷ [])
command_state_requirements help = some (greeted ∷ identified ∷ mail_from ∷ rcpt_to ∷ [])
command_state_requirements starttls = some (identified ∷ [])
command_state_requirements auth = some (identified ∷ [])
command_state_requirements _ = none

unfoldable pub is_state_valid_for_command : State → CommandVerb → Bool
unfolding command_state_requirements
is_state_valid_for_command state cmd = elim (command_state_requirements cmd) [
  | none ↦ false
  | some valid_states ↦ includes valid_states state
]
