-- ===== src/Protocol/Machine/Table.antt =====
-- The two tables of commands by state agree, and no allowed command meets a refused transition.
use icesmtp.Prelude.{true, false, none, ◌≡◌, ◌&&◌, not, arith}
use icesmtp.Protocol.Command.{CommandVerb, noop, is_command_allowed}
use icesmtp.Protocol.Machine.{
  StateMachine, is_state_valid_for_command, next_state_for_command, transition_for_command,
}
use icesmtp.Protocol.State.{State, can_accept_commands}

-- `AllowedCommands` of command.go and `CommandStateRequirements` of statemachine.go say the same
-- of every state and every verb.
pub is_command_allowed-eq :
    (s : State) (c : CommandVerb) → is_command_allowed s c ≡ is_state_valid_for_command s c
unfolding is_command_allowed is_state_valid_for_command
is_command_allowed-eq s c = ground arith

-- A command that the state allows moves the machine, when it succeeds, to the state that
-- `nextStateForCommand` names, and its transition is never refused.
pub transition_for_command_allowed :
    (sm : StateMachine) (c : CommandVerb)
    → is_command_allowed sm.state c ≡ true
    → ((transition_for_command sm c true).1 ≡ none)
      × ((transition_for_command sm c true).0.state ≡ next_state_for_command sm.state c)
unfolding is_command_allowed transition_for_command
transition_for_command_allowed sm c h = ground arith

-- NOOP is allowed in exactly the states in which `CanAcceptCommands` holds, and in every other
-- state no command is.
can_accept_commands_iff :
    (s : State) (c : CommandVerb)
    → (is_command_allowed s noop ≡ can_accept_commands s)
      × (is_command_allowed s c && not (can_accept_commands s) ≡ false)
unfolding is_command_allowed can_accept_commands
can_accept_commands_iff s c = (ground arith, ground arith)
