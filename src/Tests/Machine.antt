-- ===== src/Tests/Machine.antt =====
-- The theorems on the state machine, at concrete inputs.
use icesmtp.Prelude.{true, none, [], ◌∷◌, ◌≡◌, refl}
use icesmtp.Protocol.Command.{mail, quit, is_command_allowed, ehlo}
use icesmtp.Protocol.Machine.Paths.{
  IsTrail, command, connect_call, greet_call, perform_all, perform_all-IsTraced,
}
use icesmtp.Protocol.Machine.Table.{is_command_allowed-eq, transition_for_command_allowed}
use icesmtp.Protocol.Machine.{
  StateMachine, new_state_machine, transition_for_command, next_state_for_command,
  is_state_valid_for_command,
}
use icesmtp.Protocol.State.{disconnected, identified, receiving, State}

is_command_allowed-eq_example :
    is_command_allowed receiving quit ≡ is_state_valid_for_command receiving quit
is_command_allowed-eq_example = is_command_allowed-eq receiving quit

abbrev machine_in : State → StateMachine
machine_in s = record { state = s; observed = [] }

transition_for_command_allowed_example :
    ((transition_for_command (machine_in identified) mail true).1 ≡ none)
    × ((transition_for_command (machine_in identified) mail true).0.state
        ≡ next_state_for_command identified mail)
unfolding is_command_allowed
transition_for_command_allowed_example =
    transition_for_command_allowed (machine_in identified) mail refl

perform_all-IsTraced_example :
    let sm = perform_all new_state_machine (connect_call ∷ greet_call ∷ command ehlo true ∷ []) in
    IsTrail disconnected sm.observed sm.state
perform_all-IsTraced_example =
    perform_all-IsTraced (connect_call ∷ greet_call ∷ command ehlo true ∷ [])
