-- ===== src/Protocol/Machine/Paths.antt =====
-- What the observer sees, over every sequence of calls of the machine's methods.
use icesmtp.Prelude.{
  Bytes, Bool, true, not, ◌||◌, List, [], ◌∷◌, ◌++◌, ◌≡◌, ◌⊎◌, inl, inr, refl, ◌∙◌, arith,
  Bool-cases, if◌then◌else◌,
}
use icesmtp.Protocol.Command.{CommandVerb}
use icesmtp.Protocol.Machine.{
  StateMachine, StateTransition, moved, new_state_machine, includes, valid_transitions, transition,
  next_state_for_command, transition_for_command, reset, connect, greet, data_complete,
  tls_complete, terminate, abort, from_only,
}
use icesmtp.Protocol.State.{
  State, disconnected, is_terminal, same, in_transaction, identified, mail_from, rcpt_to, data_done,
}

-- The notifications lead from the first state to the last along edges of the table.
pub data IsTrail (first : State) : List StateTransition → State → Type 0 where
  start : IsTrail first [] first
  edge :
      {log : List StateTransition} {s t : State}
      → IsTrail first log s
      → includes (valid_transitions s) t ≡ true
      → IsTrail first (log ++ moved s t ∷ []) t

abbrev IsTraced : StateMachine → Type 0
IsTraced sm = IsTrail disconnected sm.observed sm.state

-- The methods of the machine that may change it.
pub data Call : Type 0 where
  to : State → Call
  command : CommandVerb → Bool → Call
  reset_call connect_call greet_call data_complete_call tls_complete_call : Call
  terminate_call abort_call : Call

pub perform : Call → StateMachine → StateMachine
perform (to s) sm = (transition sm s).0
perform (command c success) sm = (transition_for_command sm c success).0
perform reset_call sm = reset sm
perform connect_call sm = (connect sm).0
perform greet_call sm = (greet sm).0
perform data_complete_call sm = (data_complete sm).0
perform tls_complete_call sm = (tls_complete sm).0
perform terminate_call sm = (terminate sm).0
perform abort_call sm = (abort sm).0

pub perform_all : StateMachine → List Call → StateMachine
perform_all sm [] = sm
perform_all sm (c ∷ cs) = perform_all (perform c sm) cs

abbrev AtMostOne : StateMachine → StateMachine → Type 0
AtMostOne sm sm' = (sm' ≡ sm) ⊎ ((s : State) × (sm' ≡ (transition sm s).0))

from_only-AtMostOne :
    (required target : State) (message : Bytes) (sm : StateMachine)
    → AtMostOne sm (from_only required target message sm).0
from_only-AtMostOne required target message sm = elim (Bool-cases (not (same sm.state required))) [
  | inl wrong ↦ inl (rw wrong)
  | inr right ↦ inr (target, rw right)
]

command-AtMostOne :
    (c : CommandVerb) (success : Bool) (sm : StateMachine)
    → AtMostOne sm (transition_for_command sm c success).0
unfolding transition_for_command
command-AtMostOne c success sm = elim (Bool-cases (not success)) [
  | inl failed ↦ inl (rw failed)
  | inr worked ↦ elim (Bool-cases (same (next_state_for_command sm.state c) sm.state)) [
    | inl stays ↦ inl (rw (worked, stays))
    | inr moves ↦ inr (next_state_for_command sm.state c, rw (worked, moves))
  ]
]

reset-AtMostOne : (sm : StateMachine) → AtMostOne sm (reset sm)
unfolding reset
reset-AtMostOne sm = elim (Bool-cases (in_transaction sm.state || same sm.state data_done)) [
  | inl yes_reset ↦ inr (identified, rw yes_reset)
  | inr stays ↦ inl (rw stays)
]

-- A call leaves the machine as it was, or makes one transition.
perform-AtMostOne : (c : Call) (sm : StateMachine) → AtMostOne sm (perform c sm)
unfolding perform connect greet data_complete tls_complete terminate abort
perform-AtMostOne (to s) sm = inr (s, refl)
perform-AtMostOne (command c success) sm = command-AtMostOne c success sm
perform-AtMostOne reset_call sm = reset-AtMostOne sm
perform-AtMostOne connect_call sm = from_only-AtMostOne _ _ _ sm
perform-AtMostOne greet_call sm = from_only-AtMostOne _ _ _ sm
perform-AtMostOne data_complete_call sm = from_only-AtMostOne _ _ _ sm
perform-AtMostOne tls_complete_call sm = from_only-AtMostOne _ _ _ sm
perform-AtMostOne terminate_call sm = inr (_, refl)
perform-AtMostOne abort_call sm = inr (_, refl)

transition-IsTraced : (sm : StateMachine) (s : State) → IsTraced sm → IsTraced (transition sm s).0
unfolding transition
transition-IsTraced sm s h = elim (Bool-cases (includes (valid_transitions sm.state) s)) [
  | inl valid ↦ rw valid (edge h valid)
  | inr refused ↦ rw refused h
]

perform-IsTraced : (c : Call) (sm : StateMachine) → IsTraced sm → IsTraced (perform c sm)
perform-IsTraced c sm h = elim (perform-AtMostOne c sm) [
  | inl unchanged ↦ rw unchanged h
  | inr (s, changed) ↦ rw changed (transition-IsTraced sm s h)
]

perform_all-trail :
    (cs : List Call) (sm : StateMachine) → IsTraced sm → IsTraced (perform_all sm cs)
unfolding perform_all
perform_all-trail [] sm h = h
perform_all-trail (c ∷ cs) sm h = perform_all-trail cs (perform c sm) (perform-IsTraced c sm h)

-- Whatever methods are called, in whatever order, on a new machine: the observer's notifications
-- are a path through the transition table that starts at Disconnected and ends at the current
-- state, so no transition outside the table is made and none goes unobserved.
pub perform_all-IsTraced :
    (cs : List Call)
    → let sm = perform_all new_state_machine cs in IsTrail disconnected sm.observed sm.state
unfolding new_state_machine
perform_all-IsTraced cs = perform_all-trail cs new_state_machine start

transition_of_is_terminal :
    (sm : StateMachine) (s : State) → is_terminal sm.state ≡ true → (transition sm s).0 ≡ sm
unfolding transition is_terminal
transition_of_is_terminal sm s h = ground arith

-- A machine that has terminated or was aborted is never changed again, by any sequence of calls.
perform_all_of_is_terminal :
    (cs : List Call) (sm : StateMachine) → is_terminal sm.state ≡ true → perform_all sm cs ≡ sm
unfolding perform_all
perform_all_of_is_terminal [] sm h = refl
perform_all_of_is_terminal (c ∷ cs) sm h = elim (perform-AtMostOne c sm) [
  | inl unchanged ↦ rw unchanged (perform_all_of_is_terminal cs sm h)
  | inr (s, moved) ↦
      rw (moved ∙ transition_of_is_terminal sm s h) (perform_all_of_is_terminal cs sm h)
]

-- `Reset` goes to Identified from MailFrom, RcptTo and DataDone, with one notification, and in
-- every other state, Data included, it changes nothing.
reset_lem :
    (sm : StateMachine)
    → reset sm ≡ (
        if same sm.state mail_from || same sm.state rcpt_to || same sm.state data_done
        then record { state = identified; observed = sm.observed ++ moved sm.state identified ∷ [] }
        else sm)
unfolding reset
reset_lem sm = ground arith
