-- ===== src/Domain/CancelTransitions.antt =====
-- The transition that cancels `a` by a command.
use agent_task_orchestrator.Base.{◌≡◌, refl, [], ◌∷◌, text}
use agent_task_orchestrator.Domain.States.{TransitionEvent}
use agent_task_orchestrator.Domain.Errors.{ok}
use agent_task_orchestrator.Domain.Records.{CancellationEvent}
use agent_task_orchestrator.Domain.Value.{
  Value, Fields, nil, item, end, field, identifier, transition_event, well_formed_text,
  encoded_bytes,
}
use agent_task_orchestrator.Domain.Encode.{constant, waiting_input_value}
use agent_task_orchestrator.Domain.Mutation.{parse_task_command, invalid_input}
use agent_task_orchestrator.Domain.Transition.{dispatch, cancel, verification_for_cancel}
use agent_task_orchestrator.Domain.Transition.Receipts.{
  waiting_from_input, parse_dependent_waiting, dependent_entries,
}
use agent_task_orchestrator.Domain.Transition.Cancel.{
  wait_dependent, wait_dependents, cancel_with_direct_dependents,
}
use agent_task_orchestrator.Domain.Transition.Effect.{Step}
use agent_task_orchestrator.Domain.Transition.Moves.{IsTransition}
use agent_task_orchestrator.Domain.Transition.Cancelling.{IsCancelledBy, transition_task_cancel}
use agent_task_orchestrator.Domain.CancelWitnesses.{task_a, wait_of_b, cancelled, a_registered}
use agent_task_orchestrator.Domain.Samples.{ascii, given, snapshot, program, parse-given}

abbrev payload : Value
payload = Value.object (
    field "reason" (constant "not needed") (
      field "executionDisposition" Value.null (
        field "dependentWaiting"
          (Value.array (
            item
              (Value.object (
                field "taskId" (constant "b")
                  (field "waiting" (waiting_input_value wait_of_b) end)))
              nil))
          end)))

abbrev fields : Fields
fields = field "taskId" (constant "a") (
    field "event" (constant "cancel")
      (field "targetState" (constant "cancelled") (field "payload" payload end)))

cancel_reads :
    parse_task_command (Value.object fields) ("taskId" ∷ "event" ∷ "targetState" ∷ "payload" ∷ [])
    ≡ ok fields
unfolding program
cancel_reads = refl

cancel_names : identifier (constant "a") invalid_input ≡ ok (text "a")
unfolding program
cancel_names = refl

cancel_asks : transition_event (constant "cancel") invalid_input ≡ ok TransitionEvent.cancel
unfolding program
cancel_asks = refl

cancel_done : dispatch TransitionEvent.cancel snapshot task_a payload ≡ ok cancelled
unfolding program cancel cancel_with_direct_dependents wait_dependents wait_dependent
    waiting_from_input parse_dependent_waiting dependent_entries verification_for_cancel
    well_formed_text encoded_bytes
cancel_done = refl

abbrev cancellation : IsTransition given (Value.object fields) cancelled
cancellation = record {
  s = snapshot;
  fields = fields;
  id = text "a";
  trigger = TransitionEvent.cancel;
  read = parse-given;
  given = cancel_reads;
  named = cancel_names;
  asked = cancel_asks;
  taken = record {
    task = task_a;
    known = a_registered;
    alive = refl;
    step = Step.drop_idea;
    done = cancel_done;
  };
}

transition_task_cancel_example : IsCancelledBy CancellationEvent.cancel snapshot task_a cancelled
transition_task_cancel_example =
    transition_task_cancel given (Value.object fields) cancelled cancellation refl
