-- ===== src/Domain/InterruptionWitnesses.antt =====
-- The transition that cancels the running `c` after its interruption.
use agent_task_orchestrator.Base.{◌≡◌, refl, [], ◌∷◌, some, text}
use agent_task_orchestrator.Domain.States.{TaskState, TransitionEvent}
use agent_task_orchestrator.Domain.Errors.{ok, DomainSuccess}
use agent_task_orchestrator.Domain.Records.{Task, DomainMutation, CancellationEvent}
use agent_task_orchestrator.Domain.Value.{
  Value, Fields, nil, end, field, identifier, transition_event, well_formed_text, encoded_bytes,
}
use agent_task_orchestrator.Domain.Encode.{constant, natural}
use agent_task_orchestrator.Domain.Graph.{task_of}
use agent_task_orchestrator.Domain.Mutation.{parse_task_command, invalid_input}
use agent_task_orchestrator.Domain.Transition.{dispatch, interruption_verified}
use agent_task_orchestrator.Domain.Transition.Receipts.{
  parse_dependent_waiting, dependent_entries, parse_execution_disposition,
}
use agent_task_orchestrator.Domain.Transition.Cancel.{
  transitioned, wait_dependents, cancel_with_direct_dependents,
}
use agent_task_orchestrator.Domain.Transition.Effect.{Step}
use agent_task_orchestrator.Domain.Transition.Moves.{IsTransition}
use agent_task_orchestrator.Domain.Transition.Cancelling.{
  IsCancelledBy, transition_task_interruption,
}
use agent_task_orchestrator.Domain.Samples.{
  ascii, task, projects, given, tasks, snapshot, program, parse-given,
}

abbrev task_c : Task
task_c = task "c" TaskState.running 3 (text "a" ∷ text "b" ∷ [])

abbrev payload : Value
payload = Value.object (
    field "reason" (constant "stopped by hand") (
      field "verification"
        (Value.object (
          field "receiptId" (constant "receipt") (
            field "taskId" (constant "c") (
              field "taskRevision" (natural 3)
                (field "executionId" (constant "e") (field "status" (constant "stopped") end))))))
        (field "dependentWaiting" (Value.array nil) end)))

abbrev fields : Fields
fields = field "taskId" (constant "c") (
    field "event" (constant "interruption_verified")
      (field "targetState" (constant "cancelled") (field "payload" payload end)))

abbrev interrupted : DomainSuccess DomainMutation
interrupted = record {
  value = record {
    snapshot = record {
      projects = projects;
      tasks =
          task "a" TaskState.idea 1 []
          ∷ task "b" TaskState.ready 2 (text "a" ∷ [])
          ∷ record (task "c" TaskState.cancelled 4 (text "a" ∷ text "b" ∷ [])) {
            cancellation = some (record {
              trigger = CancellationEvent.interruption_verified;
              reason = text "stopped by hand";
              verification_id = some (text "receipt");
              accepted_task_revision = 3;
            });
          }
          ∷ task "d" TaskState.ready 4 []
          ∷ [];
    };
    changed_task_ids = text "c" ∷ [];
  };
  events = transitioned task_c 4 TransitionEvent.interruption_verified TaskState.cancelled ∷ [];
}

interruption_reads :
    parse_task_command (Value.object fields) ("taskId" ∷ "event" ∷ "targetState" ∷ "payload" ∷ [])
    ≡ ok fields
unfolding program
interruption_reads = refl

interruption_names : identifier (constant "c") invalid_input ≡ ok (text "c")
unfolding program
interruption_names = refl

interruption_asks :
    transition_event (constant "interruption_verified") invalid_input
    ≡ ok TransitionEvent.interruption_verified
unfolding program
interruption_asks = refl

c_of_tasks : task_of tasks (text "c") ≡ some task_c
unfolding program
c_of_tasks = refl

interruption_done :
    dispatch TransitionEvent.interruption_verified snapshot task_c payload ≡ ok interrupted
unfolding program interruption_verified cancel_with_direct_dependents wait_dependents
    parse_dependent_waiting dependent_entries parse_execution_disposition well_formed_text
    encoded_bytes
interruption_done = refl

abbrev interruption : IsTransition given (Value.object fields) interrupted
interruption = record {
  s = snapshot;
  fields = fields;
  id = text "c";
  trigger = TransitionEvent.interruption_verified;
  read = parse-given;
  given = interruption_reads;
  named = interruption_names;
  asked = interruption_asks;
  taken = record {
    task = task_c;
    known = c_of_tasks;
    alive = refl;
    step = Step.interrupt;
    done = interruption_done;
  };
}

transition_task_interruption_example :
    IsCancelledBy CancellationEvent.interruption_verified snapshot task_c interrupted
transition_task_interruption_example =
    transition_task_interruption given (Value.object fields) interrupted interruption refl
