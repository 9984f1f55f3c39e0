-- ===== src/Domain/CancelWitnesses.antt =====
-- The Task `a` of the samples is cancelled, on which the ready Task `b` depends.
use agent_task_orchestrator.Base.{◌≡◌, refl, true, List, [], ◌∷◌, none, some, text}
use agent_task_orchestrator.Domain.States.{TaskState, WaitingReason, TransitionEvent}
use agent_task_orchestrator.Domain.Errors.{ok, DomainSuccess}
use agent_task_orchestrator.Domain.Records.{
  Task, DomainMutation, CancellationFact, CancellationEvent, DependentWaitingInput,
  WaitingMetadataInput,
}
use agent_task_orchestrator.Domain.Graph.{task_of}
use agent_task_orchestrator.Domain.Transition.Receipts.{waiting_from_input}
use agent_task_orchestrator.Domain.Transition.Cancel.{
  transitioned, wait_dependent, wait_dependents, cancel_with_direct_dependents,
}
use agent_task_orchestrator.Domain.Transition.Cancel.Affected.{AreAffected}
use agent_task_orchestrator.Domain.Transition.Cancel.Effect.{
  IsCancelled, cancel_with_direct_dependents_effect,
}
use agent_task_orchestrator.Domain.Samples.{
  ascii, task, projects, tasks, given, snapshot, program, parse-given,
}

abbrev pub task_a : Task
task_a = task "a" TaskState.idea 1 []

abbrev task_b : Task
task_b = task "b" TaskState.ready 2 (text "a" ∷ [])

abbrev fact : CancellationFact
fact = record {
  trigger = CancellationEvent.cancel;
  reason = text "not needed";
  verification_id = none;
  accepted_task_revision = 1;
}

abbrev pub wait_of_b : WaitingMetadataInput
wait_of_b = record {
  reason = WaitingReason.dependency_cancelled;
  phase = text "dependency";
  required_action = text "replan";
  last_error_code = text "DEPENDENCY_CANCELLED";
  last_error_summary = none;
  retryable = true;
  retry_count = 0;
  retry_after = none;
  execution_id = none;
  workspace_revision = none;
  backend_thread_id = none;
}

abbrev inputs : List DependentWaitingInput
inputs = record { task_id = text "b"; waiting = wait_of_b } ∷ []

abbrev pub cancelled : DomainSuccess DomainMutation
cancelled = record {
  value = record {
    snapshot = record {
      projects = projects;
      tasks =
          record (task "a" TaskState.cancelled 2 []) { cancellation = some fact }
          ∷ record (task "b" TaskState.waiting 3 (text "a" ∷ [])) {
            waiting = some (record { input = wait_of_b; waiting_task_revision = 3 });
          }
          ∷ task "c" TaskState.running 3 (text "a" ∷ text "b" ∷ [])
          ∷ task "d" TaskState.ready 4 []
          ∷ [];
    };
    changed_task_ids = text "a" ∷ text "b" ∷ [];
  };
  events =
      transitioned task_a 2 TransitionEvent.cancel TaskState.cancelled
      ∷ transitioned task_b 3 TransitionEvent.dependency_cancelled TaskState.waiting
      ∷ [];
}

pub a_registered : task_of tasks (text "a") ≡ some task_a
unfolding program
a_registered = refl

cancels :
    cancel_with_direct_dependents snapshot task_a fact inputs TransitionEvent.cancel ≡ ok cancelled
unfolding program cancel_with_direct_dependents wait_dependents wait_dependent waiting_from_input
cancels = refl

cancel_with_direct_dependents_effect_example :
    AreAffected snapshot (text "a") inputs × IsCancelled snapshot task_a fact cancelled
cancel_with_direct_dependents_effect_example =
    cancel_with_direct_dependents_effect given snapshot task_a fact inputs TransitionEvent.cancel
      cancelled parse-given a_registered cancels
