-- ===== src/Application/Samples.antt =====
-- A state with the snapshot of the domain's samples, and the cancellation of its Task `a`.
use agent_task_orchestrator.Base.{
  ◌≡◌, refl, [], ◌∷◌, none, some, text, true, is_unique, includes, same, before, map, sort, insert,
  length, ◌<◌, arith,
}
use agent_task_orchestrator.Domain.States.{TaskState}
use agent_task_orchestrator.Domain.Records.{DomainMutation, CancellationEvent}
use agent_task_orchestrator.Domain.Value.{well_formed_text, encoded_bytes}
use agent_task_orchestrator.Domain.Samples.{ascii, task, projects, snapshot, program}
use agent_task_orchestrator.Domain.Transition.{cancel, verification_for_cancel}
use agent_task_orchestrator.Domain.Transition.Receipts.{
  waiting_from_input, parse_dependent_waiting, dependent_entries,
}
use agent_task_orchestrator.Domain.Transition.Cancel.{
  wait_dependent, wait_dependents, cancel_with_direct_dependents,
}
use agent_task_orchestrator.Authorization.Samples.{grants}
use agent_task_orchestrator.Application.Model.{
  TaskTarget, ApplicationCommand, ApplicationState, ExecutionStatus, Outcome,
}
use agent_task_orchestrator.Application.Commands.{domain_mutation, review_dependency}
use agent_task_orchestrator.Application.Grants.{grant_key, matches}

abbrev pub state : ApplicationState
state = record {
  domain = snapshot;
  grants = grants;
  identity_actor = some (text "ann");
  bootstrap_actor = none;
  executions =
      record { execution_id = text "x"; task_id = text "c"; status = ExecutionStatus.active } ∷ [];
}

abbrev pub target : TaskTarget
target = record {
  project_id = text "p";
  expected_project_resource_revision = 1;
  task_id = text "a";
  expected_task_revision = 1;
}

abbrev pub command : ApplicationCommand
command = ApplicationCommand.task_cancel target (text "not needed")

abbrev pub cancellation : DomainMutation
cancellation = record {
  snapshot = record {
    projects = projects;
    tasks =
        record (task "a" TaskState.cancelled 2 []) {
          cancellation = some (record {
            trigger = CancellationEvent.cancel;
            reason = text "not needed";
            verification_id = none;
            accepted_task_revision = 1;
          });
        }
        ∷ record (task "b" TaskState.waiting 3 (text "a" ∷ [])) {
          waiting = some (record { input = review_dependency; waiting_task_revision = 3 });
        }
        ∷ task "c" TaskState.running 3 (text "a" ∷ text "b" ∷ [])
        ∷ task "d" TaskState.ready 4 []
        ∷ [];
  };
  changed_task_ids = text "a" ∷ text "b" ∷ [];
}

pub cancels : domain_mutation command state ≡ Outcome.mutated cancellation
unfolding program domain_mutation cancel cancel_with_direct_dependents wait_dependents
    wait_dependent waiting_from_input parse_dependent_waiting dependent_entries
    verification_for_cancel well_formed_text encoded_bytes
cancels = refl

pub grants_unique : is_unique (map grant_key state.grants) ≡ true
unfolding is_unique includes same
grants_unique = refl

pub two_listed : length (matches state none) < 3
unfolding matches sort insert same before
two_listed = omega arith
