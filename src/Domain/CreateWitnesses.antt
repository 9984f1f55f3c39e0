-- ===== src/Domain/CreateWitnesses.antt =====
-- A Task that is created in the snapshot of the samples.
use agent_task_orchestrator.Base.{◌≡◌, refl, true, false, [], ◌∷◌, ◌++◌, none, some, text}
use agent_task_orchestrator.Domain.States.{TaskState}
use agent_task_orchestrator.Domain.Errors.{ok, DomainSuccess, DomainEventType, event}
use agent_task_orchestrator.Domain.Records.{DomainMutation}
use agent_task_orchestrator.Domain.Parse.{is_text}
use agent_task_orchestrator.Domain.Graph.{task_of}
use agent_task_orchestrator.Domain.Snapshot.{is_defined, project_of}
use agent_task_orchestrator.Domain.Commands.{create_task_command}
use agent_task_orchestrator.Domain.Tasks.{create_task, new_task, is_missing}
use agent_task_orchestrator.Domain.Tasks.Create.{IsExtended, create_task_effect}
use agent_task_orchestrator.Domain.Samples.{
  ascii, projects, tasks, given, snapshot, program, parse-given,
}

abbrev created : DomainSuccess DomainMutation
created = record {
  value = record {
    snapshot = record {
      projects = projects;
      tasks = tasks ++ new_task (text "e") (text "p") (text "new") (some (text "a")) ∷ [];
    };
    changed_task_ids = text "e" ∷ [];
  };
  events = event DomainEventType.created (text "e") none 1 [] ∷ [];
}

creates :
    create_task given (create_task_command (text "e") (text "p") (text "new") (some (text "a")))
    ≡ ok created
unfolding program
creates = refl

create_task_effect_example :
    (task_of tasks (text "e") ≡ none)
    × (is_defined (project_of projects (text "p")) ≡ true)
    × (is_text (some (text "a")) (text "e") ≡ false)
    × (is_missing tasks (some (text "a")) ≡ false)
    × IsExtended snapshot created.value.snapshot (record {
      id = text "e";
      project_id = text "p";
      state = TaskState.idea;
      revision = 1;
      body = text "new";
      parent_id = none;
      dependency_ids = [];
      waiting = none;
      completion = none;
      cancellation = none;
      supersedes_task_id = some (text "a");
    })
    × (created.value.changed_task_ids ≡ text "e" ∷ [])
    × (created.events ≡ event DomainEventType.created (text "e") none 1 [] ∷ [])
create_task_effect_example =
    create_task_effect given snapshot parse-given (text "e") (text "p") (text "new")
      (some (text "a")) created creates
