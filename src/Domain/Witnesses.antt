-- ===== src/Domain/Witnesses.antt =====
-- The theorems of the domain core at concrete snapshots and commands.
use agent_task_orchestrator.Base.{
  ◌≡◌, ◌≢◌, Option, Text, refl, true, false, ◌↔◌, [], ◌∷◌, none, some, text, includes, is_unique,
  is_empty, All, same, inr, In,
}
use agent_task_orchestrator.Domain.States.{TaskState, is_graph_mutable, is_terminal}
use agent_task_orchestrator.Domain.Errors.{
  ok, err, DomainSuccess, DomainEvent, DomainEventType, DomainErrorCode, Place, event, or_null,
}
use agent_task_orchestrator.Domain.Records.{Task, DomainMutation}
use agent_task_orchestrator.Domain.Encode.{snapshot_value, task_value}
use agent_task_orchestrator.Domain.Parse.{parse_task, is_text}
use agent_task_orchestrator.Domain.Parse.Accepted.{IsTask, parse_task-IsTask, parse_task-again}
use agent_task_orchestrator.Domain.Graph.{
  task_of, ids, dependency_cycle, parent_cycle, dependency_reaches, dependencies,
}
use agent_task_orchestrator.Domain.Graph.Reach.{IsAcyclic, Reaches}
use agent_task_orchestrator.Domain.Graph.Acyclic.{dependency_cycle_iff}
use agent_task_orchestrator.Domain.Graph.Parents.{IsHierarchy, parent_cycle_iff}
use agent_task_orchestrator.Domain.Graph.Search.{Leads, dependency_reaches_iff}
use agent_task_orchestrator.Domain.Snapshot.{
  parse_snapshot, SnapshotValidationMode, project_of, is_defined,
}
use agent_task_orchestrator.Domain.Snapshot.WellFormed.{
  IsSnapshot, parse_snapshot-IsSnapshot, parse_snapshot-again,
}
use agent_task_orchestrator.Domain.Mutation.{about_task, candidate}
use agent_task_orchestrator.Domain.Mutation.Effect.{IsCommitted}
use agent_task_orchestrator.Domain.Eligibility.{eligibility_reasons}
use agent_task_orchestrator.Domain.Eligibility.Decision.{
  IsEnabled, IsCompleted, eligibility_reasons_iff,
}
use agent_task_orchestrator.Domain.Commands.{
  update_task_body_command, set_task_parent_command, task_dependency_command,
  set_task_supersession_command,
}
use agent_task_orchestrator.Domain.Links.{
  add_task_dependency, remove_task_dependency, dependency_event, set_task_parent,
  set_task_supersession, check_proposed_parent,
}
use agent_task_orchestrator.Domain.Links.Ascent.{IsProposed}
use agent_task_orchestrator.Domain.Links.Effect.{
  add_task_dependency_effect, add_task_dependency_cycle, remove_task_dependency_effect,
  set_task_parent_effect, set_task_supersession_effect, with_dependency, without_dependency,
}
use agent_task_orchestrator.Domain.Tasks.{update_task_body, is_missing}
use agent_task_orchestrator.Domain.Tasks.Body.{update_task_body_effect}
use agent_task_orchestrator.Domain.Samples.{
  ascii, task, projects, tasks, given, snapshot, program, parse-given,
}

dependency_cycle_iff_example : (dependency_cycle tasks ≡ none) ↔ IsAcyclic tasks
dependency_cycle_iff_example = dependency_cycle_iff tasks

unique_tasks : is_unique (ids tasks) ≡ true
unfolding program
unique_tasks = refl

parent_cycle_iff_example : (parent_cycle tasks ≡ none) ↔ IsHierarchy tasks
parent_cycle_iff_example = parent_cycle_iff tasks unique_tasks

dependency_reaches_iff_example :
    (dependency_reaches tasks (text "c") (text "a") ≡ true) ↔ Leads tasks (text "c") (text "a")
dependency_reaches_iff_example = dependency_reaches_iff tasks (text "c") (text "a")

parse_snapshot-IsSnapshot_example : IsSnapshot snapshot
parse_snapshot-IsSnapshot_example = parse_snapshot-IsSnapshot given snapshot parse-given

parse_snapshot-again_example :
    parse_snapshot (snapshot_value projects tasks) SnapshotValidationMode.complete ≡ ok snapshot
parse_snapshot-again_example =
    parse_snapshot-again given SnapshotValidationMode.complete snapshot parse-given

eligibility_reasons_iff_example :
    (is_empty (eligibility_reasons snapshot (task "d" TaskState.ready 4 [])) ≡ true) ↔ (
      (TaskState.ready ≡ TaskState.ready)
      × IsEnabled (project_of projects (text "p"))
      × All (λ d. IsCompleted (task_of tasks d)) [])
eligibility_reasons_iff_example = eligibility_reasons_iff snapshot (task "d" TaskState.ready 4 [])

task_b-parsed :
    parse_task
      (task_value (task "b" TaskState.ready 2 (text "a" ∷ [])))
      (Place.task_named (text "b"))
    ≡ ok (task "b" TaskState.ready 2 (text "a" ∷ []))
unfolding program
task_b-parsed = refl

parse_task-IsTask_example : IsTask (task "b" TaskState.ready 2 (text "a" ∷ []))
parse_task-IsTask_example =
    parse_task-IsTask (task_value (task "b" TaskState.ready 2 (text "a" ∷ [])))
      (Place.task_named (text "b")) (task "b" TaskState.ready 2 (text "a" ∷ [])) task_b-parsed

parse_task-again_example :
    parse_task (task_value (task "b" TaskState.ready 2 (text "a" ∷ []))) (Place.tasks_at 0)
    ≡ ok (task "b" TaskState.ready 2 (text "a" ∷ []))
parse_task-again_example =
    parse_task-again (task_value (task "b" TaskState.ready 2 (text "a" ∷ [])))
      (Place.task_named (text "b")) (task "b" TaskState.ready 2 (text "a" ∷ [])) task_b-parsed
      (Place.tasks_at 0)

-- The result in which the first Task is another one.
abbrev outcome : Task → DomainEvent → DomainSuccess DomainMutation
outcome t e = record {
  value = record {
    snapshot = record {
      projects = projects;
      tasks =
          t
          ∷ task "b" TaskState.ready 2 (text "a" ∷ [])
          ∷ task "c" TaskState.running 3 (text "a" ∷ text "b" ∷ [])
          ∷ task "d" TaskState.ready 4 []
          ∷ [];
    };
    changed_task_ids = t.id ∷ [];
  };
  events = e ∷ [];
}

-- What an operation returns that changes the Task `a` to `t`.
abbrev changed_a : Task → (Task → DomainEvent) → DomainSuccess DomainMutation
changed_a t announce =
    outcome (candidate (task "a" TaskState.idea 1 []) t)
      (announce (candidate (task "a" TaskState.idea 1 []) t))

abbrev task_a : Task
task_a = task "a" TaskState.idea 1 []

abbrev body_event : Task → DomainEvent
body_event t = event DomainEventType.body_changed t.id (some 1) t.revision []

abbrev with_body : Task
with_body = record task_a { body = text "redo" }

body_committed :
    update_task_body given (update_task_body_command (text "a") (text "redo"))
    ≡ ok (changed_a with_body body_event)
unfolding program
body_committed = refl

update_task_body_effect_example :
    (t : Task) × (task_of tasks (text "a") ≡ some t)
    × (is_terminal t.state ≡ false)
    × (same t.body (text "redo") ≡ false)
    × IsCommitted snapshot t
        (record t { body = text "redo" })
        (λ c. event DomainEventType.body_changed c.id (some t.revision) c.revision [])
        (changed_a with_body body_event)
update_task_body_effect_example =
    update_task_body_effect given (text "a") (text "redo") snapshot (changed_a with_body body_event)
      parse-given body_committed

dependency_added :
    add_task_dependency given (task_dependency_command (text "a") (text "d"))
    ≡ ok (
        changed_a
          (with_dependency task_a (text "d"))
          (dependency_event DomainEventType.dependency_added task_a (text "d")))
unfolding program
dependency_added = refl

add_task_dependency_effect_example :
    (t : Task) × (task_of tasks (text "a") ≡ some t)
    × (is_graph_mutable t.state ≡ true)
    × (is_defined (task_of tasks (text "d")) ≡ true)
    × (includes t.dependency_ids (text "d") ≡ false)
    × (¬ Leads tasks (text "d") t.id)
    × IsCommitted snapshot t
        (with_dependency t (text "d"))
        (dependency_event DomainEventType.dependency_added t (text "d"))
        (changed_a
          (with_dependency task_a (text "d"))
          (dependency_event DomainEventType.dependency_added task_a (text "d")))
add_task_dependency_effect_example =
    add_task_dependency_effect given snapshot parse-given (text "a") (text "d")
      (changed_a (with_dependency task_a (text "d"))
        (dependency_event DomainEventType.dependency_added task_a (text "d")))
      dependency_added

a_of_tasks : task_of tasks (text "a") ≡ some task_a
unfolding program
a_of_tasks = refl

a-In-b : In (text "a") (dependencies tasks (text "b"))
unfolding program
a-In-b = In.here

b-Leads-a : Leads tasks (text "b") (text "a")
b-Leads-a = inr (Reaches.step a-In-b)

a_is_not_b : same (text "a") (text "b") ≡ false
unfolding program
a_is_not_b = refl

b_registered : is_defined (task_of tasks (text "b")) ≡ true
unfolding program
b_registered = refl

a_lacks_b : includes task_a.dependency_ids (text "b") ≡ false
unfolding program
a_lacks_b = refl

add_task_dependency_cycle_example :
    add_task_dependency given (task_dependency_command (text "a") (text "b"))
    ≡ err (about_task DomainErrorCode.dependency_cycle (text "a"))
add_task_dependency_cycle_example =
    add_task_dependency_cycle given snapshot parse-given (text "a") (text "b") task_a refl refl
      a_of_tasks refl a_is_not_b b_registered a_lacks_b b-Leads-a

-- The Task `b` has a dependency to remove.
abbrev task_b : Task
task_b = task "b" TaskState.ready 2 (text "a" ∷ [])

abbrev without_a : DomainSuccess DomainMutation
without_a = record {
  value = record {
    snapshot = record {
      projects = projects;
      tasks =
          task_a
          ∷ task "b" TaskState.ready 3 []
          ∷ task "c" TaskState.running 3 (text "a" ∷ text "b" ∷ [])
          ∷ task "d" TaskState.ready 4 []
          ∷ [];
    };
    changed_task_ids = text "b" ∷ [];
  };
  events =
      dependency_event DomainEventType.dependency_removed task_b (text "a")
        (task "b" TaskState.ready 3 [])
      ∷ [];
}

dependency_removed :
    remove_task_dependency given (task_dependency_command (text "b") (text "a")) ≡ ok without_a
unfolding program
dependency_removed = refl

remove_task_dependency_effect_example :
    (t : Task) × (task_of tasks (text "b") ≡ some t)
    × (is_graph_mutable t.state ≡ true)
    × (includes t.dependency_ids (text "a") ≡ true)
    × IsCommitted snapshot t
        (without_dependency t (text "a"))
        (dependency_event DomainEventType.dependency_removed t (text "a"))
        without_a
remove_task_dependency_effect_example =
    remove_task_dependency_effect given snapshot parse-given (text "b") (text "a") without_a
      dependency_removed

abbrev parent_event : Task → Task → DomainEvent
parent_event t changed =
    event DomainEventType.parent_changed changed.id (some t.revision) changed.revision
      (("parentId", or_null changed.parent_id) ∷ [])

abbrev under_d : DomainSuccess DomainMutation
under_d = changed_a (record task_a { parent_id = some (text "d") }) (parent_event task_a)

parent_set :
    set_task_parent given (set_task_parent_command (text "a") (some (text "d"))) ≡ ok under_d
unfolding program
parent_set = refl

set_task_parent_effect_example :
    (t : Task) × (task_of tasks (text "a") ≡ some t)
    × (is_graph_mutable t.state ≡ true)
    × (t.parent_id ≢ some (text "d"))
    × IsProposed tasks t (some (text "d"))
    × ((q : Option Text) → (check_proposed_parent tasks t q ≡ ok tt) ↔ IsProposed tasks t q)
    × IsCommitted snapshot t (record t { parent_id = some (text "d") }) (parent_event t) under_d
set_task_parent_effect_example =
    set_task_parent_effect given snapshot parse-given (text "a") (some (text "d")) under_d
      parent_set

abbrev supersession_event : Task → Task → DomainEvent
supersession_event t changed =
    event DomainEventType.supersession_changed changed.id (some t.revision) changed.revision
      (("supersedesTaskId", or_null changed.supersedes_task_id) ∷ [])

abbrev over_d : DomainSuccess DomainMutation
over_d =
    changed_a (record task_a { supersedes_task_id = some (text "d") }) (supersession_event task_a)

supersession_set :
    set_task_supersession given (set_task_supersession_command (text "a") (some (text "d")))
    ≡ ok over_d
unfolding program
supersession_set = refl

set_task_supersession_effect_example :
    (t : Task) × (task_of tasks (text "a") ≡ some t)
    × (is_terminal t.state ≡ false)
    × (is_text (some (text "d")) t.id ≡ false)
    × (is_missing tasks (some (text "d")) ≡ false)
    × IsCommitted snapshot t
        (record t { supersedes_task_id = some (text "d") })
        (supersession_event t)
        over_d
set_task_supersession_effect_example =
    set_task_supersession_effect given snapshot parse-given (text "a") (some (text "d")) over_d
      supersession_set
