-- ===== src/Domain/Samples.antt =====
-- A small snapshot, the commands on it, and what the operations return for them. The runtime's
-- Unicode tables are instantiated for ASCII text.
use agent_task_orchestrator.Base.{
  Text, String, ℕ, ◌≡◌, refl, true, List, [], ◌∷◌, none, text, any, ltb, ◌||◌, ◌==◌, insert, sort,
  same, before, includes, is_unique,
}
use agent_task_orchestrator.Domain.States.{TaskState, spelled}
use agent_task_orchestrator.Domain.Errors.{ok}
use agent_task_orchestrator.Domain.Records.{Project, Task, DomainSnapshot}
use agent_task_orchestrator.Domain.Value.{
  Value, Unicode, read_exact_record, read_canonical_array, identifier, nullable_identifier,
  any_text, nullable_text, truth, safe_integer, nullable_safe_integer, positive_integer,
  nonnegative_integer, task_state, waiting_reason, transition_event,
  is_canonical_cancellation_reason,
}
use agent_task_orchestrator.Domain.Encode.{snapshot_value}
use agent_task_orchestrator.Domain.Parse.{
  parse_project, waiting_input_from, parse_waiting_input, parse_waiting, parse_completion,
  cancellation_event, cancellation_reason, parse_cancellation, optional_waiting,
  optional_completion, optional_cancellation, identifiers, are_coherent, task_from, parse_task,
}
use agent_task_orchestrator.Domain.Graph.{
  climbs_back, parent_cycle, visit_each, visit, dependency_cycle, reaches_from, dependency_reaches,
}
use agent_task_orchestrator.Domain.Snapshot.{
  parse_projects, parse_tasks, check_dependencies, check_references, check_all, check_snapshot,
  snapshot_from, parse_snapshot, SnapshotValidationMode,
}
use agent_task_orchestrator.Domain.Mutation.{replace_tasks, next_task, require_mutable_task, commit}
use agent_task_orchestrator.Domain.Tasks.{create_task, update_task_body}
use agent_task_orchestrator.Domain.Links.{
  chain_holds, check_proposed_parent, set_task_parent, dependency_command, add_task_dependency,
  remove_task_dependency, set_task_supersession,
}
use agent_task_orchestrator.Domain.Eligibility.{
  add_reason, add_for_dependencies, eligibility_reasons,
}
use agent_task_orchestrator.Domain.Transition.Receipts.{parse_external_acceptance}
use agent_task_orchestrator.Domain.Transition.Cancel.{apply_simple_transition}
use agent_task_orchestrator.Domain.Transition.{
  mark_ready, claim_accepted, dispatch, transition_from, transition_task,
}

instance abbrev pub ascii : Unicode
ascii = record { has_control = λ s. any (λ c. ltb c 32 || (c == 127)) s; normalize = λ s. s }

abbrev pub task : String → TaskState → ℕ → List Text → Task
task id state revision dependency_ids = record {
  id = text id;
  project_id = text "p";
  state = state;
  revision = revision;
  body = text "do";
  parent_id = none;
  dependency_ids = dependency_ids;
  waiting = none;
  completion = none;
  cancellation = none;
  supersedes_task_id = none;
}

abbrev pub projects : List Project
projects = record { id = text "p"; enabled = true } ∷ []

abbrev pub tasks : List Task
tasks =
    task "a" TaskState.idea 1 []
    ∷ task "b" TaskState.ready 2 (text "a" ∷ [])
    ∷ task "c" TaskState.running 3 (text "a" ∷ text "b" ∷ [])
    ∷ task "d" TaskState.ready 4 []
    ∷ []

abbrev pub given : Value
given = snapshot_value projects tasks

abbrev pub snapshot : DomainSnapshot
snapshot = record { projects = projects; tasks = tasks }

-- What a run unfolds.
unfoldable pub program : Unit {0}
unfolding insert sort same before includes is_unique climbs_back parent_cycle visit_each visit
    dependency_cycle reaches_from dependency_reaches create_task update_task_body spelled
    parse_projects parse_tasks check_dependencies check_references check_all check_snapshot
    snapshot_from parse_snapshot read_exact_record read_canonical_array identifier
    nullable_identifier any_text nullable_text truth safe_integer nullable_safe_integer
    positive_integer nonnegative_integer task_state waiting_reason transition_event add_reason
    add_for_dependencies eligibility_reasons snapshot_value parse_project waiting_input_from
    parse_waiting_input parse_waiting parse_completion cancellation_event cancellation_reason
    parse_cancellation optional_waiting optional_completion optional_cancellation identifiers
    are_coherent task_from parse_task is_canonical_cancellation_reason parse_external_acceptance
    apply_simple_transition chain_holds check_proposed_parent set_task_parent dependency_command
    add_task_dependency remove_task_dependency set_task_supersession mark_ready claim_accepted
    dispatch transition_from transition_task replace_tasks next_task require_mutable_task commit
program = tt

pub parse-given : parse_snapshot given SnapshotValidationMode.complete ≡ ok snapshot
unfolding program
parse-given = refl
