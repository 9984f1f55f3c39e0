-- ===== src/Domain/Links.antt =====
-- src/domain.ts: the parent of a Task, its dependencies, and the Task that it
-- supersedes.
pub mod Ascent
pub mod Effect
use agent_task_orchestrator.Base.{
  Text, String, ℕ, zero, suc, ◌+◌, Bool, true, false, not, ◌&&◌, ◌||◌, List, [], ◌∷◌, ◌++◌, Option,
  none, some, if◌then◌else◌, same, includes, keep, sort, length,
}
use agent_task_orchestrator.Domain.States.{is_graph_mutable}
use agent_task_orchestrator.Domain.Errors.{
  Parsed, ok, err, ◌>>=◌, ◌>>◌, fail_if, require, domain_error, DomainErrorCode, DetailValue,
  or_null, DomainEvent, DomainEventType, DomainResult, event,
}
use agent_task_orchestrator.Domain.Records.{Task, DomainSnapshot, DomainMutation}
use agent_task_orchestrator.Domain.Value.{
  Value, get, read_exact_record, identifier, nullable_identifier, Unicode,
}
use agent_task_orchestrator.Domain.Parse.{is_text}
use agent_task_orchestrator.Domain.Graph.{task_of, dependency_reaches}
use agent_task_orchestrator.Domain.Snapshot.{parse_snapshot, SnapshotValidationMode, is_defined}
use agent_task_orchestrator.Domain.Mutation.{
  about_task, invalid_input, require_mutable_task, parse_task_command, commit,
}
use agent_task_orchestrator.Domain.Tasks.{same_nullable, is_missing}

-- The `while` loop of `setTaskParentUnchecked`: whether the chain of parents from the cursor
-- holds the identifier `target`.
unfoldable pub chain_holds : ℕ → List Task → List Text → Text → Option Task → Bool
chain_holds fuel tasks seen target none = false
chain_holds zero tasks seen target (some cursor) = true
chain_holds (suc fuel) tasks seen target (some cursor) =
    let further : Bool = elim cursor.parent_id [
      | none ↦ false
      | some id ↦ chain_holds fuel tasks (cursor.id ∷ seen) target (task_of tasks id)
    ] in
    if same cursor.id target then true else if includes seen cursor.id then false else further

-- The checks on a proposed parent that is not `null`.
unfoldable pub check_proposed_parent : List Task → Task → Option Text → Parsed (Unit {0})
unfolding chain_holds
check_proposed_parent tasks task none = ok tt
check_proposed_parent tasks task (some id) = do
  parent ←
      require (task_of tasks id)
        (domain_error DomainErrorCode.parent_not_found (("parentId", DetailValue.text id) ∷ []))
  fail_if (not (same parent.project_id task.project_id))
      (about_task DomainErrorCode.parent_project_mismatch task.id)
  fail_if (chain_holds (suc (length tasks)) tasks [] task.id (some parent))
      (about_task DomainErrorCode.parent_cycle task.id)

-- `setTaskParentUnchecked`
unfoldable pub set_task_parent : ⦃u : Unicode⦄ → Value → Value → DomainResult DomainMutation
set_task_parent snapshot_input command_input = do
  snapshot ← parse_snapshot snapshot_input SnapshotValidationMode.complete
  command ← parse_task_command command_input ("taskId" ∷ "parentId" ∷ [])
  id ← identifier (get command "taskId") invalid_input
  parent_id ← nullable_identifier (get command "parentId") invalid_input
  task ← require_mutable_task snapshot id
  fail_if (not (is_graph_mutable task.state))
      (about_task DomainErrorCode.mutation_not_allowed task.id)
  fail_if (same_nullable task.parent_id parent_id) (about_task DomainErrorCode.no_op task.id)
  fail_if (is_text parent_id task.id) (about_task DomainErrorCode.parent_self task.id)
  check_proposed_parent snapshot.tasks task parent_id
  commit snapshot task (record task { parent_id = parent_id })
      λ changed.
        event DomainEventType.parent_changed changed.id (some task.revision) changed.revision
          (("parentId", or_null changed.parent_id) ∷ [])

-- `dependencyCommand`
unfoldable pub dependency_command : Value → Parsed (Text × Text)
unfolding read_exact_record identifier
dependency_command v = do
  command ← parse_task_command v ("taskId" ∷ "dependencyId" ∷ [])
  task_id ← identifier (get command "taskId") invalid_input
  dependency_id ← identifier (get command "dependencyId") invalid_input
  ok (task_id, dependency_id)

abbrev pub dependency_event : DomainEventType → Task → Text → Task → DomainEvent
dependency_event type task dependency_id changed =
    event type changed.id (some task.revision) changed.revision
      (("dependencyId", DetailValue.text dependency_id) ∷ [])

-- `addTaskDependencyUnchecked`
unfoldable pub add_task_dependency : ⦃u : Unicode⦄ → Value → Value → DomainResult DomainMutation
add_task_dependency snapshot_input command_input = do
  snapshot ← parse_snapshot snapshot_input SnapshotValidationMode.complete
  (task_id, dependency_id) ← dependency_command command_input
  task ← require_mutable_task snapshot task_id
  fail_if (not (is_graph_mutable task.state))
      (about_task DomainErrorCode.mutation_not_allowed task.id)
  fail_if (same task_id dependency_id) (about_task DomainErrorCode.dependency_self task.id)
  fail_if (not (is_defined (task_of snapshot.tasks dependency_id))) (
      domain_error DomainErrorCode.dependency_not_found
        (("dependencyId", DetailValue.text dependency_id) ∷ []))
  fail_if (includes task.dependency_ids dependency_id)
      (about_task DomainErrorCode.dependency_duplicate task.id)
  fail_if (dependency_reaches snapshot.tasks dependency_id task.id)
      (about_task DomainErrorCode.dependency_cycle task.id)
  commit snapshot task
      (record task { dependency_ids = sort (λ t. t) (task.dependency_ids ++ dependency_id ∷ []) })
      (dependency_event DomainEventType.dependency_added task dependency_id)

-- `removeTaskDependencyUnchecked`
unfoldable pub remove_task_dependency : ⦃u : Unicode⦄ → Value → Value → DomainResult DomainMutation
remove_task_dependency snapshot_input command_input = do
  snapshot ← parse_snapshot snapshot_input SnapshotValidationMode.complete
  (task_id, dependency_id) ← dependency_command command_input
  task ← require_mutable_task snapshot task_id
  fail_if (not (is_graph_mutable task.state))
      (about_task DomainErrorCode.mutation_not_allowed task.id)
  fail_if (not (includes task.dependency_ids dependency_id))
      (about_task DomainErrorCode.no_op task.id)
  commit snapshot task
      (record task { dependency_ids = keep (λ d. not (same d dependency_id)) task.dependency_ids })
      (dependency_event DomainEventType.dependency_removed task dependency_id)

-- `setTaskSupersessionUnchecked`
unfoldable pub set_task_supersession : ⦃u : Unicode⦄ → Value → Value → DomainResult DomainMutation
set_task_supersession snapshot_input command_input = do
  snapshot ← parse_snapshot snapshot_input SnapshotValidationMode.complete
  command ← parse_task_command command_input ("taskId" ∷ "supersedesTaskId" ∷ [])
  id ← identifier (get command "taskId") invalid_input
  supersedes ← nullable_identifier (get command "supersedesTaskId") invalid_input
  task ← require_mutable_task snapshot id
  fail_if (same_nullable task.supersedes_task_id supersedes)
      (about_task DomainErrorCode.no_op task.id)
  fail_if (is_text supersedes task.id) (about_task DomainErrorCode.supersession_self task.id)
  fail_if (is_missing snapshot.tasks supersedes)
      (about_task DomainErrorCode.supersession_not_found task.id)
  commit snapshot task (record task { supersedes_task_id = supersedes })
      λ changed.
        event DomainEventType.supersession_changed changed.id (some task.revision) changed.revision
          (("supersedesTaskId", or_null changed.supersedes_task_id) ∷ [])
