-- ===== src/Domain/Tasks.antt =====
-- src/domain.ts: creating a Task, changing its body and its waiting metadata.
pub mod Body
pub mod Create
use agent_task_orchestrator.Base.{
  Text, String, ℕ, ℤ, pos, negsuc, Bool, true, false, not, ◌&&◌, ◌||◌, List, [], ◌∷◌, Option, none,
  some, if◌then◌else◌, same, ◌==◌, text,
}
use agent_task_orchestrator.Domain.States.{TaskState, WaitingReason, reason_name, same_state}
use agent_task_orchestrator.Domain.Errors.{
  Parsed, ok, err, ◌>>=◌, ◌>>◌, fail_if, require, domain_error, DomainErrorCode, DetailValue, Place,
  or_null, DomainEventType, DomainResult, event,
}
use agent_task_orchestrator.Domain.Records.{
  Task, WaitingMetadata, WaitingMetadataInput, DomainSnapshot, DomainMutation,
}
use agent_task_orchestrator.Domain.Value.{
  Value, get, read_exact_record, identifier, nullable_identifier, any_text, Unicode,
}
use agent_task_orchestrator.Domain.Encode.{task_value}
use agent_task_orchestrator.Domain.Parse.{parse_task, parse_waiting_input, is_text}
use agent_task_orchestrator.Domain.Graph.{task_of}
use agent_task_orchestrator.Domain.Snapshot.{
  parse_snapshot, SnapshotValidationMode, project_of, is_defined,
}
use agent_task_orchestrator.Domain.Mutation.{
  about_task, invalid_input, mutation, replace_tasks, require_mutable_task, parse_task_command,
  commit,
}

-- Whether `id` is not `null` and no Task has it.
abbrev pub is_missing : List Task → Option Text → Bool
is_missing tasks none = false
is_missing tasks (some id) = not (is_defined (task_of tasks id))

-- `?? ""` is never used: the source reports the identifier that is not `null`.
abbrev pub missing_detail : Option Text → List (String × DetailValue)
missing_detail id = ("taskId", or_null id) ∷ []

-- The Task that `createTaskUnchecked` parses.
abbrev pub new_task : Text → Text → Text → Option Text → Task
new_task id project_id body supersedes = record {
  id = id;
  project_id = project_id;
  state = TaskState.idea;
  revision = 1;
  body = body;
  parent_id = none;
  dependency_ids = [];
  waiting = none;
  completion = none;
  cancellation = none;
  supersedes_task_id = supersedes;
}

-- `createTaskUnchecked`
unfoldable pub create_task : ⦃u : Unicode⦄ → Value → Value → DomainResult DomainMutation
create_task snapshot_input command_input = do
  snapshot ← parse_snapshot snapshot_input SnapshotValidationMode.complete
  command ← parse_task_command command_input ("id" ∷ "projectId" ∷ "body" ∷ "supersedesTaskId" ∷ [])
  id ← identifier (get command "id") invalid_input
  project_id ← identifier (get command "projectId") invalid_input
  body ← any_text (get command "body") invalid_input
  supersedes ← nullable_identifier (get command "supersedesTaskId") invalid_input
  fail_if (is_defined (task_of snapshot.tasks id))
      (about_task DomainErrorCode.task_already_exists id)
  fail_if (not (is_defined (project_of snapshot.projects project_id))) (
      domain_error DomainErrorCode.project_not_found
        (("projectId", DetailValue.text project_id) ∷ []))
  fail_if (is_text supersedes id) (about_task DomainErrorCode.supersession_self id)
  fail_if (is_missing snapshot.tasks supersedes)
      (domain_error DomainErrorCode.supersession_not_found (missing_detail supersedes))
  task ← parse_task (task_value (new_task id project_id body supersedes)) (Place.task_named id)
  next ← replace_tasks snapshot [] (task ∷ [])
  mutation next (task.id ∷ []) (event DomainEventType.created task.id none 1 [] ∷ [])

-- `updateTaskBodyUnchecked`
unfoldable pub update_task_body : ⦃u : Unicode⦄ → Value → Value → DomainResult DomainMutation
update_task_body snapshot_input command_input = do
  snapshot ← parse_snapshot snapshot_input SnapshotValidationMode.complete
  command ← parse_task_command command_input ("taskId" ∷ "body" ∷ [])
  id ← identifier (get command "taskId") invalid_input
  body ← any_text (get command "body") invalid_input
  task ← require_mutable_task snapshot id
  fail_if (same task.body body) (about_task DomainErrorCode.no_op task.id)
  commit snapshot task (record task { body = body })
      λ changed.
        event DomainEventType.body_changed changed.id (some task.revision) changed.revision []

abbrev pub same_nullable : Option Text → Option Text → Bool
same_nullable none none = true
same_nullable (some a) (some b) = same a b
same_nullable _ _ = false

abbrev same_integer : ℤ → ℤ → Bool
same_integer (pos a) (pos b) = a == b
same_integer (negsuc a) (negsuc b) = a == b
same_integer _ _ = false

abbrev same_nullable_integer : Option ℤ → Option ℤ → Bool
same_nullable_integer none none = true
same_nullable_integer (some a) (some b) = same_integer a b
same_nullable_integer _ _ = false

abbrev same_bool : Bool → Bool → Bool
same_bool true b = b
same_bool false b = not b

-- `sameWaitingInput`
unfoldable pub same_waiting_input : WaitingMetadata → WaitingMetadataInput → Bool
same_waiting_input left right =
    same (text (reason_name left.reason)) (text (reason_name right.reason))
    && same left.phase right.phase
    && same left.required_action right.required_action
    && same left.last_error_code right.last_error_code
    && same_nullable left.last_error_summary right.last_error_summary
    && same_bool left.retryable right.retryable
    && (left.retry_count == right.retry_count)
    && same_nullable_integer left.retry_after right.retry_after
    && same_nullable left.execution_id right.execution_id
    && same_nullable left.workspace_revision right.workspace_revision
    && same_nullable left.backend_thread_id right.backend_thread_id

-- `task.state !== "waiting" || task.waiting === null`
abbrev pub waiting_of : Task → Option WaitingMetadata
waiting_of t = if same_state t.state TaskState.waiting then t.waiting else none

abbrev waiting_details : Option WaitingMetadata → List (String × DetailValue)
waiting_details none =
    ("waitingReason", DetailValue.null) ∷ ("requiredAction", DetailValue.null) ∷ []
waiting_details (some w) =
    ("waitingReason", DetailValue.waiting_reason w.reason)
    ∷ ("requiredAction", DetailValue.text w.required_action)
    ∷ []

-- `updateTaskWaitingUnchecked`
unfoldable pub update_task_waiting : ⦃u : Unicode⦄ → Value → Value → DomainResult DomainMutation
unfolding same_waiting_input
update_task_waiting snapshot_input command_input = do
  snapshot ← parse_snapshot snapshot_input SnapshotValidationMode.complete
  command ← parse_task_command command_input ("taskId" ∷ "waiting" ∷ [])
  id ← identifier (get command "taskId") invalid_input
  task ← require_mutable_task snapshot id
  waiting ← require (waiting_of task) (about_task DomainErrorCode.mutation_not_allowed task.id)
  input ← parse_waiting_input (get command "waiting") (Place.waiting_of (Place.task_named task.id))
  fail_if (same_waiting_input waiting input) (about_task DomainErrorCode.no_op task.id)
  commit snapshot task
      (record task {
        waiting = some (record { input = input; waiting_task_revision = task.revision });
      })
      λ changed.
        event DomainEventType.waiting_changed changed.id (some task.revision) changed.revision
          (waiting_details changed.waiting)
