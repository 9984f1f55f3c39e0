-- ===== src/Domain/Mutation.antt =====
-- src/domain.ts: what the operations share: the results of mutations, the next
-- revision of a Task, and the replacement of Tasks in a snapshot.
pub mod Effect
use agent_task_orchestrator.Base.{
  Text, String, ℕ, suc, ◌+◌, Bool, true, false, not, ◌&&◌, ◌||◌, List, [], ◌∷◌, ◌++◌, Option, none,
  some, if◌then◌else◌, sort, map, ◌==◌,
}
use agent_task_orchestrator.Domain.States.{TaskState, same_state, is_terminal}
use agent_task_orchestrator.Domain.Errors.{
  Parsed, ok, err, ◌>>=◌, ◌>>◌, fail_if, require, DomainError, domain_error, DomainErrorCode,
  DetailValue, Place, DomainEvent, DomainResult, success,
}
use agent_task_orchestrator.Domain.Records.{
  Task, WaitingMetadata, DomainSnapshot, DomainMutation, ProjectDomainMutation,
}
use agent_task_orchestrator.Domain.Value.{
  Value, Fields, read_exact_record, max_safe_integer, Unicode,
}
use agent_task_orchestrator.Domain.Encode.{task_value, snapshot_value}
use agent_task_orchestrator.Domain.Parse.{parse_task}
use agent_task_orchestrator.Domain.Graph.{task_of}
use agent_task_orchestrator.Domain.Snapshot.{parse_snapshot, SnapshotValidationMode}

-- `{ taskId: id }`
abbrev pub about_task : DomainErrorCode → Text → DomainError
about_task code id = domain_error code (("taskId", DetailValue.text id) ∷ [])

abbrev pub invalid_input : DomainError
invalid_input = domain_error DomainErrorCode.invalid_input []

-- `mutation`
abbrev pub mutation : DomainSnapshot → List Text → List DomainEvent → DomainResult DomainMutation
mutation snapshot changed events =
    success (record { snapshot = snapshot; changed_task_ids = sort (λ t. t) changed }) events

-- `projectMutation`
abbrev pub project_mutation : DomainSnapshot → Text → DomainResult ProjectDomainMutation
project_mutation snapshot id =
    success (record { snapshot = snapshot; changed_project_ids = id ∷ [] }) []

-- `replacements.get(task.id) ?? task`; the list has the last entry of the map first.
abbrev pub replaced_by : Task → Option Task → Task
replaced_by t none = t
replaced_by t (some r) = r

abbrev pub replace_in : List Task → List Task → List Task
replace_in replacements [] = []
replace_in replacements (t ∷ ts) =
    replaced_by t (task_of replacements t.id) ∷ replace_in replacements ts

-- `replaceTasks`
unfoldable pub replace_tasks :
    ⦃u : Unicode⦄ → DomainSnapshot → List Task → List Task → Parsed DomainSnapshot
replace_tasks s replacements additions =
    parse_snapshot (snapshot_value s.projects (replace_in replacements s.tasks ++ additions))
      SnapshotValidationMode.complete

abbrev pub renumbered : Task → Option WaitingMetadata → Option WaitingMetadata
renumbered t none = none
renumbered t (some w) =
    if same_state t.state TaskState.waiting
    then some (record w { waiting_task_revision = t.revision })
    else some w

-- The candidate of `nextTask`, before it is parsed: `{ ...task, ...patch, revision }`.
abbrev pub candidate : Task → Task → Task
candidate task patched =
    let c = record patched { revision = task.revision + 1 } in
    record c { waiting = renumbered c c.waiting }

-- `nextTask`; `patched` is `{ ...task, ...patch }`.
unfoldable pub next_task : ⦃u : Unicode⦄ → Task → Task → Parsed Task
next_task task patched = do
  fail_if (task.revision == max_safe_integer)
      (about_task DomainErrorCode.revision_exhausted task.id)
  parse_task (task_value (candidate task patched)) (Place.task_named task.id)

-- `requireMutableTask`
unfoldable pub require_mutable_task : DomainSnapshot → Text → Parsed Task
require_mutable_task s id = do
  task ← require (task_of s.tasks id) (about_task DomainErrorCode.task_not_found id)
  fail_if (is_terminal task.state) (
      domain_error DomainErrorCode.terminal_immutable
        (("taskId", DetailValue.text id) ∷ ("state", DetailValue.state task.state) ∷ []))
  ok task

-- `parseTaskCommand`
abbrev pub parse_task_command : Value → List String → Parsed Fields
parse_task_command v keys = read_exact_record v keys invalid_input

-- The end of every operation on one Task: its next revision, the snapshot that holds it, and one
-- event, which the changed Task may appear in.
unfoldable pub commit :
    ⦃u : Unicode⦄
    → DomainSnapshot
    → Task
    → Task
    → (Task → DomainEvent)
    → DomainResult DomainMutation
commit s task patched announce = do
  changed ← next_task task patched
  next ← replace_tasks s (changed ∷ []) []
  mutation next (changed.id ∷ []) (announce changed ∷ [])
