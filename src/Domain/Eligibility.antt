-- ===== src/Domain/Eligibility.antt =====
-- src/domain.ts: whether a Task may be claimed.
pub mod Decision
use agent_task_orchestrator.Base.{
  Text, String, Bool, true, false, not, List, [], ◌∷◌, ◌++◌, Option, none, some, if◌then◌else◌, any,
  same, sort, text, is_empty,
}
use agent_task_orchestrator.Domain.States.{TaskState, same_state}
use agent_task_orchestrator.Domain.Errors.{
  Parsed, ok, err, ◌>>=◌, ◌>>◌, require, DomainErrorCode, EligibilityReason, DomainResult, success,
}
use agent_task_orchestrator.Domain.Records.{Task, Project, DomainSnapshot, TaskEligibilityDecision}
use agent_task_orchestrator.Domain.Value.{Value, get, read_exact_record, identifier, Unicode}
use agent_task_orchestrator.Domain.Graph.{task_of}
use agent_task_orchestrator.Domain.Snapshot.{parse_snapshot, SnapshotValidationMode, project_of}
use agent_task_orchestrator.Domain.Mutation.{about_task, invalid_input, parse_task_command}

-- `Set.add`, for a set of constants in the order of insertion.
unfoldable pub add_reason : {R : Type 0} → (R → String) → R → List R → List R
add_reason name r rs =
    if any (λ q. same (text (name q)) (text (name r))) rs then rs else rs ++ r ∷ []

abbrev pub add_reason_if : {R : Type 0} → (R → String) → Bool → R → List R → List R
add_reason_if name b r rs = if b then add_reason name r rs else rs

-- The reason that a Project gives, if it gives one.
abbrev pub add_for_project : {R : Type 0} → (R → String) → R → R → Option Project → List R → List R
add_for_project name missing disabled none rs = add_reason name missing rs
add_for_project name missing disabled (some p) rs = add_reason_if name (not p.enabled) disabled rs

abbrev pub add_for_dependency : {R : Type 0} → (R → String) → R → R → Option Task → List R → List R
add_for_dependency name missing unfinished none rs = add_reason name missing rs
add_for_dependency name missing unfinished (some t) rs =
    add_reason_if name (not (same_state t.state TaskState.completed)) unfinished rs

-- The loop over the dependencies of a Task, which both predicates run.
unfoldable pub add_for_dependencies :
    {R : Type 0} → (R → String) → R → R → List Task → List Text → List R → List R
add_for_dependencies name missing unfinished tasks [] rs = rs
add_for_dependencies name missing unfinished tasks (d ∷ ds) rs =
    add_for_dependencies name missing unfinished tasks ds
      (add_for_dependency name missing unfinished (task_of tasks d) rs)

abbrev pub eligibility_name : EligibilityReason → String
eligibility_name EligibilityReason.state_not_ready = "STATE_NOT_READY"
eligibility_name EligibilityReason.project_not_registered = "PROJECT_NOT_REGISTERED"
eligibility_name EligibilityReason.project_disabled = "PROJECT_DISABLED"
eligibility_name EligibilityReason.dependency_not_registered = "DEPENDENCY_NOT_REGISTERED"
eligibility_name EligibilityReason.dependency_not_completed = "DEPENDENCY_NOT_COMPLETED"

-- `eligibilityReasons`
unfoldable pub eligibility_reasons : DomainSnapshot → Task → List EligibilityReason
eligibility_reasons s task =
    let by_state =
      add_reason_if eligibility_name (not (same_state task.state TaskState.ready))
        EligibilityReason.state_not_ready [] in
    let by_project =
      add_for_project eligibility_name EligibilityReason.project_not_registered
        EligibilityReason.project_disabled (project_of s.projects task.project_id) by_state in
    sort (λ r. text (eligibility_name r))
      (add_for_dependencies eligibility_name EligibilityReason.dependency_not_registered
        EligibilityReason.dependency_not_completed s.tasks task.dependency_ids by_project)

-- `evaluateTaskEligibilityUnchecked`; `readRevision` is `identifier`.
unfoldable pub evaluate_task_eligibility :
    ⦃u : Unicode⦄ → Value → Value → DomainResult TaskEligibilityDecision
evaluate_task_eligibility snapshot_input command_input = do
  command ← parse_task_command command_input ("taskId" ∷ "readRevision" ∷ [])
  read_revision ← identifier (get command "readRevision") invalid_input
  id ← identifier (get command "taskId") invalid_input
  snapshot ← parse_snapshot snapshot_input (SnapshotValidationMode.decision id)
  task ← require (task_of snapshot.tasks id) (about_task DomainErrorCode.task_not_found id)
  let reasons = eligibility_reasons snapshot task
  success
      (record {
        task_id = task.id;
        read_revision = read_revision;
        eligible = is_empty reasons;
        reasons = reasons;
      })
      []
