-- ===== src/Domain/Continuation.antt =====
-- src/domain.ts: whether a waiting Task may go on, by resuming
-- its execution or by a retry.
pub mod Decision
use agent_task_orchestrator.Base.{
  Text, String, ℤ, Bool, true, false, not, ◌||◌, List, [], ◌∷◌, Option, none, some, if◌then◌else◌,
  same, sort, text, is_empty, gtb, ◌==◌,
}
use agent_task_orchestrator.Domain.Errors.{
  Parsed, ok, err, ◌>>=◌, ◌>>◌, fail_if, require, DomainError, DomainErrorCode, ContinuationReason,
  DomainResult, success,
}
use agent_task_orchestrator.Domain.Records.{
  Task, WaitingMetadata, DomainSnapshot, RequiredActionReceipt, ContinuationKind,
  WaitingContinuationCommand, WaitingContinuationDecision,
}
use agent_task_orchestrator.Domain.Value.{
  Value, get, read_exact_record, identifier, nullable_identifier, positive_integer, safe_integer,
  is_constant, Unicode,
}
use agent_task_orchestrator.Domain.Graph.{task_of}
use agent_task_orchestrator.Domain.Snapshot.{parse_snapshot, SnapshotValidationMode, project_of}
use agent_task_orchestrator.Domain.Mutation.{about_task, invalid_input}
use agent_task_orchestrator.Domain.Tasks.{same_nullable, waiting_of}
use agent_task_orchestrator.Domain.Eligibility.{
  add_reason_if, add_for_project, add_for_dependencies,
}

-- `parseRequiredActionReceipt`
unfoldable pub parse_required_action_receipt : Value → Parsed RequiredActionReceipt
unfolding read_exact_record identifier positive_integer
parse_required_action_receipt v = do
  r ←
      read_exact_record v
        ("receiptId" ∷ "taskId" ∷ "taskRevision" ∷ "requiredAction" ∷ "status" ∷ []) invalid_input
  receipt_id ← identifier (get r "receiptId") invalid_input
  task_id ← identifier (get r "taskId") invalid_input
  task_revision ← positive_integer (get r "taskRevision") invalid_input
  required_action ← identifier (get r "requiredAction") invalid_input
  fail_if (not (is_constant (get r "status") "accepted")) invalid_input
  ok (record {
    receipt_id = receipt_id;
    task_id = task_id;
    task_revision = task_revision;
    required_action = required_action;
  })

abbrev continuation_kind : Value → DomainError → Parsed ContinuationKind
continuation_kind v e =
    if is_constant v "resume"
    then ok ContinuationKind.resume
    else if is_constant v "retry"
    then ok ContinuationKind.retry
    else err e

-- `parseContinuationCommand`
unfoldable pub parse_continuation_command : Value → Parsed WaitingContinuationCommand
unfolding read_exact_record identifier parse_required_action_receipt positive_integer
    nullable_identifier safe_integer
parse_continuation_command v = do
  r ←
      read_exact_record v
        ("taskId" ∷ "expectedTaskRevision" ∷ "readRevision" ∷ "kind" ∷ "requiredActionReceipt"
          ∷ "targetExecutionId" ∷ "targetWorkspaceRevision" ∷ "targetBackendThreadId"
          ∷ "trustedTime" ∷ [])
        invalid_input
  read_revision ← identifier (get r "readRevision") invalid_input
  receipt ← parse_required_action_receipt (get r "requiredActionReceipt")
  task_id ← identifier (get r "taskId") invalid_input
  expected ← positive_integer (get r "expectedTaskRevision") invalid_input
  kind ← continuation_kind (get r "kind") invalid_input
  execution ← nullable_identifier (get r "targetExecutionId") invalid_input
  workspace ← nullable_identifier (get r "targetWorkspaceRevision") invalid_input
  thread ← nullable_identifier (get r "targetBackendThreadId") invalid_input
  trusted_time ← safe_integer (get r "trustedTime") invalid_input
  ok (record {
    task_id = task_id;
    expected_task_revision = expected;
    read_revision = read_revision;
    kind = kind;
    required_action_receipt = receipt;
    target_execution_id = execution;
    target_workspace_revision = workspace;
    target_backend_thread_id = thread;
    trusted_time = trusted_time;
  })

abbrev pub continuation_name : ContinuationReason → String
continuation_name ContinuationReason.state_not_waiting = "STATE_NOT_WAITING"
continuation_name ContinuationReason.task_revision_stale = "TASK_REVISION_STALE"
continuation_name ContinuationReason.project_not_registered = "PROJECT_NOT_REGISTERED"
continuation_name ContinuationReason.project_disabled = "PROJECT_DISABLED"
continuation_name ContinuationReason.dependency_not_registered = "DEPENDENCY_NOT_REGISTERED"
continuation_name ContinuationReason.dependency_not_completed = "DEPENDENCY_NOT_COMPLETED"
continuation_name ContinuationReason.required_action_receipt_stale = "REQUIRED_ACTION_RECEIPT_STALE"
continuation_name ContinuationReason.identity_mismatch = "IDENTITY_MISMATCH"
continuation_name ContinuationReason.execution_id_required = "EXECUTION_ID_REQUIRED"
continuation_name ContinuationReason.not_retryable = "NOT_RETRYABLE"
continuation_name ContinuationReason.retry_too_early = "RETRY_TOO_EARLY"

-- `a !== null && a !== b`
abbrev pub differs_if_set : Option Text → Option Text → Bool
differs_if_set none b = false
differs_if_set (some a) b = not (same_nullable (some a) b)

abbrev pub is_later : Option ℤ → ℤ → Bool
is_later none now = false
is_later (some at_time) now = gtb at_time now

abbrev pub is_none : Option Text → Bool
is_none none = true
is_none (some a) = false

abbrev pub is_stale_revision : Task → WaitingMetadata → WaitingContinuationCommand → Bool
is_stale_revision task w c =
    not (task.revision == c.expected_task_revision)
    || not (w.waiting_task_revision == c.expected_task_revision)

-- The receipt's status is "accepted" for every receipt that was parsed.
abbrev pub is_stale_receipt : Task → WaitingMetadata → WaitingContinuationCommand → Bool
is_stale_receipt task w c =
    let r = c.required_action_receipt in
    not (same r.task_id task.id)
    || not (r.task_revision == c.expected_task_revision)
    || not (same r.required_action w.required_action)

abbrev pub is_mismatch : WaitingMetadata → WaitingContinuationCommand → Bool
is_mismatch w c =
    differs_if_set w.execution_id c.target_execution_id
    || differs_if_set w.workspace_revision c.target_workspace_revision
    || differs_if_set w.backend_thread_id c.target_backend_thread_id

abbrev pub add_for_kind :
    ContinuationKind → WaitingMetadata → ℤ → List ContinuationReason → List ContinuationReason
add_for_kind ContinuationKind.resume w now rs =
    add_reason_if continuation_name (is_none w.execution_id)
      ContinuationReason.execution_id_required rs
add_for_kind ContinuationKind.retry w now rs =
    add_reason_if continuation_name (is_later w.retry_after now) ContinuationReason.retry_too_early
      (add_reason_if continuation_name (not w.retryable) ContinuationReason.not_retryable rs)

-- The reasons against a Task that is waiting, in the order in which the source adds them.
unfoldable pub waiting_reasons_of :
    DomainSnapshot → Task → WaitingMetadata → WaitingContinuationCommand → List ContinuationReason
waiting_reasons_of s task w c =
    let by_revision =
      add_reason_if continuation_name (is_stale_revision task w c)
        ContinuationReason.task_revision_stale [] in
    let by_project =
      add_for_project continuation_name ContinuationReason.project_not_registered
        ContinuationReason.project_disabled (project_of s.projects task.project_id) by_revision in
    let by_dependencies =
      add_for_dependencies continuation_name ContinuationReason.dependency_not_registered
        ContinuationReason.dependency_not_completed s.tasks task.dependency_ids by_project in
    let by_receipt =
      add_reason_if continuation_name (is_stale_receipt task w c)
        ContinuationReason.required_action_receipt_stale by_dependencies in
    let by_identity =
      add_reason_if continuation_name (is_mismatch w c) ContinuationReason.identity_mismatch
        by_receipt in
    add_for_kind c.kind w c.trusted_time by_identity

abbrev reasons_for :
    DomainSnapshot
    → Task
    → Option WaitingMetadata
    → WaitingContinuationCommand
    → List ContinuationReason
reasons_for s task none c = ContinuationReason.state_not_waiting ∷ []
reasons_for s task (some w) c =
    sort (λ r. text (continuation_name r)) (waiting_reasons_of s task w c)

-- `continuationReasons`
unfoldable pub continuation_reasons :
    DomainSnapshot → Task → WaitingContinuationCommand → List ContinuationReason
unfolding waiting_reasons_of
continuation_reasons s task c = reasons_for s task (waiting_of task) c

-- `evaluateWaitingContinuationUnchecked`
unfoldable pub evaluate_waiting_continuation :
    ⦃u : Unicode⦄ → Value → Value → DomainResult WaitingContinuationDecision
evaluate_waiting_continuation snapshot_input command_input = do
  command ← parse_continuation_command command_input
  snapshot ← parse_snapshot snapshot_input (SnapshotValidationMode.decision command.task_id)
  task ←
      require (task_of snapshot.tasks command.task_id)
        (about_task DomainErrorCode.task_not_found command.task_id)
  let reasons = continuation_reasons snapshot task command
  success
      (record {
        task_id = task.id;
        read_revision = command.read_revision;
        kind = command.kind;
        eligible = is_empty reasons;
        reasons = reasons;
      })
      []
