-- ===== src/Domain/Transition.antt =====
-- src/domain.ts: the transition of a Task, one function for each event.
pub mod Receipts
pub mod Cancel
pub mod Effect
pub mod Moves
pub mod Cancelling
use agent_task_orchestrator.Base.{
  Text, String, ℕ, ◌+◌, Bool, true, false, not, ◌&&◌, ◌||◌, List, [], ◌∷◌, Option, none, some,
  if◌then◌else◌, same, any, is_empty, ◌==◌,
}
use agent_task_orchestrator.Domain.States.{
  TaskState, TransitionEvent, TaskTransition, task_transitions, same_state, same_event, is_terminal,
}
use agent_task_orchestrator.Domain.Errors.{
  Parsed, ok, err, ◌>>=◌, ◌>>◌, fail_if, require, domain_error, DomainError, DomainErrorCode,
  DetailValue, Place, ContinuationReason, DomainResult,
}
use agent_task_orchestrator.Domain.Records.{
  Task, Project, WaitingMetadata, CompletionFact, CancellationEvent, DomainSnapshot, DomainMutation,
  ContinuationKind, ExecutionDisposition, DispositionStatus,
}
use agent_task_orchestrator.Domain.Value.{
  Value, Fields, get, read_exact_record, identifier, task_state, transition_event, max_safe_integer,
  is_null, Unicode,
}
use agent_task_orchestrator.Domain.Parse.{cancellation_reason}
use agent_task_orchestrator.Domain.Graph.{task_of}
use agent_task_orchestrator.Domain.Snapshot.{
  parse_snapshot, SnapshotValidationMode, project_of, is_defined,
}
use agent_task_orchestrator.Domain.Mutation.{about_task, invalid_input, parse_task_command}
use agent_task_orchestrator.Domain.Eligibility.{eligibility_reasons}
use agent_task_orchestrator.Domain.Tasks.{same_nullable}
use agent_task_orchestrator.Domain.Continuation.{continuation_reasons, parse_continuation_command}
use Receipts.{
  parse_external_acceptance, parse_completion_decision, parse_execution_disposition,
  waiting_from_input, parse_dependent_waiting,
}
use Cancel.{apply_simple_transition, cancel_with_direct_dependents, names_dependency_cancelled}

-- `transitionPayload`
abbrev transition_payload : Value → List String → Parsed Fields
transition_payload v keys = read_exact_record v keys invalid_input

abbrev is_cancelled : Option Task → Bool
is_cancelled none = false
is_cancelled (some t) = same_state t.state TaskState.cancelled

-- Whether some direct dependency of the Task is cancelled.
abbrev pub has_cancelled_dependency : DomainSnapshot → Task → Bool
has_cancelled_dependency s task = any (λ d. is_cancelled (task_of s.tasks d)) task.dependency_ids

unfoldable pub mark_ready :
    ⦃u : Unicode⦄ → DomainSnapshot → Task → Value → DomainResult DomainMutation
mark_ready s task v = do
  _ ← transition_payload v []
  project ←
      require (project_of s.projects task.project_id)
        (domain_error DomainErrorCode.project_not_found [])
  fail_if (not project.enabled) (domain_error DomainErrorCode.project_disabled [])
  fail_if (has_cancelled_dependency s task)
      (about_task DomainErrorCode.dependency_cancelled task.id)
  apply_simple_transition s task (record task { state = TaskState.ready })
      TransitionEvent.mark_ready

unfoldable pub claim_accepted :
    ⦃u : Unicode⦄ → DomainSnapshot → Task → Value → DomainResult DomainMutation
claim_accepted s task v = do
  payload ← transition_payload v ("externalAcceptance" ∷ [])
  fail_if (not (is_empty (eligibility_reasons s task)))
      (about_task DomainErrorCode.task_not_eligible task.id)
  _ ← parse_external_acceptance (get payload "externalAcceptance") task
  apply_simple_transition s task (record task { state = TaskState.running })
      TransitionEvent.claim_accepted

unfoldable pub dependency_cancelled :
    ⦃u : Unicode⦄ → DomainSnapshot → Task → Value → DomainResult DomainMutation
dependency_cancelled s task v = do
  payload ← transition_payload v ("waiting" ∷ [])
  fail_if (not (has_cancelled_dependency s task))
      (about_task DomainErrorCode.dependency_cancelled task.id)
  fail_if (task.revision == max_safe_integer)
      (about_task DomainErrorCode.revision_exhausted task.id)
  waiting ←
      waiting_from_input (get payload "waiting") (task.revision + 1)
        (Place.waiting_of (Place.task_named task.id))
  fail_if (not (names_dependency_cancelled waiting.input))
      (about_task DomainErrorCode.invalid_input task.id)
  apply_simple_transition s task (record task { state = TaskState.waiting; waiting = some waiting })
      TransitionEvent.dependency_cancelled

unfoldable pub execution_wait :
    ⦃u : Unicode⦄ → DomainSnapshot → Task → Value → DomainResult DomainMutation
execution_wait s task v = do
  payload ← transition_payload v ("waiting" ∷ [])
  fail_if (task.revision == max_safe_integer)
      (about_task DomainErrorCode.revision_exhausted task.id)
  waiting ←
      waiting_from_input (get payload "waiting") (task.revision + 1)
        (Place.waiting_of (Place.task_named task.id))
  apply_simple_transition s task (record task { state = TaskState.waiting; waiting = some waiting })
      TransitionEvent.execution_wait

unfoldable pub completion_accepted :
    ⦃u : Unicode⦄ → DomainSnapshot → Task → Value → DomainResult DomainMutation
completion_accepted s task v = do
  payload ← transition_payload v ("decision" ∷ [])
  decision ← parse_completion_decision (get payload "decision") task
  apply_simple_transition s task
      (record task {
        state = TaskState.completed;
        completion =
            some (record {
              decision_id = decision.decision_id;
              accepted_task_revision = task.revision;
            });
      })
      TransitionEvent.completion_accepted

abbrev pub same_kind : ContinuationKind → ContinuationKind → Bool
same_kind ContinuationKind.resume ContinuationKind.resume = true
same_kind ContinuationKind.retry ContinuationKind.retry = true
same_kind _ _ = false

abbrev first_reason : List ContinuationReason → DetailValue
first_reason [] = DetailValue.null
first_reason (r ∷ rs) = DetailValue.continuation_reason r

-- `resume_accepted` and `retry_accepted`, with the kind that is expected.
unfoldable pub continue_waiting :
    ⦃u : Unicode⦄
    → ContinuationKind
    → TransitionEvent
    → DomainSnapshot
    → Task
    → Value
    → DomainResult DomainMutation
continue_waiting kind trigger s task v = do
  payload ← transition_payload v ("continuation" ∷ "externalAcceptance" ∷ [])
  continuation ← parse_continuation_command (get payload "continuation")
  fail_if (not (same continuation.task_id task.id) || not (same_kind continuation.kind kind))
      invalid_input
  let reasons = continuation_reasons s task continuation
  fail_if (not (is_empty reasons)) (
      domain_error DomainErrorCode.continuation_not_eligible
        (("taskId", DetailValue.text task.id) ∷ ("firstReason", first_reason reasons) ∷ []))
  _ ← parse_external_acceptance (get payload "externalAcceptance") task
  apply_simple_transition s task (record task { state = TaskState.running; waiting = none }) trigger

-- `task.waiting?.executionId ?? null`
abbrev pub waiting_execution : Option WaitingMetadata → Option Text
waiting_execution none = none
waiting_execution (some w) = w.execution_id

-- The execution of a waiting Task must be disposed of; the receipt that says so is its proof.
abbrev check_disposition : Task → Option Text → Value → Parsed (Option Text)
check_disposition task none v = do fail_if (not (is_null v)) invalid_input; ok none
check_disposition task (some execution_id) v = do
  disposition ← parse_execution_disposition v task
  fail_if (not (same_nullable (some execution_id) disposition.execution_id))
      (domain_error DomainErrorCode.external_precondition_failed [])
  ok (some disposition.receipt_id)

unfoldable pub verification_for_cancel : Task → Value → Parsed (Option Text)
unfolding parse_execution_disposition
verification_for_cancel task v =
    if same_state task.state TaskState.waiting
    then check_disposition task (waiting_execution task.waiting) v
    else check_disposition task none v

unfoldable pub cancel : ⦃u : Unicode⦄ → DomainSnapshot → Task → Value → DomainResult DomainMutation
cancel s task v = do
  payload ← transition_payload v ("reason" ∷ "executionDisposition" ∷ "dependentWaiting" ∷ [])
  reason ←
      cancellation_reason (get payload "reason") (about_task DomainErrorCode.invalid_input task.id)
  dependents ← parse_dependent_waiting (get payload "dependentWaiting")
  verification_id ← verification_for_cancel task (get payload "executionDisposition")
  cancel_with_direct_dependents s task
      (record {
        trigger = CancellationEvent.cancel;
        reason = reason;
        verification_id = verification_id;
        accepted_task_revision = task.revision;
      })
      dependents TransitionEvent.cancel

abbrev is_stopped : DispositionStatus → Bool
is_stopped DispositionStatus.stopped = true
is_stopped DispositionStatus.absent = false

-- `status !== "stopped" || executionId === null`
abbrev pub is_not_stopped : ExecutionDisposition → Bool
is_not_stopped d = not (is_stopped d.status) || not (is_defined d.execution_id)

unfoldable pub interruption_verified :
    ⦃u : Unicode⦄ → DomainSnapshot → Task → Value → DomainResult DomainMutation
interruption_verified s task v = do
  payload ← transition_payload v ("reason" ∷ "verification" ∷ "dependentWaiting" ∷ [])
  reason ←
      cancellation_reason (get payload "reason") (about_task DomainErrorCode.invalid_input task.id)
  verification ← parse_execution_disposition (get payload "verification") task
  fail_if (is_not_stopped verification)
      (domain_error DomainErrorCode.external_precondition_failed [])
  dependents ← parse_dependent_waiting (get payload "dependentWaiting")
  cancel_with_direct_dependents s task
      (record {
        trigger = CancellationEvent.interruption_verified;
        reason = reason;
        verification_id = some verification.receipt_id;
        accepted_task_revision = task.revision;
      })
      dependents TransitionEvent.interruption_verified

-- Whether the authoritative relation holds the transition.
abbrev pub is_legal : TaskState → TaskState → TransitionEvent → Bool
is_legal source target trigger =
    any
      (λ t.
        same_state t.source source && same_state t.target target && same_event t.trigger trigger)
      task_transitions

-- The `switch` over the event.
unfoldable pub dispatch :
    ⦃u : Unicode⦄ → TransitionEvent → DomainSnapshot → Task → Value → DomainResult DomainMutation
dispatch TransitionEvent.mark_ready = mark_ready
dispatch TransitionEvent.claim_accepted = claim_accepted
dispatch TransitionEvent.dependency_cancelled = dependency_cancelled
dispatch TransitionEvent.execution_wait = execution_wait
dispatch TransitionEvent.completion_accepted = completion_accepted
dispatch TransitionEvent.resume_accepted =
    continue_waiting ContinuationKind.resume TransitionEvent.resume_accepted
dispatch TransitionEvent.retry_accepted =
    continue_waiting ContinuationKind.retry TransitionEvent.retry_accepted
dispatch TransitionEvent.cancel = cancel
dispatch TransitionEvent.interruption_verified = interruption_verified

-- `transitionTaskUnchecked` over the values of the command's fields.
unfoldable pub transition_from :
    ⦃u : Unicode⦄ → DomainSnapshot → Value → Value → Value → Value → DomainResult DomainMutation
transition_from snapshot task_id event target_state payload = do
  id ← identifier task_id invalid_input
  trigger ← transition_event event invalid_input
  target ← task_state target_state invalid_input
  task ← require (task_of snapshot.tasks id) (about_task DomainErrorCode.task_not_found id)
  fail_if (is_terminal task.state) (about_task DomainErrorCode.terminal_immutable task.id)
  fail_if (not (is_legal task.state target trigger)) (
      domain_error DomainErrorCode.illegal_transition (
        ("taskId", DetailValue.text task.id)
        ∷ ("fromState", DetailValue.state task.state)
        ∷ ("toState", DetailValue.state target)
        ∷ []))
  dispatch trigger snapshot task payload

unfoldable pub transition_task : ⦃u : Unicode⦄ → Value → Value → DomainResult DomainMutation
transition_task snapshot_input command_input = do
  snapshot ← parse_snapshot snapshot_input SnapshotValidationMode.complete
  command ← parse_task_command command_input ("taskId" ∷ "event" ∷ "targetState" ∷ "payload" ∷ [])
  transition_from snapshot (get command "taskId") (get command "event") (get command "targetState")
      (get command "payload")
