-- ===== src/Domain/Parse.antt =====
-- src/domain.ts: the parsers of Projects, waiting metadata, terminal facts and
pub mod Accepted
pub mod Inverse
-- Tasks.
use agent_task_orchestrator.Base.{
  Text, String, ℕ, zero, suc, ◌+◌, ℤ, Bool, true, false, not, ◌&&◌, ◌||◌, List, [], ◌∷◌, Option,
  none, some, if◌then◌else◌, same, includes, is_unique, sort, is_empty, ◌==◌,
}
use agent_task_orchestrator.Domain.States.{TaskState}
use agent_task_orchestrator.Domain.Errors.{
  Parsed, ok, err, ◌>>=◌, ◌>>◌, fail_if, DomainError, domain_error, DomainErrorCode, DetailValue,
  Place,
}
use agent_task_orchestrator.Domain.Records.{
  Project, WaitingMetadataInput, WaitingMetadata, CompletionFact, CancellationFact,
  CancellationEvent, Task,
}
use agent_task_orchestrator.Domain.Value.{
  Value, Items, Fields, end, field, get, read_exact_record, read_canonical_array, identifier,
  nullable_identifier, any_text, nullable_text, truth, nullable_safe_integer, positive_integer,
  nonnegative_integer, task_state, waiting_reason, is_constant, Unicode,
  is_canonical_cancellation_reason,
}

abbrev pub invalid_input_at : Place → DomainError
invalid_input_at path =
    domain_error DomainErrorCode.invalid_input (("path", DetailValue.place path) ∷ [])

abbrev pub invalid_snapshot_at : Place → DomainError
invalid_snapshot_at path =
    domain_error DomainErrorCode.invalid_snapshot (("path", DetailValue.place path) ∷ [])

-- `parseProject`
unfoldable pub parse_project : Value → Place → Parsed Project
unfolding read_exact_record identifier truth
parse_project v path = do
  let e = invalid_snapshot_at path
  r ← read_exact_record v ("id" ∷ "enabled" ∷ []) e
  id ← identifier (get r "id") e
  enabled ← truth (get r "enabled") e
  ok (record { id = id; enabled = enabled })

abbrev pub waiting_input_keys : List String
waiting_input_keys =
    "reason" ∷ "phase" ∷ "requiredAction" ∷ "lastErrorCode" ∷ "lastErrorSummary" ∷ "retryable"
    ∷ "retryCount" ∷ "retryAfter" ∷ "executionId" ∷ "workspaceRevision" ∷ "backendThreadId" ∷ []

-- The tests on the eleven fields, in the order of the keys.
unfoldable pub waiting_input_from :
    (v1 v2 v3 v4 v5 v6 v7 v8 v9 v10 v11 : Value) → DomainError → Parsed WaitingMetadataInput
waiting_input_from v1 v2 v3 v4 v5 v6 v7 v8 v9 v10 v11 e = do
  reason ← waiting_reason v1 e
  phase ← identifier v2 e
  required_action ← identifier v3 e
  last_error_code ← identifier v4 e
  last_error_summary ← nullable_text v5 e
  retryable ← truth v6 e
  retry_count ← nonnegative_integer v7 e
  retry_after ← nullable_safe_integer v8 e
  execution_id ← nullable_identifier v9 e
  workspace_revision ← nullable_identifier v10 e
  backend_thread_id ← nullable_identifier v11 e
  ok (record {
    reason = reason;
    phase = phase;
    required_action = required_action;
    last_error_code = last_error_code;
    last_error_summary = last_error_summary;
    retryable = retryable;
    retry_count = retry_count;
    retry_after = retry_after;
    execution_id = execution_id;
    workspace_revision = workspace_revision;
    backend_thread_id = backend_thread_id;
  })

abbrev pub waiting_input_of : Fields → DomainError → Parsed WaitingMetadataInput
waiting_input_of r e =
    waiting_input_from (get r "reason") (get r "phase") (get r "requiredAction")
      (get r "lastErrorCode") (get r "lastErrorSummary") (get r "retryable") (get r "retryCount")
      (get r "retryAfter") (get r "executionId") (get r "workspaceRevision")
      (get r "backendThreadId") e

-- `parseWaitingInput`
unfoldable pub parse_waiting_input : Value → Place → Parsed WaitingMetadataInput
unfolding read_exact_record
parse_waiting_input v path = do
  let e = invalid_input_at path
  r ← read_exact_record v waiting_input_keys e
  waiting_input_of r e

-- `Object.fromEntries(inputKeys.map((key) => [key, record[key]]))`
abbrev pub pick : List String → Fields → Fields
pick [] r = end
pick (k ∷ ks) r = field k (get r k) (pick ks r)

-- `parseWaiting`
unfoldable pub parse_waiting : Value → Place → Parsed WaitingMetadata
unfolding read_exact_record positive_integer
parse_waiting v path = do
  let e = invalid_snapshot_at path
  r ← read_exact_record v ("waitingTaskRevision" ∷ waiting_input_keys) e
  input ← parse_waiting_input (Value.object (pick waiting_input_keys r)) path
  waiting_task_revision ← positive_integer (get r "waitingTaskRevision") e
  ok (record { input = input; waiting_task_revision = waiting_task_revision })

-- `parseCompletion`
unfoldable pub parse_completion : Value → Place → Parsed CompletionFact
unfolding read_exact_record identifier positive_integer
parse_completion v path = do
  let e = invalid_snapshot_at path
  r ← read_exact_record v ("decisionId" ∷ "acceptedTaskRevision" ∷ []) e
  decision_id ← identifier (get r "decisionId") e
  accepted_task_revision ← positive_integer (get r "acceptedTaskRevision") e
  ok (record { decision_id = decision_id; accepted_task_revision = accepted_task_revision })

unfoldable pub cancellation_event : Value → DomainError → Parsed CancellationEvent
cancellation_event v e =
    if is_constant v "cancel"
    then ok CancellationEvent.cancel
    else if is_constant v "interruption_verified"
    then ok CancellationEvent.interruption_verified
    else err e

unfoldable pub cancellation_reason : ⦃u : Unicode⦄ → Value → DomainError → Parsed Text
cancellation_reason (Value.string s) e = if is_canonical_cancellation_reason s then ok s else err e
cancellation_reason _ e = err e

-- `parseCancellation`
unfoldable pub parse_cancellation : ⦃u : Unicode⦄ → Value → Place → Parsed CancellationFact
unfolding read_exact_record cancellation_reason nullable_identifier positive_integer
parse_cancellation v path = do
  let e = invalid_snapshot_at path
  r ← read_exact_record v ("event" ∷ "reason" ∷ "verificationId" ∷ "acceptedTaskRevision" ∷ []) e
  trigger ← cancellation_event (get r "event") e
  reason ← cancellation_reason (get r "reason") e
  verification_id ← nullable_identifier (get r "verificationId") e
  accepted_task_revision ← positive_integer (get r "acceptedTaskRevision") e
  ok (record {
    trigger = trigger;
    reason = reason;
    verification_id = verification_id;
    accepted_task_revision = accepted_task_revision;
  })

-- `if (record.waiting !== null) { ... }`, and so for the two terminal facts.
unfoldable pub optional_waiting : Value → Place → Parsed (Option WaitingMetadata)
optional_waiting Value.null path = ok none
optional_waiting v path = do a ← parse_waiting v path; ok (some a)

unfoldable pub optional_completion : Value → Place → Parsed (Option CompletionFact)
optional_completion Value.null path = ok none
optional_completion v path = do a ← parse_completion v path; ok (some a)

unfoldable pub optional_cancellation :
    ⦃u : Unicode⦄ → Value → Place → Parsed (Option CancellationFact)
optional_cancellation Value.null path = ok none
optional_cancellation v path = do a ← parse_cancellation v path; ok (some a)

-- The loop that copies the dependency identifiers.
unfoldable pub identifiers : List Value → DomainError → Parsed (List Text)
unfolding identifier
identifiers [] e = ok []
identifiers (v ∷ vs) e = do id ← identifier v e; rest ← identifiers vs e; ok (id ∷ rest)

-- `a === b`, where `a` may be `null`.
abbrev pub is_text : Option Text → Text → Bool
is_text none t = false
is_text (some s) t = same s t

abbrev pub is_some : {A : Type 0} → Option A → Bool
is_some none = false
is_some (some a) = true

abbrev waiting_since : Option WaitingMetadata → ℕ → Bool
waiting_since none revision = false
waiting_since (some w) revision = w.waiting_task_revision == revision

-- The source compares with `revision - 1`, where the revision is positive.
abbrev completed_before : Option CompletionFact → ℕ → Bool
completed_before none revision = false
completed_before (some c) revision = c.accepted_task_revision + 1 == revision

abbrev cancelled_before : Option CancellationFact → ℕ → Bool
cancelled_before none revision = false
cancelled_before (some c) revision = c.accepted_task_revision + 1 == revision

-- Whether the facts of a Task fit its state and its revision.
unfoldable pub are_coherent :
    TaskState → ℕ → Option WaitingMetadata → Option CompletionFact → Option CancellationFact → Bool
are_coherent TaskState.waiting revision w c x =
    waiting_since w revision && not (is_some c) && not (is_some x)
are_coherent TaskState.completed revision w c x =
    not (is_some w) && completed_before c revision && not (is_some x)
are_coherent TaskState.cancelled revision w c x =
    not (is_some w) && not (is_some c) && cancelled_before x revision
are_coherent _ revision w c x = not (is_some w) && not (is_some c) && not (is_some x)

abbrev pub task_keys : List String
task_keys =
    "id" ∷ "projectId" ∷ "state" ∷ "revision" ∷ "body" ∷ "parentId" ∷ "dependencyIds" ∷ "waiting"
    ∷ "completion" ∷ "cancellation" ∷ "supersedesTaskId" ∷ []

-- The tests on the eleven fields of a Task, in the order of the keys.
unfoldable pub task_from :
    ⦃u : Unicode⦄ → (v1 v2 v3 v4 v5 v6 v7 v8 v9 v10 v11 : Value) → Place → DomainError → Parsed Task
task_from v1 v2 v3 v4 v5 v6 v7 v8 v9 v10 v11 path e = do
  id ← identifier v1 e
  project_id ← identifier v2 e
  state ← task_state v3 e
  revision ← positive_integer v4 e
  body ← any_text v5 e
  parent_id ← nullable_identifier v6 e
  dependency_values ← read_canonical_array v7 e
  supersedes_task_id ← nullable_identifier v11 e
  unsorted ← identifiers dependency_values e
  let dependency_ids = sort (λ t. t) unsorted
  fail_if (not (is_unique dependency_ids)) e
  fail_if (is_text parent_id id) e
  fail_if (includes dependency_ids id) e
  fail_if (is_text supersedes_task_id id) e
  waiting ← optional_waiting v8 (Place.waiting_of path)
  completion ← optional_completion v9 (Place.completion_of path)
  cancellation ← optional_cancellation v10 (Place.cancellation_of path)
  fail_if (not (are_coherent state revision waiting completion cancellation)) e
  ok (record {
    id = id;
    project_id = project_id;
    state = state;
    revision = revision;
    body = body;
    parent_id = parent_id;
    dependency_ids = dependency_ids;
    waiting = waiting;
    completion = completion;
    cancellation = cancellation;
    supersedes_task_id = supersedes_task_id;
  })

-- `parseTask`
unfoldable pub parse_task : ⦃u : Unicode⦄ → Value → Place → Parsed Task
unfolding read_exact_record
parse_task v path = do
  let e = invalid_snapshot_at path
  r ← read_exact_record v task_keys e
  task_from (get r "id") (get r "projectId") (get r "state") (get r "revision") (get r "body")
      (get r "parentId") (get r "dependencyIds") (get r "waiting") (get r "completion")
      (get r "cancellation") (get r "supersedesTaskId") path e
