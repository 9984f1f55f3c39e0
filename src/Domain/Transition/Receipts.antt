-- ===== src/Domain/Transition/Receipts.antt =====
-- src/domain.ts: the receipts that a transition needs from outside the domain,
-- and the waiting metadata of dependents.
use agent_task_orchestrator.Base.{
  Text, ℕ, ◌+◌, pos, Bool, false, not, ◌||◌, List, [], ◌∷◌, if◌then◌else◌, same, sort, is_unique,
  map, ◌==◌,
}
use agent_task_orchestrator.Domain.Errors.{
  Parsed, ok, err, ◌>>=◌, ◌>>◌, fail_if, DomainError, DomainErrorCode, Place,
}
use agent_task_orchestrator.Domain.Records.{
  Task, WaitingMetadata, ExternalAcceptance, CompletionDecision, ExecutionDisposition,
  DispositionStatus, DependentWaitingInput,
}
use agent_task_orchestrator.Domain.Value.{
  Value, Fields, get, read_exact_record, read_canonical_array, identifier, nullable_identifier,
  is_constant,
}
use agent_task_orchestrator.Domain.Encode.{waiting_value}
use agent_task_orchestrator.Domain.Parse.{parse_waiting_input, parse_waiting, invalid_input_at}
use agent_task_orchestrator.Domain.Mutation.{about_task, invalid_input}

-- `value === text` and `value === number`, for a value of any type.
abbrev pub is_text_value : Value → Text → Bool
is_text_value (Value.string s) t = same s t
is_text_value _ t = false

abbrev pub is_number_value : Value → ℕ → Bool
is_number_value (Value.number (pos n)) r = n == r
is_number_value _ r = false

abbrev pub not_current : Task → DomainError
not_current task = about_task DomainErrorCode.external_precondition_failed task.id

abbrev pub names_other : Fields → Task → Bool
names_other r task =
    not (is_text_value (get r "taskId") task.id)
    || not (is_number_value (get r "taskRevision") task.revision)

-- `parseExternalAcceptance`
unfoldable pub parse_external_acceptance : Value → Task → Parsed ExternalAcceptance
unfolding read_exact_record
parse_external_acceptance v task = do
  r ←
      read_exact_record v ("taskId" ∷ "taskRevision" ∷ "authorization" ∷ "reliability" ∷ [])
        invalid_input
  fail_if
      (names_other r task
        || not (is_constant (get r "authorization") "accepted")
        || not (is_constant (get r "reliability") "accepted"))
      (not_current task)
  ok (record { task_id = task.id; task_revision = task.revision })

-- `parseCompletionDecision`
unfoldable pub parse_completion_decision : Value → Task → Parsed CompletionDecision
unfolding read_exact_record identifier
parse_completion_decision v task = do
  r ← read_exact_record v ("decisionId" ∷ "taskId" ∷ "taskRevision" ∷ "status" ∷ []) invalid_input
  decision_id ← identifier (get r "decisionId") (not_current task)
  fail_if (names_other r task || not (is_constant (get r "status") "accepted")) (not_current task)
  ok (record { decision_id = decision_id; task_id = task.id; task_revision = task.revision })

abbrev disposition_status : Value → DomainError → Parsed DispositionStatus
disposition_status v e =
    if is_constant v "absent"
    then ok DispositionStatus.absent
    else if is_constant v "stopped"
    then ok DispositionStatus.stopped
    else err e

-- `parseExecutionDisposition`
unfoldable pub parse_execution_disposition : Value → Task → Parsed ExecutionDisposition
unfolding read_exact_record identifier nullable_identifier
parse_execution_disposition v task = do
  r ←
      read_exact_record v ("receiptId" ∷ "taskId" ∷ "taskRevision" ∷ "executionId" ∷ "status" ∷ [])
        invalid_input
  receipt_id ← identifier (get r "receiptId") (not_current task)
  fail_if (names_other r task) (not_current task)
  execution_id ← nullable_identifier (get r "executionId") (not_current task)
  status ← disposition_status (get r "status") (not_current task)
  ok (record {
    receipt_id = receipt_id;
    task_id = task.id;
    task_revision = task.revision;
    execution_id = execution_id;
    status = status;
  })

-- `waitingFromInput`
unfoldable pub waiting_from_input : Value → ℕ → Place → Parsed WaitingMetadata
waiting_from_input v revision path = do
  input ← parse_waiting_input v path
  parse_waiting (waiting_value (record { input = input; waiting_task_revision = revision })) path

unfoldable pub dependent_entries : List Value → ℕ → Parsed (List DependentWaitingInput)
unfolding read_exact_record identifier
dependent_entries [] index = ok []
dependent_entries (v ∷ vs) index = do
  let e = invalid_input_at (Place.dependents_at index)
  r ← read_exact_record v ("taskId" ∷ "waiting" ∷ []) e
  task_id ← identifier (get r "taskId") e
  waiting ← parse_waiting_input (get r "waiting") (Place.waiting_of (Place.dependents_at index))
  rest ← dependent_entries vs (index + 1)
  ok (record { task_id = task_id; waiting = waiting } ∷ rest)

abbrev pub entry_id : DependentWaitingInput → Text
entry_id d = d.task_id

-- `parseDependentWaiting`
unfoldable pub parse_dependent_waiting : Value → Parsed (List DependentWaitingInput)
unfolding read_canonical_array dependent_entries
parse_dependent_waiting v = do
  items ← read_canonical_array v invalid_input
  entries ← dependent_entries items 0
  let sorted = sort entry_id entries
  fail_if (not (is_unique (map entry_id sorted))) invalid_input
  ok sorted
