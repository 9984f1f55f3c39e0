-- ===== src/Scheduler/Results.antt =====
-- src/scheduler-port.ts: results and the call of the backend.
use agent_task_orchestrator.Base.{
  Text, String, ℕ, Bool, true, false, not, ◌&&◌, List, [], ◌∷◌, Option, none, some, text, same,
}
use agent_task_orchestrator.Domain.Value.{Value, Fields, Unicode, get, is_constant}
use agent_task_orchestrator.Reader.{
  ◌>>=◌, ◌>>◌, check, Dates, exact_record, timestamp, or_null_by, truth_value, equal_text,
  equal_number,
}
use agent_task_orchestrator.Ports.{
  FailureCategory, failure_name, failure_categories, is_retryable, is_ambiguous, equal_truth, name,
  named, bounded_text,
}
use agent_task_orchestrator.Scheduler.Requests.{
  SchedulerOperation, SchedulerBackendRequest, SchedulerRegisterRequest, SchedulerInspectRequest,
  SchedulerRemoveRequest, contract_id, operation_name, scheduler_operations, operation_of, base_of,
  parse_scheduler_backend_request, request_value,
}
use agent_task_orchestrator.Scheduler.Port.{
  SchedulerBackendReceipt, SchedulerBackendFailure, SchedulerBackendResult, equal_operation,
  external_state_name, scheduler_external_states, outcome_name, outcomes, receipt_code_name,
  scheduler_receipt_codes, scheduler_receipt_semantics_are_valid,
}

-- The registration that an inspection or a removal asks for.
abbrev pub requested_registration : SchedulerBackendRequest → Option Text
requested_registration (SchedulerBackendRequest.to_register r) = none
requested_registration (SchedulerBackendRequest.to_inspect r) = r.external_registration_id
requested_registration (SchedulerBackendRequest.to_remove r) = some r.external_registration_id

abbrev pub differ : Option Text → Option Text → Bool
differ (some a) (some b) = not (same b a)
differ _ _ = false

abbrev pub failure_keys : List String
failure_keys =
    "category" ∷ "code" ∷ "retryable" ∷ "ambiguous" ∷ "retryAfter" ∷ "evidenceReference" ∷ []

abbrev pub receipt_keys : List String
receipt_keys =
    "contractId" ∷ "receiptId" ∷ "operation" ∷ "operationId" ∷ "scheduleId" ∷ "configRevision"
    ∷ "externalRegistrationId" ∷ "externalState" ∷ "outcome" ∷ "code" ∷ "enabled" ∷ "nextTriggerAt"
    ∷ "evidenceReference" ∷ "observedAt" ∷ []

-- `envelope.ok === true` or `=== false`
abbrev pub is_truth : Bool → Value → Bool
is_truth b (Value.boolean c) = equal_truth b c
is_truth b _ = false

module _ ⦃u : Unicode⦄ ⦃d : Dates⦄ where
  -- `parseFailure` over the values of the fields.
  unfoldable pub failure_from :
      Value → Value → Value → Value → Value → Value → Option SchedulerBackendFailure
  failure_from v1 v2 v3 v4 v5 v6 = do
    category ← named failure_name failure_categories v1
    code ← name v2
    retryable ← truth_value v3
    ambiguous ← truth_value v4
    retry_after ← or_null_by timestamp v5
    evidence_reference ← or_null_by (bounded_text 128) v6
    check (
        equal_truth retryable (is_retryable category)
        && equal_truth ambiguous (is_ambiguous category))
    some (record {
      category = category;
      code = code;
      retryable = retryable;
      ambiguous = ambiguous;
      retry_after = retry_after;
      evidence_reference = evidence_reference;
    })

  -- `parseFailure`
  unfoldable pub parse_failure : Value → Option SchedulerBackendFailure
  unfolding failure_from
  parse_failure v = do
    r ← exact_record v failure_keys
    failure_from (get r "category") (get r "code") (get r "retryable") (get r "ambiguous")
        (get r "retryAfter") (get r "evidenceReference")

  -- The receipt, given its identity, over the values of the other fields.
  unfoldable pub receipt_of :
      Text
      → SchedulerOperation
      → Text
      → Text
      → ℕ
      → Value
      → Value
      → Value
      → Value
      → Value
      → Value
      → Value
      → Value
      → Option SchedulerBackendReceipt
  receipt_of receipt_id operation operation_id schedule_id config_revision v6 v7 v8 v9 v10 v11 v12
        v13 =
      do
        external_registration_id ← or_null_by name v6
        external_state ← named external_state_name scheduler_external_states v7
        outcome ← named outcome_name outcomes v8
        code ← named receipt_code_name scheduler_receipt_codes v9
        enabled ← or_null_by truth_value v10
        next_trigger_at ← or_null_by timestamp v11
        evidence_reference ← or_null_by (bounded_text 128) v12
        observed_at ← timestamp v13
        some (record {
          receipt_id = receipt_id;
          operation = operation;
          operation_id = operation_id;
          schedule_id = schedule_id;
          config_revision = config_revision;
          external_registration_id = external_registration_id;
          external_state = external_state;
          outcome = outcome;
          code = code;
          enabled = enabled;
          next_trigger_at = next_trigger_at;
          evidence_reference = evidence_reference;
          observed_at = observed_at;
        })

  -- The receipt, over the values of its fields but the contract's identifier.
  unfoldable pub receipt_from :
      SchedulerBackendRequest
      → Value
      → Value
      → Value
      → Value
      → Value
      → Value
      → Value
      → Value
      → Value
      → Value
      → Value
      → Value
      → Value
      → Option SchedulerBackendReceipt
  receipt_from request v1 v2 v3 v4 v5 v6 v7 v8 v9 v10 v11 v12 v13 = do
    receipt_id ← name v1
    operation ← named operation_name scheduler_operations v2
    check (equal_operation operation (operation_of request))
    operation_id ← equal_text (base_of request).operation_id v3
    schedule_id ← equal_text (base_of request).schedule_id v4
    config_revision ← equal_number (base_of request).config_revision v5
    receipt_of receipt_id operation operation_id schedule_id config_revision v6 v7 v8 v9 v10 v11 v12
        v13

  unfoldable pub parse_receipt : SchedulerBackendRequest → Value → Option SchedulerBackendReceipt
  unfolding receipt_from
  parse_receipt request v = do
    r ← exact_record v receipt_keys
    check (is_constant (get r "contractId") contract_id)
    receipt_from request (get r "receiptId") (get r "operation") (get r "operationId")
        (get r "scheduleId") (get r "configRevision") (get r "externalRegistrationId")
        (get r "externalState") (get r "outcome") (get r "code") (get r "enabled")
        (get r "nextTriggerAt") (get r "evidenceReference") (get r "observedAt")

  -- The two envelopes of `parseSchedulerBackendResult`.
  unfoldable pub received_from :
      SchedulerBackendRequest → Value → Value → Option SchedulerBackendResult
  received_from request v1 v2 = do
    check (is_truth true v1)
    receipt ← parse_receipt request v2
    check (scheduler_receipt_semantics_are_valid receipt)
    check (not (differ (requested_registration request) receipt.external_registration_id))
    some (SchedulerBackendResult.received receipt)

  unfoldable pub failed_from : Value → Value → Option SchedulerBackendResult
  failed_from v1 v2 = do
    check (is_truth false v1)
    error ← parse_failure v2
    some (SchedulerBackendResult.failed error)

  abbrev pub result_by :
      Option Fields → Option Fields → SchedulerBackendRequest → Option SchedulerBackendResult
  result_by (some r) other request = received_from request (get r "ok") (get r "receipt")
  result_by none (some r) request = failed_from (get r "ok") (get r "error")
  result_by none none request = none

  -- `parseSchedulerBackendResult`
  unfoldable pub parse_scheduler_backend_result :
      Value → SchedulerBackendRequest → Option SchedulerBackendResult
  unfolding received_from failed_from
  parse_scheduler_backend_result v request = do
    parsed ← parse_scheduler_backend_request (request_value request)
    result_by (exact_record v ("ok" ∷ "receipt" ∷ [])) (exact_record v ("ok" ∷ "error" ∷ [])) parsed

-- `integrityFailure`, and the failure for an adapter that throws.
abbrev failure_of : FailureCategory → String → SchedulerBackendResult
failure_of category code = SchedulerBackendResult.failed (record {
  category = category;
  code = text code;
  retryable = false;
  ambiguous = true;
  retry_after = none;
  evidence_reference = none;
})

abbrev pub integrity_failure : String → SchedulerBackendResult
integrity_failure code = failure_of FailureCategory.integrity_failure code

abbrev pub adapter_threw : SchedulerBackendResult
adapter_threw = failure_of FailureCategory.ambiguous_external_state "adapter_threw"

-- The adapter: the value that each method returns, or `none` where it throws.
pub record SchedulerBackend : Type 0 where
  pub on_register : SchedulerRegisterRequest → Option Value
  pub on_inspect : SchedulerInspectRequest → Option Value
  pub on_remove : SchedulerRemoveRequest → Option Value

abbrev pub answer : SchedulerBackend → SchedulerBackendRequest → Option Value
answer backend (SchedulerBackendRequest.to_register r) = backend.on_register r
answer backend (SchedulerBackendRequest.to_inspect r) = backend.on_inspect r
answer backend (SchedulerBackendRequest.to_remove r) = backend.on_remove r

module _ ⦃u : Unicode⦄ ⦃d : Dates⦄ where
  abbrev pub or_invalid : Option SchedulerBackendResult → SchedulerBackendResult
  or_invalid none = integrity_failure "invalid_result_shape"
  or_invalid (some result) = result

  abbrev pub result_of_answer : SchedulerBackendRequest → Option Value → SchedulerBackendResult
  result_of_answer request none = adapter_threw
  result_of_answer request (some raw) = or_invalid (parse_scheduler_backend_result raw request)

  abbrev pub invoke_for : SchedulerBackend → Option SchedulerBackendRequest → SchedulerBackendResult
  invoke_for backend none = integrity_failure "invalid_request_shape"
  invoke_for backend (some request) = result_of_answer request (answer backend request)

  -- `invokeSchedulerBackend`
  unfoldable pub invoke_scheduler_backend : SchedulerBackend → Value → SchedulerBackendResult
  invoke_scheduler_backend backend v = invoke_for backend (parse_scheduler_backend_request v)
