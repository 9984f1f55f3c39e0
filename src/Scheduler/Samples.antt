-- ===== src/Scheduler/Samples.antt =====
-- A registration, and an adapter that answers it. The runtime's Unicode tables and dates are
-- instantiated by functions for ASCII text.
use agent_task_orchestrator.Base.{String, ◌≡◌, refl, true, false, none, some, text, same}
use agent_task_orchestrator.Domain.Value.{Value, Fields}
use agent_task_orchestrator.Domain.Encode.{constant, natural}
use agent_task_orchestrator.Domain.Samples.{ascii}
use agent_task_orchestrator.Reader.{
  exact_record, revision, is_timestamp, timestamp, truth_value, or_null_by, equal_text,
  equal_number,
}
use agent_task_orchestrator.Authorization.Samples.{any_date}
use agent_task_orchestrator.Ports.{
  FailureCategory, is_retryable, is_ambiguous, name, is_name, named, bounded_text, is_bounded,
}
use agent_task_orchestrator.Scheduler.Requests.{
  SchedulerOperation, SchedulerScope, SchedulerBackendRequest, scope_from, parse_scope, base_from,
  register_from, request_from, request_record, parse_scheduler_backend_request, request_value,
}
use agent_task_orchestrator.Scheduler.Port.{
  SchedulerBackendReceipt, SchedulerBackendFailure, SchedulerBackendResult, SchedulerExternalState,
  SchedulerReceiptOutcome, SchedulerReceiptCode, scheduler_receipt_semantics_are_valid,
}
use agent_task_orchestrator.Scheduler.Results.{
  failure_from, parse_failure, receipt_of, receipt_from, parse_receipt, received_from, failed_from,
  parse_scheduler_backend_result, SchedulerBackend, invoke_scheduler_backend,
}

abbrev pub request : SchedulerBackendRequest
request = SchedulerBackendRequest.to_register (record {
  base = record {
    operation_id = text "op-1";
    correlation_id = text "c-1";
    schedule_id = text "nightly";
    config_revision = 2;
    scope = SchedulerScope.project (text "p") 3 2;
  };
  idempotency_key = text "k-1";
  schedule_expression = text "0 3 * * *";
  time_zone = text "UTC";
  dispatcher_target = text "main";
})

abbrev clock : String
clock = "2026-01-01T12:00:00.000Z"

abbrev pub receipt : SchedulerBackendReceipt
receipt = record {
  receipt_id = text "r-1";
  operation = SchedulerOperation.register;
  operation_id = text "op-1";
  schedule_id = text "nightly";
  config_revision = 2;
  external_registration_id = some (text "x-9");
  external_state = SchedulerExternalState.present;
  outcome = SchedulerReceiptOutcome.succeeded;
  code = SchedulerReceiptCode.registered;
  enabled = some true;
  next_trigger_at = none;
  evidence_reference = none;
  observed_at = text clock;
}

abbrev receipt_value : Value
receipt_value = Value.object (
    Fields.field "contractId" (constant "ato.scheduler/v1") (
      Fields.field "receiptId" (constant "r-1") (
        Fields.field "operation" (constant "register") (
          Fields.field "operationId" (constant "op-1") (
            Fields.field "scheduleId" (constant "nightly") (
              Fields.field "configRevision" (natural 2) (
                Fields.field "externalRegistrationId" (constant "x-9") (
                  Fields.field "externalState" (constant "present") (
                    Fields.field "outcome" (constant "succeeded") (
                      Fields.field "code" (constant "registered") (
                        Fields.field "enabled" (Value.boolean true) (
                          Fields.field "nextTriggerAt" Value.null (
                            Fields.field "evidenceReference" Value.null
                              (Fields.field "observedAt" (constant clock) Fields.end))))))))))))))

abbrev failure_value : Value
failure_value = Value.object (
    Fields.field "category" (constant "busy") (
      Fields.field "code" (constant "queue_full") (
        Fields.field "retryable" (Value.boolean true) (
          Fields.field "ambiguous" (Value.boolean false) (
            Fields.field "retryAfter" Value.null
              (Fields.field "evidenceReference" Value.null Fields.end))))))

abbrev pub failure : SchedulerBackendFailure
failure = record {
  category = FailureCategory.busy;
  code = text "queue_full";
  retryable = true;
  ambiguous = false;
  retry_after = none;
  evidence_reference = none;
}

abbrev pub willing : SchedulerBackend
willing = record {
  on_register = λ r. some (
      Value.object
        (Fields.field "ok" (Value.boolean true) (Fields.field "receipt" receipt_value Fields.end)));
  on_inspect = λ r. none;
  on_remove = λ r. none;
}

abbrev pub busy : SchedulerBackend
busy = record {
  on_register = λ r. some (
      Value.object
        (Fields.field "ok" (Value.boolean false) (Fields.field "error" failure_value Fields.end)));
  on_inspect = λ r. none;
  on_remove = λ r. none;
}

pub request_accepted : parse_scheduler_backend_request (request_value request) ≡ some request
unfolding parse_scheduler_backend_request request_from request_record base_from parse_scope
    scope_from register_from exact_record revision name is_name named bounded_text is_bounded same
request_accepted = refl

pub receipt_returned :
    invoke_scheduler_backend willing (request_value request)
    ≡ SchedulerBackendResult.received receipt
unfolding invoke_scheduler_backend parse_scheduler_backend_result received_from failed_from
    parse_receipt receipt_from receipt_of scheduler_receipt_semantics_are_valid
    parse_scheduler_backend_request request_from request_record base_from parse_scope scope_from
    register_from exact_record revision name is_name named bounded_text is_bounded same or_null_by
    equal_text equal_number timestamp is_timestamp truth_value
receipt_returned = refl

pub failure_returned :
    invoke_scheduler_backend busy (request_value request) ≡ SchedulerBackendResult.failed failure
unfolding invoke_scheduler_backend parse_scheduler_backend_result received_from failed_from
    parse_failure failure_from is_retryable is_ambiguous parse_scheduler_backend_request
    request_from request_record base_from parse_scope scope_from register_from exact_record revision
    name is_name named bounded_text is_bounded same or_null_by timestamp is_timestamp truth_value
failure_returned = refl
