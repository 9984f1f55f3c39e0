-- ===== src/Scheduler/Requests.antt =====
-- src/scheduler-port.ts: the requests to a scheduler and the triggers from it.
use agent_task_orchestrator.Base.{
  Text, String, ℕ, true, false, ◌&&◌, List, [], ◌∷◌, Option, none, some,
}
use agent_task_orchestrator.Domain.Value.{Value, Fields, Unicode, get, is_constant, is_null}
use agent_task_orchestrator.Domain.Encode.{constant, natural, nullable_text_value}
use agent_task_orchestrator.Reader.{
  ◌>>=◌, ◌>>◌, check, Dates, exact_record, revision, timestamp, or_null_by, or_else,
}
use agent_task_orchestrator.Ports.{name, named, bounded_text}

abbrev pub contract_id : String
contract_id = "ato.scheduler/v1"

pub data SchedulerOperation : Type 0 where
  register inspect remove : SchedulerOperation

abbrev pub operation_name : SchedulerOperation → String
operation_name SchedulerOperation.register = "register"
operation_name SchedulerOperation.inspect = "inspect"
operation_name SchedulerOperation.remove = "remove"

abbrev pub scheduler_operations : List SchedulerOperation
scheduler_operations =
    SchedulerOperation.register ∷ SchedulerOperation.inspect ∷ SchedulerOperation.remove ∷ []

pub data SchedulerScope : Type 0 where
  runtime : SchedulerScope
  project : Text → ℕ → ℕ → SchedulerScope

pub record SchedulerRequestBase : Type 0 where
  pub operation_id : Text
  pub correlation_id : Text
  pub schedule_id : Text
  pub config_revision : ℕ
  pub scope : SchedulerScope

pub record SchedulerRegisterRequest : Type 0 where
  pub base : SchedulerRequestBase
  pub idempotency_key : Text
  pub schedule_expression : Text
  pub time_zone : Text
  pub dispatcher_target : Text

pub record SchedulerInspectRequest : Type 0 where
  pub base : SchedulerRequestBase
  pub external_registration_id : Option Text

pub record SchedulerRemoveRequest : Type 0 where
  pub base : SchedulerRequestBase
  pub idempotency_key : Text
  pub external_registration_id : Text

pub data SchedulerBackendRequest : Type 0 where
  to_register : SchedulerRegisterRequest → SchedulerBackendRequest
  to_inspect : SchedulerInspectRequest → SchedulerBackendRequest
  to_remove : SchedulerRemoveRequest → SchedulerBackendRequest

abbrev pub base_of : SchedulerBackendRequest → SchedulerRequestBase
base_of (SchedulerBackendRequest.to_register r) = r.base
base_of (SchedulerBackendRequest.to_inspect r) = r.base
base_of (SchedulerBackendRequest.to_remove r) = r.base

abbrev pub operation_of : SchedulerBackendRequest → SchedulerOperation
operation_of (SchedulerBackendRequest.to_register r) = SchedulerOperation.register
operation_of (SchedulerBackendRequest.to_inspect r) = SchedulerOperation.inspect
operation_of (SchedulerBackendRequest.to_remove r) = SchedulerOperation.remove

pub record SchedulerDispatchTrigger : Type 0 where
  pub trigger_id : Text
  pub schedule_id : Text
  pub config_revision : ℕ
  pub scheduled_for : Text
  pub observed_at : Text
  pub claimed_deduplication : Text

-- The two branches of `parseScope`.
abbrev scope_of_runtime : Value → Value → Value → Option SchedulerScope
scope_of_runtime id resource config = do
  check (is_null id && is_null resource && is_null config)
  some SchedulerScope.runtime

abbrev scope_of_project : Value → Value → Value → Option SchedulerScope
scope_of_project id resource config = do
  project_id ← name id
  resource_revision ← revision resource
  config_revision ← revision config
  some (SchedulerScope.project project_id resource_revision config_revision)

unfoldable pub scope_from : Value → Value → Value → Value → Option SchedulerScope
scope_from kind id resource config = elim (is_constant kind "runtime") [
  | true ↦ scope_of_runtime id resource config
  | false ↦ elim (is_constant kind "project") [
    | true ↦ scope_of_project id resource config
    | false ↦ none
  ]
]

-- `parseScope`
unfoldable pub parse_scope : Value → Option SchedulerScope
unfolding scope_from
parse_scope v = do
  r ←
      exact_record v
        ("kind" ∷ "projectId" ∷ "projectResourceRevision" ∷ "projectConfigRevision" ∷ [])
  scope_from (get r "kind") (get r "projectId") (get r "projectResourceRevision")
      (get r "projectConfigRevision")

-- What every operation has.
unfoldable pub base_from : Value → Value → Value → Value → Value → Option SchedulerRequestBase
base_from v1 v2 v3 v4 v5 = do
  operation_id ← name v1
  correlation_id ← name v2
  schedule_id ← name v3
  config_revision ← revision v4
  scope ← parse_scope v5
  some (record {
    operation_id = operation_id;
    correlation_id = correlation_id;
    schedule_id = schedule_id;
    config_revision = config_revision;
    scope = scope;
  })

-- The three ends of `parseSchedulerBackendRequest`.
module _ ⦃u : Unicode⦄ where
  unfoldable pub register_from :
      SchedulerRequestBase → Value → Value → Value → Value → Option SchedulerBackendRequest
  register_from base v1 v2 v3 v4 = do
    schedule_expression ← bounded_text 256 v2
    time_zone ← bounded_text 128 v3
    idempotency_key ← name v1
    dispatcher_target ← name v4
    some (
        SchedulerBackendRequest.to_register (record {
          base = base;
          idempotency_key = idempotency_key;
          schedule_expression = schedule_expression;
          time_zone = time_zone;
          dispatcher_target = dispatcher_target;
        }))

  unfoldable pub inspect_from : SchedulerRequestBase → Value → Option SchedulerBackendRequest
  inspect_from base v = do
    id ← or_null_by name v
    some
        (SchedulerBackendRequest.to_inspect (record { base = base; external_registration_id = id }))

  unfoldable pub remove_from : SchedulerRequestBase → Value → Value → Option SchedulerBackendRequest
  remove_from base v1 v2 = do
    id ← name v2
    idempotency_key ← name v1
    some (
        SchedulerBackendRequest.to_remove (record {
          base = base;
          idempotency_key = idempotency_key;
          external_registration_id = id;
        }))

  abbrev pub request_by :
      SchedulerOperation → SchedulerRequestBase → Fields → Option SchedulerBackendRequest
  request_by SchedulerOperation.register base r =
      register_from base (get r "idempotencyKey") (get r "scheduleExpression") (get r "timeZone")
        (get r "dispatcherTarget")
  request_by SchedulerOperation.inspect base r = inspect_from base (get r "externalRegistrationId")
  request_by SchedulerOperation.remove base r =
      remove_from base (get r "idempotencyKey") (get r "externalRegistrationId")

  unfoldable pub request_from : Fields → Option SchedulerBackendRequest
  request_from r = do
    check (is_constant (get r "contractId") contract_id)
    operation ← named operation_name scheduler_operations (get r "operation")
    base ←
        base_from (get r "operationId") (get r "correlationId") (get r "scheduleId")
          (get r "configRevision") (get r "scope")
    request_by operation base r

  -- The record, by the keys of one of the three shapes.
  unfoldable pub request_record : Value → Option Fields
  request_record v =
      or_else
        (exact_record v (
          "contractId" ∷ "operation" ∷ "operationId" ∷ "idempotencyKey" ∷ "correlationId"
          ∷ "scheduleId" ∷ "configRevision" ∷ "scope" ∷ "scheduleExpression" ∷ "timeZone"
          ∷ "dispatcherTarget" ∷ []))
        (or_else
          (exact_record v (
            "contractId" ∷ "operation" ∷ "operationId" ∷ "correlationId" ∷ "scheduleId"
            ∷ "configRevision" ∷ "scope" ∷ "externalRegistrationId" ∷ []))
          (exact_record v (
            "contractId" ∷ "operation" ∷ "operationId" ∷ "idempotencyKey" ∷ "correlationId"
            ∷ "scheduleId" ∷ "configRevision" ∷ "scope" ∷ "externalRegistrationId" ∷ [])))

  -- `parseSchedulerBackendRequest`
  unfoldable pub parse_scheduler_backend_request : Value → Option SchedulerBackendRequest
  unfolding request_from request_record
  parse_scheduler_backend_request v = do r ← request_record v; request_from r

-- `parseSchedulerDispatchTrigger`
unfoldable pub parse_scheduler_dispatch_trigger :
    ⦃d : Dates⦄ → Value → Option SchedulerDispatchTrigger
parse_scheduler_dispatch_trigger v = do
  r ← exact_record v (
      "contractId" ∷ "operation" ∷ "triggerId" ∷ "scheduleId" ∷ "configRevision" ∷ "scheduledFor"
      ∷ "observedAt" ∷ "claimedDeduplication" ∷ [])
  check (
      is_constant (get r "contractId") contract_id
      && is_constant (get r "operation") "dispatch_trigger")
  trigger_id ← name (get r "triggerId")
  schedule_id ← name (get r "scheduleId")
  config_revision ← revision (get r "configRevision")
  scheduled_for ← timestamp (get r "scheduledFor")
  observed_at ← timestamp (get r "observedAt")
  claimed_deduplication ← name (get r "claimedDeduplication")
  some (record {
    trigger_id = trigger_id;
    schedule_id = schedule_id;
    config_revision = config_revision;
    scheduled_for = scheduled_for;
    observed_at = observed_at;
    claimed_deduplication = claimed_deduplication;
  })

-- A scope and a request as the objects that they are.
abbrev pub scope_value : SchedulerScope → Value
scope_value SchedulerScope.runtime = Value.object (
    Fields.field "kind" (constant "runtime") (
      Fields.field "projectId" Value.null (
        Fields.field "projectResourceRevision" Value.null
          (Fields.field "projectConfigRevision" Value.null Fields.end))))
scope_value (SchedulerScope.project id resource config) = Value.object (
    Fields.field "kind" (constant "project") (
      Fields.field "projectId" (Value.string id) (
        Fields.field "projectResourceRevision" (natural resource)
          (Fields.field "projectConfigRevision" (natural config) Fields.end))))

abbrev base_fields : SchedulerOperation → SchedulerRequestBase → Fields → Fields
base_fields operation b rest = Fields.field "contractId" (constant contract_id) (
    Fields.field "operation" (constant (operation_name operation)) (
      Fields.field "operationId" (Value.string b.operation_id) (
        Fields.field "correlationId" (Value.string b.correlation_id) (
          Fields.field "scheduleId" (Value.string b.schedule_id) (
            Fields.field "configRevision" (natural b.config_revision)
              (Fields.field "scope" (scope_value b.scope) rest))))))

abbrev pub request_value : SchedulerBackendRequest → Value
request_value (SchedulerBackendRequest.to_register r) = Value.object (
    base_fields SchedulerOperation.register r.base (
      Fields.field "idempotencyKey" (Value.string r.idempotency_key) (
        Fields.field "scheduleExpression" (Value.string r.schedule_expression) (
          Fields.field "timeZone" (Value.string r.time_zone)
            (Fields.field "dispatcherTarget" (Value.string r.dispatcher_target) Fields.end)))))
request_value (SchedulerBackendRequest.to_inspect r) = Value.object (
    base_fields SchedulerOperation.inspect r.base (
      Fields.field "externalRegistrationId" (nullable_text_value r.external_registration_id)
        Fields.end))
request_value (SchedulerBackendRequest.to_remove r) = Value.object (
    base_fields SchedulerOperation.remove r.base (
      Fields.field "idempotencyKey" (Value.string r.idempotency_key) (
        Fields.field "externalRegistrationId" (Value.string r.external_registration_id)
          Fields.end)))
