-- ===== src/Policy/Requests.antt =====
-- src/project-policy-port.ts: the requests to a policy.
use agent_task_orchestrator.Base.{Text, String, ℕ, List, [], ◌∷◌, Option, some}
use agent_task_orchestrator.Domain.Value.{Value, Fields, Unicode, get, is_constant}
use agent_task_orchestrator.Domain.Encode.{natural}
use agent_task_orchestrator.Reader.{◌>>=◌, ◌>>◌, check, Dates, exact_record, revision}
use agent_task_orchestrator.Ports.{named}
use agent_task_orchestrator.Policy.Values.{plain_text, equal_value}
use agent_task_orchestrator.Policy.Subjects.{
  ProjectPolicyOperation, policy_operation_name, project_policy_operations, parse_subject,
}

abbrev pub policy_contract_id : String
policy_contract_id = "ato.project-policy/v1"

pub record ProjectPolicyRequest : Type 0 where
  pub operation : ProjectPolicyOperation
  pub policy_query_id : Text
  pub correlation_id : Text
  pub actor_id : Text
  pub preliminary_authorization_decision_id : Text
  pub requested_action : Text
  pub policy_id : Text
  pub policy_key : Text
  pub policy_config_revision : ℕ
  pub adapter_id : Text
  pub adapter_version : Text
  pub subject : Fields

abbrev request_keys : List String
request_keys =
    "contractId" ∷ "operation" ∷ "policyQueryId" ∷ "correlationId" ∷ "actorId"
    ∷ "preliminaryAuthorizationDecisionId" ∷ "requestedAction" ∷ "policyId" ∷ "policyKey"
    ∷ "policyConfigRevision" ∷ "adapterId" ∷ "adapterVersion" ∷ "subject" ∷ []

module _ ⦃u : Unicode⦄ ⦃d : Dates⦄ where
  -- `parseProjectPolicyRequest`
  unfoldable pub parse_project_policy_request : Value → Option ProjectPolicyRequest
  parse_project_policy_request v = do
    r ← exact_record v request_keys
    check (is_constant (get r "contractId") policy_contract_id)
    operation ← named policy_operation_name project_policy_operations (get r "operation")
    policy_query_id ← plain_text 128 (get r "policyQueryId")
    correlation_id ← plain_text 128 (get r "correlationId")
    actor_id ← plain_text 128 (get r "actorId")
    decision_id ← plain_text 128 (get r "preliminaryAuthorizationDecisionId")
    requested_action ← plain_text 128 (get r "requestedAction")
    policy_id ← plain_text 128 (get r "policyId")
    policy_key ← plain_text 128 (get r "policyKey")
    config_revision ← revision (get r "policyConfigRevision")
    adapter_id ← plain_text 128 (get r "adapterId")
    adapter_version ← plain_text 128 (get r "adapterVersion")
    subject ← parse_subject operation (get r "subject")
    check (equal_value (get subject "projectConfigRevision") (natural config_revision))
    some (record {
      operation = operation;
      policy_query_id = policy_query_id;
      correlation_id = correlation_id;
      actor_id = actor_id;
      preliminary_authorization_decision_id = decision_id;
      requested_action = requested_action;
      policy_id = policy_id;
      policy_key = policy_key;
      policy_config_revision = config_revision;
      adapter_id = adapter_id;
      adapter_version = adapter_version;
      subject = subject;
    })
