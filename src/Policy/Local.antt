-- ===== src/Policy/Local.antt =====
-- src/local-project-policy.ts: the answer of the local policy to a request, over policies that its
-- configuration has checked.
use agent_task_orchestrator.Base.{
  Text, String, ℕ, Bool, true, false, not, ◌&&◌, List, [], ◌∷◌, ◌++◌, Option, none, some, same,
  find, text, ◌==◌, if◌then◌else◌,
}
use agent_task_orchestrator.Domain.Value.{Value, Fields, Items, Unicode, end, field, nil, item}
use agent_task_orchestrator.Domain.Encode.{constant, natural, nullable_text_value}
use agent_task_orchestrator.Reader.{Dates}
use agent_task_orchestrator.Ports.{FailureCategory}
use agent_task_orchestrator.Policy.Subjects.{ProjectPolicyOperation, policy_operation_name}
use agent_task_orchestrator.Policy.Facts.{
  PolicyGateRequirement, requirement_name, cleanup_name, ProjectPolicyFacts,
}
use agent_task_orchestrator.Policy.Requests.{
  ProjectPolicyRequest, policy_contract_id, parse_project_policy_request,
}
use agent_task_orchestrator.Policy.Results.{
  ProjectPolicyDecision, decision_name, ProjectPolicyResult, parse_project_policy_result,
}
pub mod Readings
pub mod Outcomes
pub mod Answers
pub mod Samples

abbrev pub local_adapter_id : String
local_adapter_id = "local-project-policy"

abbrev pub local_adapter_version : String
local_adapter_version = "1.0.0"

pub record LocalDecision : Type 0 where
  pub decision : ProjectPolicyDecision
  pub reason_code : Text

pub record LocalPolicy : Type 0 where
  pub policy_id : Text
  pub policy_key : Text
  pub config_revision : ℕ
  pub decisions : ProjectPolicyOperation → LocalDecision
  pub facts : ProjectPolicyFacts
  pub receipt_validity_seconds : ℕ

-- What the runtime computes: the digest of the canonical JSON of a value, and the time a number of
-- seconds after a time, where that is a time: `toISOString` throws a RangeError past the last one.
pub record Runtime : Type 0 where
  pub sha256 : Value → Text
  pub after : Text → ℕ → Option Text

abbrev seconds_value : Option ℕ → Value
seconds_value none = Value.null
seconds_value (some n) = natural n

abbrev gates_value : List PolicyGateRequirement → Items
gates_value [] = nil
gates_value (g ∷ gs) =
    item
      (Value.object (
        field "gateId" (Value.string g.gate_id) (
          field "gateVersion" (Value.string g.gate_version) (
            field "commandKey" (Value.string g.command_key) (
              field "commandIdentitySha256" (Value.string g.command_identity_sha256) (
                field "toolEnvironmentSha256" (Value.string g.tool_environment_sha256)
                  (field "validForSeconds" (seconds_value g.valid_for_seconds) end)))))))
      (gates_value gs)

abbrev facts_value : ProjectPolicyFacts → Value
facts_value f = Value.object (
    field "requiredGates" (Value.array (gates_value f.required_gates)) (
      field "integration" (constant (requirement_name f.integration)) (
        field "preservation" (constant (requirement_name f.preservation))
          (field "cleanup" (constant (cleanup_name f.cleanup)) end))))

abbrev pub request_value : ProjectPolicyRequest → Value
request_value request = Value.object (
    field "contractId" (constant policy_contract_id) (
      field "operation" (constant (policy_operation_name request.operation)) (
        field "policyQueryId" (Value.string request.policy_query_id) (
          field "correlationId" (Value.string request.correlation_id) (
            field "actorId" (Value.string request.actor_id) (
              field "preliminaryAuthorizationDecisionId"
                (Value.string request.preliminary_authorization_decision_id)
                (field "requestedAction" (Value.string request.requested_action) (
                  field "policyId" (Value.string request.policy_id) (
                    field "policyKey" (Value.string request.policy_key) (
                      field "policyConfigRevision" (natural request.policy_config_revision) (
                        field "adapterId" (Value.string request.adapter_id) (
                          field "adapterVersion" (Value.string request.adapter_version)
                            (field "subject" (Value.object request.subject) end)))))))))))))

-- `category === "integrity_failure"`
abbrev pub is_integrity : FailureCategory → Bool
is_integrity FailureCategory.integrity_failure = true
is_integrity _ = false

-- `failure`
abbrev pub local_failure : FailureCategory → String → ProjectPolicyResult
local_failure category code = ProjectPolicyResult.failed (record {
  category = category;
  code = text code;
  retryable = false;
  ambiguous = is_integrity category;
  retry_after = none;
  evidence_reference = none;
})

-- The test of `policies.find`.
abbrev pub configures : ProjectPolicyRequest → LocalPolicy → Bool
configures request p =
    same p.policy_id request.policy_id
    && same p.policy_key request.policy_key
    && p.config_revision == request.policy_config_revision

abbrev pub is_local : ProjectPolicyRequest → Bool
is_local request =
    same request.adapter_id (text local_adapter_id)
    && same request.adapter_version (text local_adapter_version)

-- `timestamp` of this file.
unfoldable pub clock_time : ⦃d : Dates⦄ → Value → Option Text
clock_time ⦃d⦄ (Value.string s) = if d.is_iso s then some s else none
clock_time _ = none

-- `?? failure("integrity_failure", "policy_receipt_invalid")`
abbrev pub or_invalid : Option ProjectPolicyResult → ProjectPolicyResult
or_invalid none = local_failure FailureCategory.integrity_failure "policy_receipt_invalid"
or_invalid (some result) = result

module _ ⦃c : Runtime⦄ where
  -- `new Date(…).toISOString()`, which may throw.
  abbrev pub time_value : Option Text → Option Value
  time_value none = none
  time_value (some t) = some (Value.string t)

  -- `decision.decision === "allow" ? … : null`
  abbrev pub valid_until : ProjectPolicyDecision → Text → ℕ → Option Value
  valid_until ProjectPolicyDecision.allow observed n = time_value (c.after observed n)
  valid_until _ observed n = some Value.null

  -- `identityDigest`
  abbrev pub identity_digest : ProjectPolicyRequest → LocalDecision → LocalPolicy → Text → Text
  identity_digest request chosen p observed = c.sha256 (
      Value.object (
        field "request" (request_value request) (
          field "decision"
            (Value.object (
              field "decision" (constant (decision_name chosen.decision))
                (field "reasonCode" (Value.string chosen.reason_code) end)))
            (field "facts" (facts_value p.facts)
              (field "observedAt" (Value.string observed) end)))))

  -- The fields of the receipt of `candidate`.
  abbrev pub receipt_fields :
      ProjectPolicyRequest → LocalDecision → LocalPolicy → Text → Text → Value → Fields
  receipt_fields request chosen p observed digest until =
      field "contractId" (constant policy_contract_id) (
        field "receiptId" (Value.string (text "policy-receipt:" ++ digest)) (
          field "operation" (constant (policy_operation_name request.operation)) (
            field "policyQueryId" (Value.string request.policy_query_id) (
              field "correlationId" (Value.string request.correlation_id) (
                field "actorId" (Value.string request.actor_id) (
                  field "preliminaryAuthorizationDecisionId"
                    (Value.string request.preliminary_authorization_decision_id)
                    (field "requestedAction" (Value.string request.requested_action) (
                      field "policyId" (Value.string request.policy_id) (
                        field "policyKey" (Value.string request.policy_key) (
                          field "policyConfigRevision" (natural request.policy_config_revision) (
                            field "adapterId" (constant local_adapter_id) (
                              field "adapterVersion" (constant local_adapter_version) (
                                field "subject" (Value.object request.subject) (
                                  field "decision" (constant (decision_name chosen.decision)) (
                                    field "reasonCode" (Value.string chosen.reason_code) (
                                      field "facts" (facts_value p.facts) (
                                        field "validUntil" until (
                                          field "evidenceReference"
                                            (Value.string (text "policy-evidence:" ++ digest))
                                            (field "observedAt" (Value.string observed)
                                              end)))))))))))))))))))

  -- `candidate`
  abbrev pub candidate : ProjectPolicyRequest → LocalPolicy → Text → Value → Value
  candidate request p observed until =
      let chosen = p.decisions request.operation in
      let digest = identity_digest request chosen p observed in
      Value.object (
        field "ok" (Value.boolean true) (
          field "receipt" (Value.object (receipt_fields request chosen p observed digest until))
            end))

  module _ ⦃u : Unicode⦄ ⦃d : Dates⦄ where
    -- The rest of `dispatch` behind `validUntil`; an exception that it meets leaves the function.
    abbrev pub answer_until :
        ProjectPolicyRequest → LocalPolicy → Text → Option Value → Option ProjectPolicyResult
    answer_until request p observed none = none
    answer_until request p observed (some until) =
        some (or_invalid (parse_project_policy_result (candidate request p observed until) request))

    abbrev pub answer_at :
        ProjectPolicyRequest → LocalPolicy → Option Text → Option ProjectPolicyResult
    answer_at request p none =
        some (local_failure FailureCategory.integrity_failure "policy_clock_invalid")
    answer_at request p (some observed) =
        answer_until request p observed
          (valid_until (p.decisions request.operation).decision observed p.receipt_validity_seconds)

    -- `ingress.now()` and what follows; a clock that throws is `none`.
    abbrev pub answer_now :
        ProjectPolicyRequest → LocalPolicy → Option Value → Option ProjectPolicyResult
    answer_now request p none = none
    answer_now request p (some now) = answer_at request p (clock_time now)

    abbrev pub answer_by :
        ProjectPolicyRequest → Option Value → Option LocalPolicy → Option ProjectPolicyResult
    answer_by request now none =
        some (local_failure FailureCategory.not_found "policy_configuration_absent")
    answer_by request now (some p) = answer_now request p now

    abbrev pub dispatch_request :
        List LocalPolicy
        → Option Value
        → ProjectPolicyOperation
        → Option ProjectPolicyRequest
        → Option ProjectPolicyResult
    dispatch_request policies now expected none =
        some (local_failure FailureCategory.invalid_request "policy_request_invalid")
    dispatch_request policies now expected (some request) =
        if not (
          same (text (policy_operation_name request.operation))
            (text (policy_operation_name expected)))
        then some (local_failure FailureCategory.invalid_request "policy_request_invalid")
        else if not (is_local request)
        then some (local_failure FailureCategory.incompatible_contract "policy_adapter_mismatch")
        else answer_by request now (find (configures request) policies)

    -- `dispatch`, with what the clock answers; `none` is an exception that leaves it.
    unfoldable pub dispatch :
        List LocalPolicy
        → Option Value
        → Value
        → ProjectPolicyOperation
        → Option ProjectPolicyResult
    dispatch policies now v expected =
        dispatch_request policies now expected (parse_project_policy_request v)
