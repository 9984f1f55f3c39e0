-- ===== src/Policy/Samples.antt =====
-- A request about a Task, the receipt and the failure that answer it, and facts with one gate.
use agent_task_orchestrator.Base.{
  String, ◌≡◌, refl, true, [], ◌∷◌, none, some, text, same, before, is_unique, includes,
}
use agent_task_orchestrator.Domain.Value.{Value, Fields, Items}
use agent_task_orchestrator.Domain.Encode.{constant, natural}
use agent_task_orchestrator.Domain.Samples.{ascii}
use agent_task_orchestrator.Authorization.Samples.{any_date}
use agent_task_orchestrator.Reader.{
  exact_record, revision, timestamp, is_timestamp, truth_value, or_null_by, equal_text,
  equal_number,
}
use agent_task_orchestrator.Ports.{named}
use agent_task_orchestrator.Policy.Values.{
  is_plain, plain_text, is_text, is_revision, is_sha256, exact_array, equal_value,
}
use agent_task_orchestrator.Policy.Subjects.{
  ProjectPolicyOperation, parse_subject_base, parse_mutation_subject, parse_subject, agrees,
  same_subject,
}
use agent_task_orchestrator.Policy.Facts.{
  PolicyGateRequirement, Requirement, CleanupRule, ProjectPolicyFacts, digest, seconds, gate_from,
  parse_gate_requirement, parse_gates, facts_from, parse_project_policy_facts,
}
use agent_task_orchestrator.Policy.Requests.{ProjectPolicyRequest}
use agent_task_orchestrator.Policy.Results.{
  ProjectPolicyDecision, ProjectPolicyReceipt, ProjectPolicyResult, identity_of, identity_from,
  policy_receipt_end, policy_receipt, parse_project_policy_result,
}

-- 64 digits.
abbrev zeros : String
zeros = "0000000000000000000000000000000000000000000000000000000000000000"

abbrev pub clock : String
clock = "2026-01-01T12:00:00.000Z"

abbrev pub later : String
later = "2026-01-01T12:05:00.000Z"

abbrev pub subject : Fields
subject = Fields.field "projectId" (constant "p") (
    Fields.field "projectResourceRevision" (natural 3) (
      Fields.field "projectConfigRevision" (natural 2) (
        Fields.field "projectRootKey" (constant "root") (
          Fields.field "repositoryIdentity" (constant "repo") (
            Fields.field "subjectKind" (constant "task") (
              Fields.field "subjectId" (constant "t") (
                Fields.field "currentRevision" (natural 1) (
                  Fields.field "proposedChangeSha256" (constant zeros)
                    (Fields.field "externalTargetSha256" Value.null Fields.end)))))))))

abbrev pub request : ProjectPolicyRequest
request = record {
  operation = ProjectPolicyOperation.evaluate_mutation;
  policy_query_id = text "q";
  correlation_id = text "c";
  actor_id = text "ann";
  preliminary_authorization_decision_id = text "d";
  requested_action = text "task.update";
  policy_id = text "local";
  policy_key = text "default";
  policy_config_revision = 2;
  adapter_id = text "adapter";
  adapter_version = text "1";
  subject = subject;
}

abbrev pub gate_value : Value
gate_value = Value.object (
    Fields.field "gateId" (constant "unit") (
      Fields.field "gateVersion" (constant "1") (
        Fields.field "commandKey" (constant "test") (
          Fields.field "commandIdentitySha256" (constant zeros) (
            Fields.field "toolEnvironmentSha256" (constant zeros)
              (Fields.field "validForSeconds" (natural 600) Fields.end))))))

abbrev pub gate : PolicyGateRequirement
gate = record {
  gate_id = text "unit";
  gate_version = text "1";
  command_key = text "test";
  command_identity_sha256 = text zeros;
  tool_environment_sha256 = text zeros;
  valid_for_seconds = some 600;
}

abbrev pub facts_value : Value
facts_value = Value.object (
    Fields.field "requiredGates" (Value.array (Items.item gate_value Items.nil)) (
      Fields.field "integration" (constant "required") (
        Fields.field "preservation" (constant "required")
          (Fields.field "cleanup" (constant "prohibited") Fields.end))))

abbrev pub facts : ProjectPolicyFacts
facts = record {
  required_gates = gate ∷ [];
  integration = Requirement.required;
  preservation = Requirement.required;
  cleanup = CleanupRule.prohibited;
}

abbrev pub receipt : ProjectPolicyReceipt
receipt = record {
  identity = identity_of request;
  receipt_id = text "r";
  subject = subject;
  decision = ProjectPolicyDecision.allow;
  reason_code = text "ok";
  facts = facts;
  valid_until = some (text later);
  evidence_reference = none;
  observed_at = text clock;
}

abbrev pub receipt_value : Value
receipt_value = Value.object (
    Fields.field "contractId" (constant "ato.project-policy/v1") (
      Fields.field "receiptId" (constant "r") (
        Fields.field "operation" (constant "evaluate_mutation") (
          Fields.field "policyQueryId" (constant "q") (
            Fields.field "correlationId" (constant "c") (
              Fields.field "actorId" (constant "ann") (
                Fields.field "preliminaryAuthorizationDecisionId" (constant "d") (
                  Fields.field "requestedAction" (constant "task.update") (
                    Fields.field "policyId" (constant "local") (
                      Fields.field "policyKey" (constant "default") (
                        Fields.field "policyConfigRevision" (natural 2) (
                          Fields.field "adapterId" (constant "adapter") (
                            Fields.field "adapterVersion" (constant "1") (
                              Fields.field "subject" (Value.object subject) (
                                Fields.field "decision" (constant "allow") (
                                  Fields.field "reasonCode" (constant "ok") (
                                    Fields.field "facts" facts_value (
                                      Fields.field "validUntil" (constant later) (
                                        Fields.field "evidenceReference" Value.null (
                                          Fields.field "observedAt" (constant clock)
                                            Fields.end))))))))))))))))))))

abbrev pub result_value : Value
result_value =
    Value.object
      (Fields.field "ok" (Value.boolean true) (Fields.field "receipt" receipt_value Fields.end))

pub gates_read : parse_gates (gate_value ∷ []) ≡ some (gate ∷ [])
unfolding parse_gates parse_gate_requirement gate_from exact_record plain_text is_plain digest
    seconds revision or_null_by same
gates_read = refl

pub facts_read : parse_project_policy_facts facts_value ≡ some facts
unfolding parse_project_policy_facts facts_from exact_array parse_gates parse_gate_requirement
    gate_from exact_record plain_text is_plain digest seconds revision or_null_by same named
    is_unique includes
facts_read = refl

pub receipt_read :
    parse_project_policy_result result_value request ≡ some (ProjectPolicyResult.received receipt)
unfolding parse_project_policy_result policy_receipt policy_receipt_end identity_from parse_subject
    parse_mutation_subject parse_subject_base is_text is_revision is_sha256 same_subject agrees
    equal_value equal_text equal_number timestamp is_timestamp truth_value
    parse_project_policy_facts facts_from exact_array parse_gates parse_gate_requirement gate_from
    exact_record plain_text is_plain digest seconds revision or_null_by same before named is_unique
    includes
receipt_read = refl
