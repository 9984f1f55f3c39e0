-- ===== src/Policy/Local/Samples.antt =====
-- One local policy, and its answer to a request about a Task.
use agent_task_orchestrator.Base.{
  ◌≡◌, refl, [], ◌∷◌, List, some, text, same, before, is_unique, includes,
}
use agent_task_orchestrator.Domain.Encode.{constant}
use agent_task_orchestrator.Domain.States.{spelled}
use agent_task_orchestrator.Domain.Samples.{ascii}
use agent_task_orchestrator.Authorization.Samples.{any_date}
use agent_task_orchestrator.Reader.{
  exact_record, revision, timestamp, is_timestamp, truth_value, or_null_by, equal_text,
  equal_number,
}
use agent_task_orchestrator.Ports.{named}
use agent_task_orchestrator.Policy.Values.{
  is_plain, plain_text, is_text, is_revision, is_sha256, exact_array, equal_value,
}
use agent_task_orchestrator.Policy.Subjects.{
  ProjectPolicyOperation, parse_subject_base, parse_mutation_subject, parse_subject, agrees,
  same_subject,
}
use agent_task_orchestrator.Policy.Facts.{
  digest, seconds, gate_from, parse_gate_requirement, parse_gates, facts_from,
  parse_project_policy_facts,
}
use agent_task_orchestrator.Policy.Requests.{ProjectPolicyRequest, parse_project_policy_request}
use agent_task_orchestrator.Policy.Results.{
  ProjectPolicyDecision, ProjectPolicyReceipt, ProjectPolicyResult, identity_of, identity_from,
  policy_receipt_end, policy_receipt, parse_project_policy_result,
}
use agent_task_orchestrator.Policy.Samples.{subject, facts, clock, later}
use agent_task_orchestrator.Policy.Local.{Runtime, LocalPolicy, request_value, dispatch, clock_time}
use agent_task_orchestrator.Policy.Local.Outcomes.{IsDispatched}
use agent_task_orchestrator.Policy.Local.Answers.{dispatch-IsDispatched}

instance abbrev fixed_runtime : Runtime
fixed_runtime = record { sha256 = λ v. text "0A"; after = λ t n. some (text later) }

abbrev asked : ProjectPolicyRequest
asked = record {
  operation = ProjectPolicyOperation.evaluate_mutation;
  policy_query_id = text "q";
  correlation_id = text "c";
  actor_id = text "ann";
  preliminary_authorization_decision_id = text "d";
  requested_action = text "task.update";
  policy_id = text "local";
  policy_key = text "default";
  policy_config_revision = 2;
  adapter_id = text "local-project-policy";
  adapter_version = text "1.0.0";
  subject = subject;
}

abbrev policies : List LocalPolicy
policies =
    record {
      policy_id = text "local";
      policy_key = text "default";
      config_revision = 2;
      decisions = λ o. record { decision = ProjectPolicyDecision.allow; reason_code = text "ok" };
      facts = facts;
      receipt_validity_seconds = 300;
    }
    ∷ []

abbrev answered : ProjectPolicyReceipt
answered = record {
  identity = identity_of asked;
  receipt_id = text "policy-receipt:0A";
  subject = subject;
  decision = ProjectPolicyDecision.allow;
  reason_code = text "ok";
  facts = facts;
  valid_until = some (text later);
  evidence_reference = some (text "policy-evidence:0A");
  observed_at = text clock;
}

dispatched :
    dispatch policies
      (some (constant clock))
      (request_value asked)
      ProjectPolicyOperation.evaluate_mutation
    ≡ some (ProjectPolicyResult.received answered)
unfolding dispatch clock_time parse_project_policy_request parse_project_policy_result
    policy_receipt policy_receipt_end identity_from parse_subject parse_mutation_subject
    parse_subject_base is_text is_revision is_sha256 same_subject agrees equal_value equal_text
    equal_number timestamp is_timestamp truth_value parse_project_policy_facts facts_from
    exact_array parse_gates parse_gate_requirement gate_from exact_record plain_text is_plain digest
    seconds revision or_null_by same before named spelled is_unique includes
dispatched = refl

dispatch-IsDispatched_example :
    IsDispatched policies
      (some (constant clock))
      (request_value asked)
      ProjectPolicyOperation.evaluate_mutation
      (dispatch policies
        (some (constant clock))
        (request_value asked)
        ProjectPolicyOperation.evaluate_mutation)
dispatch-IsDispatched_example =
    dispatch-IsDispatched policies (some (constant clock)) (request_value asked)
      ProjectPolicyOperation.evaluate_mutation
