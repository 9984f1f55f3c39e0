-- ===== src/Policy/Results.antt =====
-- src/project-policy-port.ts: the receipts and failures of a policy.
use agent_task_orchestrator.Base.{
  Text, String, ℕ, Bool, true, false, ◌&&◌, List, [], ◌∷◌, Option, none, some, before, text,
}
use agent_task_orchestrator.Domain.Value.{Value, Fields, Unicode, get, is_constant}
use agent_task_orchestrator.Reader.{
  ◌>>=◌, ◌>>◌, check, Dates, exact_record, timestamp, or_null_by, truth_value, equal_text,
  equal_number, or_else,
}
use agent_task_orchestrator.Ports.{
  FailureCategory, failure_name, failure_categories, is_retryable, is_ambiguous, equal_truth, named,
}
use agent_task_orchestrator.Policy.Values.{plain_text}
use agent_task_orchestrator.Policy.Subjects.{policy_operation_name, parse_subject, same_subject}
use agent_task_orchestrator.Policy.Facts.{ProjectPolicyFacts, parse_project_policy_facts}
use agent_task_orchestrator.Policy.Requests.{ProjectPolicyRequest, policy_contract_id}

pub data ProjectPolicyDecision : Type 0 where
  allow deny defer : ProjectPolicyDecision

abbrev pub decision_name : ProjectPolicyDecision → String
decision_name ProjectPolicyDecision.allow = "allow"
decision_name ProjectPolicyDecision.deny = "deny"
decision_name ProjectPolicyDecision.defer = "defer"

abbrev pub project_policy_decisions : List ProjectPolicyDecision
project_policy_decisions =
    ProjectPolicyDecision.allow ∷ ProjectPolicyDecision.deny ∷ ProjectPolicyDecision.defer ∷ []

-- The fields by which a receipt repeats its request.
pub record PolicyIdentity : Type 0 where
  pub operation : Text
  pub policy_query_id : Text
  pub correlation_id : Text
  pub actor_id : Text
  pub preliminary_authorization_decision_id : Text
  pub requested_action : Text
  pub policy_id : Text
  pub policy_key : Text
  pub policy_config_revision : ℕ
  pub adapter_id : Text
  pub adapter_version : Text

pub record ProjectPolicyReceipt : Type 0 where
  pub identity : PolicyIdentity
  pub receipt_id : Text
  pub subject : Fields
  pub decision : ProjectPolicyDecision
  pub reason_code : Text
  pub facts : ProjectPolicyFacts
  pub valid_until : Option Text
  pub evidence_reference : Option Text
  pub observed_at : Text

pub record ProjectPolicyFailure : Type 0 where
  pub category : FailureCategory
  pub code : Text
  pub retryable : Bool
  pub ambiguous : Bool
  pub retry_after : Option Text
  pub evidence_reference : Option Text

pub data ProjectPolicyResult : Type 0 where
  received : ProjectPolicyReceipt → ProjectPolicyResult
  failed : ProjectPolicyFailure → ProjectPolicyResult

abbrev pub identity_of : ProjectPolicyRequest → PolicyIdentity
identity_of request = record {
  operation = text (policy_operation_name request.operation);
  policy_query_id = request.policy_query_id;
  correlation_id = request.correlation_id;
  actor_id = request.actor_id;
  preliminary_authorization_decision_id = request.preliminary_authorization_decision_id;
  requested_action = request.requested_action;
  policy_id = request.policy_id;
  policy_key = request.policy_key;
  policy_config_revision = request.policy_config_revision;
  adapter_id = request.adapter_id;
  adapter_version = request.adapter_version;
}

-- The comparisons of the record with the request.
unfoldable pub identity_from : ProjectPolicyRequest → Fields → Option PolicyIdentity
identity_from request r = do
  operation ← equal_text (text (policy_operation_name request.operation)) (get r "operation")
  policy_query_id ← equal_text request.policy_query_id (get r "policyQueryId")
  correlation_id ← equal_text request.correlation_id (get r "correlationId")
  actor_id ← equal_text request.actor_id (get r "actorId")
  decision_id ←
      equal_text request.preliminary_authorization_decision_id
        (get r "preliminaryAuthorizationDecisionId")
  requested_action ← equal_text request.requested_action (get r "requestedAction")
  policy_id ← equal_text request.policy_id (get r "policyId")
  policy_key ← equal_text request.policy_key (get r "policyKey")
  config_revision ← equal_number request.policy_config_revision (get r "policyConfigRevision")
  adapter_id ← equal_text request.adapter_id (get r "adapterId")
  adapter_version ← equal_text request.adapter_version (get r "adapterVersion")
  some (record {
    operation = operation;
    policy_query_id = policy_query_id;
    correlation_id = correlation_id;
    actor_id = actor_id;
    preliminary_authorization_decision_id = decision_id;
    requested_action = requested_action;
    policy_id = policy_id;
    policy_key = policy_key;
    policy_config_revision = config_revision;
    adapter_id = adapter_id;
    adapter_version = adapter_version;
  })

abbrev pub policy_failure_keys : List String
policy_failure_keys =
    "category" ∷ "code" ∷ "retryable" ∷ "ambiguous" ∷ "retryAfter" ∷ "evidenceReference" ∷ []

-- `validUntil === null || validUntil > observedAt`
abbrev pub lasts : Option Text → Text → Bool
lasts none observed_at = true
lasts (some t) observed_at = before observed_at t

abbrev pub is_set {ℓ} : {A : Type ℓ} → Option A → Bool
is_set none = false
is_set (some a) = true

abbrev pub is_rate_limited : FailureCategory → Bool
is_rate_limited FailureCategory.rate_limited = true
is_rate_limited _ = false

module _ ⦃u : Unicode⦄ ⦃d : Dates⦄ where
  -- `parseFailure` over the values of the fields.
  unfoldable pub policy_failure_from :
      Value → Value → Value → Value → Value → Value → Option ProjectPolicyFailure
  policy_failure_from v1 v2 v3 v4 v5 v6 = do
    category ← named failure_name failure_categories v1
    code ← plain_text 128 v2
    retryable ← truth_value v3
    ambiguous ← truth_value v4
    retry_after ← or_null_by timestamp v5
    evidence_reference ← or_null_by (plain_text 128) v6
    check (
        equal_truth retryable (is_retryable category)
        && equal_truth ambiguous (is_ambiguous category))
    check (equal_truth (is_rate_limited category) (is_set retry_after))
    some (record {
      category = category;
      code = code;
      retryable = retryable;
      ambiguous = ambiguous;
      retry_after = retry_after;
      evidence_reference = evidence_reference;
    })

  unfoldable pub parse_policy_failure : Value → Option ProjectPolicyFailure
  unfolding policy_failure_from
  parse_policy_failure v = do
    r ← exact_record v policy_failure_keys
    policy_failure_from (get r "category") (get r "code") (get r "retryable") (get r "ambiguous")
        (get r "retryAfter") (get r "evidenceReference")

  abbrev pub policy_receipt_keys : List String
  policy_receipt_keys =
      "contractId" ∷ "receiptId" ∷ "operation" ∷ "policyQueryId" ∷ "correlationId" ∷ "actorId"
      ∷ "preliminaryAuthorizationDecisionId" ∷ "requestedAction" ∷ "policyId" ∷ "policyKey"
      ∷ "policyConfigRevision" ∷ "adapterId" ∷ "adapterVersion" ∷ "subject" ∷ "decision"
      ∷ "reasonCode" ∷ "facts" ∷ "validUntil" ∷ "evidenceReference" ∷ "observedAt" ∷ []

  -- The end of the reading of a receipt: its subject, its facts and its time.
  unfoldable pub policy_receipt_end :
      ProjectPolicyRequest
      → PolicyIdentity
      → Text
      → Text
      → ProjectPolicyDecision
      → Option Text
      → Option Text
      → Text
      → Value
      → Value
      → Option ProjectPolicyReceipt
  policy_receipt_end request identity receipt_id reason_code decision valid_until evidence_reference
        observed_at v1 v2 =
      do
        subject ← parse_subject request.operation v1
        facts ← parse_project_policy_facts v2
        check (same_subject subject request.subject)
        check (lasts valid_until observed_at)
        some (record {
          identity = identity;
          receipt_id = receipt_id;
          subject = subject;
          decision = decision;
          reason_code = reason_code;
          facts = facts;
          valid_until = valid_until;
          evidence_reference = evidence_reference;
          observed_at = observed_at;
        })

  unfoldable pub policy_receipt : ProjectPolicyRequest → Value → Option ProjectPolicyReceipt
  policy_receipt request v = do
    r ← exact_record v policy_receipt_keys
    check (is_constant (get r "contractId") policy_contract_id)
    identity ← identity_from request r
    receipt_id ← plain_text 128 (get r "receiptId")
    reason_code ← plain_text 128 (get r "reasonCode")
    decision ← named decision_name project_policy_decisions (get r "decision")
    valid_until ← or_null_by timestamp (get r "validUntil")
    evidence_reference ← or_null_by (plain_text 128) (get r "evidenceReference")
    observed_at ← timestamp (get r "observedAt")
    policy_receipt_end request identity receipt_id reason_code decision valid_until
        evidence_reference observed_at (get r "subject") (get r "facts")

  -- The two envelopes.
  abbrev pub policy_result_by : ProjectPolicyRequest → Fields → Bool → Option ProjectPolicyResult
  policy_result_by request envelope false = do
    error ← parse_policy_failure (get envelope "error")
    some (ProjectPolicyResult.failed error)
  policy_result_by request envelope true = do
    receipt ← policy_receipt request (get envelope "receipt")
    some (ProjectPolicyResult.received receipt)

  -- `parseProjectPolicyResult`
  unfoldable pub parse_project_policy_result :
      Value → ProjectPolicyRequest → Option ProjectPolicyResult
  unfolding parse_policy_failure policy_receipt
  parse_project_policy_result v request = do
    envelope ←
        or_else (exact_record v ("ok" ∷ "receipt" ∷ [])) (exact_record v ("ok" ∷ "error" ∷ []))
    is_success ← truth_value (get envelope "ok")
    policy_result_by request envelope is_success
