-- ===== src/Policy/Receipts.antt =====
-- src/project-policy-port.ts: what an accepted result says.
use agent_task_orchestrator.Base.{
  Text, String, ◌≡◌, refl, subst, ◌↔◌, ◌≢◌, Bool, true, false, ◌&&◌, [], ◌∷◌, Option, none, some,
  arith, pos, same→eq, before, text,
}
use agent_task_orchestrator.Domain.Value.{Value, Fields, Unicode, get, count_fields, is_constant}
use agent_task_orchestrator.Reader.{
  Dates, exact_record, timestamp, or_null_by, truth_value, equal_text, equal_number, or_else,
  bind-some, check-some, some-eq, equal_text-eq, equal_number-eq,
}
use agent_task_orchestrator.Ports.{
  FailureCategory, failure_name, failure_categories, is_retryable, is_ambiguous, equal_truth, named,
}
use agent_task_orchestrator.Policy.Values.{plain_text, equal_value}
use agent_task_orchestrator.Policy.Subjects.{
  policy_operation_name, parse_subject, agrees, same_subject,
}
use agent_task_orchestrator.Policy.Facts.{parse_project_policy_facts}
use agent_task_orchestrator.Policy.Requests.{ProjectPolicyRequest, policy_contract_id}
use agent_task_orchestrator.Policy.Results.{
  ProjectPolicyDecision, decision_name, project_policy_decisions, PolicyIdentity,
  ProjectPolicyReceipt, ProjectPolicyFailure, ProjectPolicyResult, identity_of, identity_from,
  lasts, is_rate_limited, is_set, policy_failure_from, parse_policy_failure, policy_receipt_keys,
  policy_failure_keys, policy_receipt, policy_receipt_end, policy_result_by,
  parse_project_policy_result,
}

-- A field of a record, with its value.
pub data IsField : Fields → String → Value → Type 0 where
  here : {k : String} {v : Value} {r : Fields} → IsField (Fields.field k v r) k v
  there :
      {k j : String} {v w : Value} {r : Fields} → IsField r k v → IsField (Fields.field j w r) k v

equal_value-eq : (v w : Value) → equal_value v w ≡ true → w ≡ v
unfolding equal_value
equal_value-eq Value.null Value.null h = refl
equal_value-eq (Value.string s) (Value.string t) h = ground (arith, same→eq s t)
equal_value-eq (Value.number (pos n)) (Value.number (pos m)) h = ground arith
equal_value-eq _ _ h = absurd (cc)

agrees-IsField :
    (left right : Fields) (k : String) (v : Value)
    → agrees left right ≡ true
    → IsField left k v
    → get right k ≡ v
unfolding agrees
agrees-IsField (Fields.field k v r) right _ _ h IsField.here =
    equal_value-eq v (get right k) (ground arith)
agrees-IsField (Fields.field j w r) right k v h (IsField.there i) =
    agrees-IsField r right k v (ground arith) i
agrees-IsField Fields.end right k v h i = elim i [ ]

identity_from-eq :
    (request : ProjectPolicyRequest) (r : Fields) (i : PolicyIdentity)
    → identity_from request r ≡ some i
    → i ≡ identity_of request
unfolding identity_from
identity_from-eq request r i h =
    let (a1, e1, h1) =
      bind-some (equal_text (text (policy_operation_name request.operation)) (get r "operation")) _
        i h in
    let (a2, e2, h2) =
      bind-some (equal_text request.policy_query_id (get r "policyQueryId")) _ i h1 in
    let (a3, e3, h3) =
      bind-some (equal_text request.correlation_id (get r "correlationId")) _ i h2 in
    let (a4, e4, h4) = bind-some (equal_text request.actor_id (get r "actorId")) _ i h3 in
    let (a5, e5, h5) =
      bind-some
        (equal_text request.preliminary_authorization_decision_id
          (get r "preliminaryAuthorizationDecisionId"))
        _ i h4 in
    let (a6, e6, h6) =
      bind-some (equal_text request.requested_action (get r "requestedAction")) _ i h5 in
    let (a7, e7, h7) = bind-some (equal_text request.policy_id (get r "policyId")) _ i h6 in
    let (a8, e8, h8) = bind-some (equal_text request.policy_key (get r "policyKey")) _ i h7 in
    let (a9, e9, h9) =
      bind-some (equal_number request.policy_config_revision (get r "policyConfigRevision")) _ i
        h8 in
    let (a10, e10, h10) = bind-some (equal_text request.adapter_id (get r "adapterId")) _ i h9 in
    let (a11, e11, h11) =
      bind-some (equal_text request.adapter_version (get r "adapterVersion")) _ i h10 in
    ground (
      arith,
      h11,
      equal_text-eq (text (policy_operation_name request.operation)) (get r "operation") a1 e1,
      equal_text-eq request.policy_query_id (get r "policyQueryId") a2 e2,
      equal_text-eq request.correlation_id (get r "correlationId") a3 e3,
      equal_text-eq request.actor_id (get r "actorId") a4 e4,
      equal_text-eq request.preliminary_authorization_decision_id
          (get r "preliminaryAuthorizationDecisionId") a5 e5,
      equal_text-eq request.requested_action (get r "requestedAction") a6 e6,
      equal_text-eq request.policy_id (get r "policyId") a7 e7,
      equal_text-eq request.policy_key (get r "policyKey") a8 e8,
      equal_number-eq request.policy_config_revision (get r "policyConfigRevision") a9 e9,
      equal_text-eq request.adapter_id (get r "adapterId") a10 e10,
      equal_text-eq request.adapter_version (get r "adapterVersion") a11 e11,
    )

-- A receipt that answers a request: it repeats the request's identity and its subject, field by
-- field, and ends, if at all, after it was observed.
pub record IsAnswer (request : ProjectPolicyRequest) (r : ProjectPolicyReceipt) : Type 0 where
  pub identity : r.identity ≡ identity_of request
  pub fields : count_fields r.subject ≡ count_fields request.subject
  pub subject : (k : String) (v : Value) → IsField r.subject k v → get request.subject k ≡ v
  pub lasting : (t : Text) → r.valid_until ≡ some t → before r.observed_at t ≡ true

same_subject-fields :
    (left right : Fields)
    → same_subject left right ≡ true
    → (count_fields left ≡ count_fields right) × (agrees left right ≡ true)
unfolding same_subject
same_subject-fields left right h = ground arith

lasts_until :
    (until : Option Text) (observed t : Text)
    → lasts until observed ≡ true
    → until ≡ some t
    → before observed t ≡ true
lasts_until until observed t h e = ground arith

limited_iff :
    (category : FailureCategory) (after : Option Text)
    → equal_truth (is_rate_limited category) (is_set after) ≡ true
    → (category ≡ FailureCategory.rate_limited) ↔ (after ≢ none)
limited_iff category none h = ground arith
limited_iff category (some t) h = ground arith

-- The flags are those of the category, and a time to try again comes exactly with a limit of the rate.
pub record IsFlagged (f : ProjectPolicyFailure) : Type 0 where
  pub retryable : f.retryable ≡ is_retryable f.category
  pub ambiguous : f.ambiguous ≡ is_ambiguous f.category
  pub retry_after : (f.category ≡ FailureCategory.rate_limited) ↔ (f.retry_after ≢ none)

module _ ⦃u : Unicode⦄ ⦃d : Dates⦄ where
  policy_receipt_end-IsAnswer :
      (request : ProjectPolicyRequest) (identity : PolicyIdentity) (id reason : Text)
      (decision : ProjectPolicyDecision) (until evidence : Option Text) (observed : Text)
      (v1 v2 : Value) (r : ProjectPolicyReceipt)
      → identity ≡ identity_of request
      → policy_receipt_end request identity id reason decision until evidence observed v1 v2
        ≡ some r
      → IsAnswer request r
  unfolding policy_receipt_end
  policy_receipt_end-IsAnswer request identity id reason decision until evidence observed v1 v2 r e
        h =
      let (subject, _, h1) = bind-some (parse_subject request.operation v1) _ r h in
      let (facts, _, h2) = bind-some (parse_project_policy_facts v2) _ r h1 in
      let (alike, h3) = check-some (same_subject subject request.subject) _ r h2 in
      let (lasting, h4) = check-some (lasts until observed) _ r h3 in
      let (fields, agreed) = same_subject-fields subject request.subject alike in
      subst (IsAnswer request) (some-eq h4) (record {
        identity = e;
        fields = fields;
        subject = λ k w i. agrees-IsField subject request.subject k w agreed i;
        lasting = λ t x. lasts_until until observed t lasting x;
      })

  policy_receipt-IsAnswer :
      (request : ProjectPolicyRequest) (v : Value) (r : ProjectPolicyReceipt)
      → policy_receipt request v ≡ some r
      → IsAnswer request r
  unfolding policy_receipt
  policy_receipt-IsAnswer request v r h =
      let (f, _, h1) = bind-some (exact_record v policy_receipt_keys) _ r h in
      let (_, h2) = check-some (is_constant (get f "contractId") policy_contract_id) _ r h1 in
      let (identity, e, h3) = bind-some (identity_from request f) _ r h2 in
      let (id, _, h4) = bind-some (plain_text 128 (get f "receiptId")) _ r h3 in
      let (reason, _, h5) = bind-some (plain_text 128 (get f "reasonCode")) _ r h4 in
      let (decision, _, h6) =
        bind-some (named decision_name project_policy_decisions (get f "decision")) _ r h5 in
      let (until, _, h7) = bind-some (or_null_by timestamp (get f "validUntil")) _ r h6 in
      let (evidence, _, h8) =
        bind-some (or_null_by (plain_text 128) (get f "evidenceReference")) _ r h7 in
      let (observed, _, h9) = bind-some (timestamp (get f "observedAt")) _ r h8 in
      policy_receipt_end-IsAnswer request identity id reason decision until evidence observed
        (get f "subject") (get f "facts") r (identity_from-eq request f identity e) h9

  policy_failure_from-IsFlagged :
      (v1 v2 v3 v4 v5 v6 : Value) (f : ProjectPolicyFailure)
      → policy_failure_from v1 v2 v3 v4 v5 v6 ≡ some f
      → IsFlagged f
  unfolding policy_failure_from
  policy_failure_from-IsFlagged v1 v2 v3 v4 v5 v6 f h =
      let (category, _, h1) = bind-some (named failure_name failure_categories v1) _ f h in
      let (code, _, h2) = bind-some (plain_text 128 v2) _ f h1 in
      let (retryable, _, h3) = bind-some (truth_value v3) _ f h2 in
      let (ambiguous, _, h4) = bind-some (truth_value v4) _ f h3 in
      let (after, _, h5) = bind-some (or_null_by timestamp v5) _ f h4 in
      let (evidence, _, h6) = bind-some (or_null_by (plain_text 128) v6) _ f h5 in
      let (flags, h7) =
        check-some
          (equal_truth retryable (is_retryable category)
            && equal_truth ambiguous (is_ambiguous category))
          _ f h6 in
      let (limited, h8) =
        check-some (equal_truth (is_rate_limited category) (is_set after)) _ f h7 in
      let made : record {
        category = category;
        code = code;
        retryable = retryable;
        ambiguous = ambiguous;
        retry_after = after;
        evidence_reference = evidence;
      }
          ≡ f =
        some-eq h8 in
      subst IsFlagged made (record {
        retryable = ground arith;
        ambiguous = ground arith;
        retry_after = limited_iff category after limited;
      })

  parse_policy_failure-IsFlagged :
      (v : Value) (f : ProjectPolicyFailure) → parse_policy_failure v ≡ some f → IsFlagged f
  unfolding parse_policy_failure
  parse_policy_failure-IsFlagged v f h =
      let (r, _, h1) = bind-some (exact_record v policy_failure_keys) _ f h in
      policy_failure_from-IsFlagged (get r "category") (get r "code") (get r "retryable")
        (get r "ambiguous") (get r "retryAfter") (get r "evidenceReference") f h1

  -- What a result says, by its two forms.
  abbrev pub IsResultFor : ProjectPolicyRequest → ProjectPolicyResult → Type 0
  IsResultFor request (ProjectPolicyResult.received r) = IsAnswer request r
  IsResultFor request (ProjectPolicyResult.failed f) = IsFlagged f

  policy_result_by-IsResultFor :
      (request : ProjectPolicyRequest) (f : Fields) (is_success : Bool)
      (result : ProjectPolicyResult)
      → policy_result_by request f is_success ≡ some result
      → IsResultFor request result
  policy_result_by-IsResultFor request f true result h =
      let (r, e, h1) = bind-some (policy_receipt request (get f "receipt")) _ result h in
      subst (IsResultFor request) (some-eq h1)
        (policy_receipt-IsAnswer request (get f "receipt") r e)
  policy_result_by-IsResultFor request f false result h =
      let (g, e, h1) = bind-some (parse_policy_failure (get f "error")) _ result h in
      subst (IsResultFor request) (some-eq h1) (parse_policy_failure-IsFlagged (get f "error") g e)

  -- A result that is accepted for a request is a receipt that repeats the identity and every field of the subject of the request and does not end before it was observed, or a failure with the flags of its category and a time to try again exactly where the rate is limited.
  pub parse_project_policy_result-IsResultFor :
      (v : Value) (request : ProjectPolicyRequest) (result : ProjectPolicyResult)
      → parse_project_policy_result v request ≡ some result
      → IsResultFor request result
  unfolding parse_project_policy_result
  parse_project_policy_result-IsResultFor v request result h =
      let (f, _, h1) =
        bind-some
          (or_else (exact_record v ("ok" ∷ "receipt" ∷ [])) (exact_record v ("ok" ∷ "error" ∷ [])))
          _ result h in
      let (is_success, _, h2) = bind-some (truth_value (get f "ok")) _ result h1 in
      policy_result_by-IsResultFor request f is_success result h2
