-- ===== src/Policy/Local/Outcomes.antt =====
-- src/local-project-policy.ts: the outcomes of a dispatch, and what the candidate is read as.
use agent_task_orchestrator.Base.{
  Text, String, ℕ, ◌≡◌, refl, sym, subst, ◌≢◌, true, false, List, Option, none, some, arith, same,
  find,
}
use agent_task_orchestrator.Domain.Value.{Value, Unicode}
use agent_task_orchestrator.Reader.{
  Dates, exact_record, timestamp, or_null_by, truth_value, bind-some, some-eq,
}
use agent_task_orchestrator.Ports.{FailureCategory, is_retryable, is_ambiguous}
use agent_task_orchestrator.Policy.Subjects.{ProjectPolicyOperation}
use agent_task_orchestrator.Policy.Requests.{ProjectPolicyRequest, parse_project_policy_request}
use agent_task_orchestrator.Policy.Results.{
  ProjectPolicyDecision, ProjectPolicyReceipt, ProjectPolicyFailure, ProjectPolicyResult,
  policy_receipt, parse_project_policy_result,
}
use agent_task_orchestrator.Policy.Receipts.{IsAnswer, IsFlagged}
use agent_task_orchestrator.Policy.Local.{
  LocalPolicy, Runtime, local_failure, configures, is_local, is_integrity, time_value, valid_until,
  candidate, receipt_fields, identity_digest, clock_time,
}
use agent_task_orchestrator.Policy.Local.Readings.{
  IsRead, named_decision, policy_receipt-IsRead, plain_text-string, timestamp-string,
}

module _ ⦃u : Unicode⦄ ⦃d : Dates⦄ ⦃c : Runtime⦄ where
  -- A receipt of the local policy, with the request and the policy that it comes from.
  pub record IsLocalAnswer (policies : List LocalPolicy) (now : Option Value)
      (expected : ProjectPolicyOperation) (request : ProjectPolicyRequest) (p : LocalPolicy)
      (r : ProjectPolicyReceipt) : Type 0 where
    pub operation : request.operation ≡ expected
    pub is_local : is_local request ≡ true
    pub found : find (configures request) policies ≡ some p
    pub policy_id : p.policy_id ≡ request.policy_id
    pub policy_key : p.policy_key ≡ request.policy_key
    pub config_revision : p.config_revision ≡ request.policy_config_revision
    pub decision : r.decision ≡ (p.decisions expected).decision
    pub reason_code : r.reason_code ≡ (p.decisions expected).reason_code
    pub unlimited : r.decision ≢ ProjectPolicyDecision.allow → r.valid_until ≡ none
    pub limited :
        r.decision ≡ ProjectPolicyDecision.allow
        → r.valid_until ≡ c.after r.observed_at p.receipt_validity_seconds
    pub observed_at : now ≡ some (Value.string r.observed_at)
    pub answer : IsAnswer request r

  -- Why the local policy answers with a failure of a category.
  pub data IsRefused (policies : List LocalPolicy) (now : Option Value) (v : Value)
      (expected : ProjectPolicyOperation) : FailureCategory → Type 0 where
    unparsed :
        parse_project_policy_request v ≡ none
        → IsRefused policies now v expected FailureCategory.invalid_request
    other_operation :
        (request : ProjectPolicyRequest)
        → parse_project_policy_request v ≡ some request
        → request.operation ≢ expected
        → IsRefused policies now v expected FailureCategory.invalid_request
    other_adapter :
        (request : ProjectPolicyRequest)
        → parse_project_policy_request v ≡ some request
        → is_local request ≡ false
        → IsRefused policies now v expected FailureCategory.incompatible_contract
    absent :
        (request : ProjectPolicyRequest)
        → parse_project_policy_request v ≡ some request
        → find (configures request) policies ≡ none
        → IsRefused policies now v expected FailureCategory.not_found
    no_time :
        (w : Value)
        → now ≡ some w
        → clock_time w ≡ none
        → IsRefused policies now v expected FailureCategory.integrity_failure
    unread :
        (request : ProjectPolicyRequest) (p : LocalPolicy) (observed : Text) (until : Value)
        → parse_project_policy_request v ≡ some request
        → find (configures request) policies ≡ some p
        → now ≡ some (Value.string observed)
        → valid_until (p.decisions request.operation).decision observed p.receipt_validity_seconds
          ≡ some until
        → parse_project_policy_result (candidate request p observed until) request ≡ none
        → IsRefused policies now v expected FailureCategory.integrity_failure

  -- Why an exception leaves the dispatch: the clock throws, or the policy allows and the term of its
  -- receipt is past the last time.
  pub data IsThrown (policies : List LocalPolicy) (now : Option Value) (v : Value)
      (expected : ProjectPolicyOperation) : Type 0 where
    clock_threw : now ≡ none → IsThrown policies now v expected
    past_last_time :
        (request : ProjectPolicyRequest) (p : LocalPolicy) (observed : Text)
        → parse_project_policy_request v ≡ some request
        → find (configures request) policies ≡ some p
        → now ≡ some (Value.string observed)
        → (p.decisions request.operation).decision ≡ ProjectPolicyDecision.allow
        → c.after observed p.receipt_validity_seconds ≡ none
        → IsThrown policies now v expected

  abbrev pub IsDispatched :
      List LocalPolicy
      → Option Value
      → Value
      → ProjectPolicyOperation
      → Option ProjectPolicyResult
      → Type 0
  IsDispatched policies now v expected none = IsThrown policies now v expected
  IsDispatched policies now v expected (some (ProjectPolicyResult.failed f)) =
      IsFlagged f × IsRefused policies now v expected f.category
  IsDispatched policies now v expected (some (ProjectPolicyResult.received r)) =
      (request : ProjectPolicyRequest) × (p : LocalPolicy) × (parse_project_policy_request v
        ≡ some request)
      × IsLocalAnswer policies now expected request p r

  -- What the term of a receipt is read as, for the value that `valid_until` makes.
  valid_until-none :
      (chosen : ProjectPolicyDecision) (observed : Text) (n : ℕ) (w : Value) (until : Option Text)
      → valid_until chosen observed n ≡ some w
      → or_null_by timestamp w ≡ some until
      → chosen ≢ ProjectPolicyDecision.allow
      → until ≡ none
  unfolding or_null_by
  valid_until-none ProjectPolicyDecision.allow observed n w until e h other = absurd (other refl)
  valid_until-none ProjectPolicyDecision.deny observed n w until e h other =
      sym (some-eq (rw (← some-eq e) at h))
  valid_until-none ProjectPolicyDecision.defer observed n w until e h other =
      sym (some-eq (rw (← some-eq e) at h))

  time_value-after :
      (o : Option Text) (w : Value) (until : Option Text)
      → time_value o ≡ some w
      → or_null_by timestamp w ≡ some until
      → until ≡ o
  unfolding or_null_by timestamp
  time_value-after none w until e h = absurd (cc)
  time_value-after (some t) w until e h =
      let h' : or_null_by timestamp (Value.string t) ≡ some until =
        subst (λ x. or_null_by timestamp x ≡ some until) (sym (some-eq e)) h in
      ground arith

  valid_until-after :
      (chosen : ProjectPolicyDecision) (observed : Text) (n : ℕ) (w : Value) (until : Option Text)
      → valid_until chosen observed n ≡ some w
      → or_null_by timestamp w ≡ some until
      → chosen ≡ ProjectPolicyDecision.allow
      → until ≡ c.after observed n
  valid_until-after ProjectPolicyDecision.allow observed n w until e h chosen =
      time_value-after (c.after observed n) w until e h
  valid_until-after ProjectPolicyDecision.deny observed n w until e h chosen = absurd (ground arith)
  valid_until-after ProjectPolicyDecision.defer observed n w until e h chosen =
      absurd (ground arith)

  -- Only a decision to allow can meet the exception.
  pub thrown_allow :
      (chosen : ProjectPolicyDecision) (observed : Text) (n : ℕ)
      → valid_until chosen observed n ≡ none
      → (chosen ≡ ProjectPolicyDecision.allow) × (c.after observed n ≡ none)
  thrown_allow ProjectPolicyDecision.allow observed n h = (refl, ground arith)
  thrown_allow ProjectPolicyDecision.deny observed n h = absurd (cc)
  thrown_allow ProjectPolicyDecision.defer observed n h = absurd (cc)

  pub candidate-IsRead :
      (request : ProjectPolicyRequest) (p : LocalPolicy) (observed : Text) (w : Value)
      (r : ProjectPolicyReceipt)
      → valid_until (p.decisions request.operation).decision observed p.receipt_validity_seconds
        ≡ some w
      → parse_project_policy_result (candidate request p observed w) request
        ≡ some (ProjectPolicyResult.received r)
      → (r.decision ≡ (p.decisions request.operation).decision)
        × (r.reason_code ≡ (p.decisions request.operation).reason_code)
        × (r.decision ≢ ProjectPolicyDecision.allow → r.valid_until ≡ none)
        × (r.decision ≡ ProjectPolicyDecision.allow
            → r.valid_until ≡ c.after r.observed_at p.receipt_validity_seconds)
        × (r.observed_at ≡ observed)
  unfolding parse_project_policy_result exact_record truth_value same
  candidate-IsRead request p observed w r end h =
      let chosen = p.decisions request.operation in
      let fields =
        receipt_fields request chosen p observed (identity_digest request chosen p observed) w in
      let (got, e, k) =
        bind-some (policy_receipt request (Value.object fields)) _ (ProjectPolicyResult.received r)
          h in
      let same_receipt : got ≡ r = ground arith in
      let read = subst (IsRead fields) same_receipt (policy_receipt-IsRead request fields got e) in
      let decided = named_decision chosen.decision r.decision read.decision in
      let timed = timestamp-string observed r.observed_at read.observed_at in
      (
        decided,
        plain_text-string 128 chosen.reason_code r.reason_code read.reason_code,
        λ other.
            valid_until-none chosen.decision observed p.receipt_validity_seconds w r.valid_until end
              read.valid_until (λ x. other (rw decided x)),
        λ allows. rw timed (
            valid_until-after chosen.decision observed p.receipt_validity_seconds w r.valid_until
              end read.valid_until (rw (← decided) allows)),
        timed,
      )

  IsRefused-flags :
      (policies : List LocalPolicy) (now : Option Value) (v : Value)
      (expected : ProjectPolicyOperation) (category : FailureCategory)
      → IsRefused policies now v expected category
      → (false ≡ is_retryable category)
        × (is_integrity category ≡ is_ambiguous category)
        × (category ≢ FailureCategory.rate_limited)
  unfolding is_retryable is_ambiguous
  IsRefused-flags policies now v expected _ (IsRefused.unparsed e) =
      (refl, refl, λ e. absurd (ground arith))
  IsRefused-flags policies now v expected _ (IsRefused.other_operation request e f) =
      (refl, refl, λ e. absurd (ground arith))
  IsRefused-flags policies now v expected _ (IsRefused.other_adapter request e f) =
      (refl, refl, λ e. absurd (ground arith))
  IsRefused-flags policies now v expected _ (IsRefused.absent request e f) =
      (refl, refl, λ e. absurd (ground arith))
  IsRefused-flags policies now v expected _ (IsRefused.no_time w e f) =
      (refl, refl, λ e. absurd (ground arith))
  IsRefused-flags policies now v expected _ (IsRefused.unread request p observed until e f g h i) =
      (refl, refl, λ e. absurd (ground arith))

  -- A failure for a reason, whose category has the flags that `failure` writes.
  pub local_failure-IsDispatched :
      (policies : List LocalPolicy) (now : Option Value) (v : Value)
      (expected : ProjectPolicyOperation) (category : FailureCategory) (code : String)
      → IsRefused policies now v expected category
      → IsDispatched policies now v expected (some (local_failure category code))
  local_failure-IsDispatched policies now v expected category code why =
      let (e, f, other) = IsRefused-flags policies now v expected category why in
      (
        record {
          retryable = e;
          ambiguous = f;
          retry_after = (λ x. absurd (other x), λ x. absurd (x refl));
        },
        why,
      )

  -- The value that is read back is never a failure.
  pub candidate_received :
      (request : ProjectPolicyRequest) (p : LocalPolicy) (observed : Text) (w : Value)
      (f : ProjectPolicyFailure)
      → parse_project_policy_result (candidate request p observed w) request
        ≢ some (ProjectPolicyResult.failed f)
  unfolding parse_project_policy_result exact_record truth_value same
  candidate_received request p observed w f h =
      let chosen = p.decisions request.operation in
      let fields =
        receipt_fields request chosen p observed (identity_digest request chosen p observed) w in
      let (got, e, k) =
        bind-some (policy_receipt request (Value.object fields)) _ (ProjectPolicyResult.failed f)
          h in
      ground arith
