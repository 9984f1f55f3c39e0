-- ===== src/Policy/Local/Readings.antt =====
-- src/local-project-policy.ts: what a receipt and a choice of a policy are read from.
use agent_task_orchestrator.Base.{
  Text, ℕ, ◌≡◌, refl, sym, subst, ◌≢◌, true, false, List, [], ◌∷◌, Option, some, arith, same→eq,
  eq→same, same, text, find, Bool-cases, inl, inr, if◌then◌else◌,
}
use agent_task_orchestrator.Domain.States.{spelled}
use agent_task_orchestrator.Domain.Value.{Value, Fields, Unicode, get, is_constant}
use agent_task_orchestrator.Reader.{
  Dates, exact_record, timestamp, or_null_by, bind-some, check-some, some-eq,
}
use agent_task_orchestrator.Ports.{named}
use agent_task_orchestrator.Policy.Values.{plain_text}
use agent_task_orchestrator.Policy.Subjects.{
  ProjectPolicyOperation, policy_operation_name, project_policy_operations, parse_subject,
  same_subject,
}
use agent_task_orchestrator.Policy.Facts.{parse_project_policy_facts}
use agent_task_orchestrator.Policy.Requests.{ProjectPolicyRequest, policy_contract_id}
use agent_task_orchestrator.Policy.Results.{
  ProjectPolicyDecision, decision_name, project_policy_decisions, PolicyIdentity,
  ProjectPolicyReceipt, identity_from, policy_receipt_keys, policy_receipt, policy_receipt_end,
  lasts,
}
use agent_task_orchestrator.Policy.Local.{LocalPolicy, configures, clock_time}

-- What a receipt was read from, field by field.
pub record IsRead ⦃u : Unicode⦄ ⦃d : Dates⦄ (f : Fields) (r : ProjectPolicyReceipt) : Type 0 where
  pub decision : named decision_name project_policy_decisions (get f "decision") ≡ some r.decision
  pub reason_code : plain_text 128 (get f "reasonCode") ≡ some r.reason_code
  pub valid_until : or_null_by timestamp (get f "validUntil") ≡ some r.valid_until
  pub observed_at : timestamp (get f "observedAt") ≡ some r.observed_at

-- The constants of a list are told apart by their names.
pub named_decision :
    (a b : ProjectPolicyDecision)
    → named decision_name project_policy_decisions (Value.string (text (decision_name a))) ≡ some b
    → b ≡ a
unfolding named spelled same
named_decision ProjectPolicyDecision.allow b h = sym (some-eq h)
named_decision ProjectPolicyDecision.deny b h = sym (some-eq h)
named_decision ProjectPolicyDecision.defer b h = sym (some-eq h)

named_operation :
    (a : ProjectPolicyOperation)
    → named policy_operation_name project_policy_operations
        (Value.string (text (policy_operation_name a)))
      ≡ some a
unfolding named spelled same
named_operation ProjectPolicyOperation.evaluate_mutation = refl
named_operation ProjectPolicyOperation.completion_requirements = refl
named_operation ProjectPolicyOperation.evaluate_integration = refl
named_operation ProjectPolicyOperation.evaluate_cleanup = refl

pub same_operation :
    (a b : ProjectPolicyOperation)
    → same (text (policy_operation_name a)) (text (policy_operation_name b)) ≡ true
    → a ≡ b
same_operation a b h =
    let e = same→eq (text (policy_operation_name a)) (text (policy_operation_name b)) h in
    let f : some a ≡ some b = rw (sym (named_operation a), e, named_operation b) refl in some-eq f

pub differ :
    (a b : ProjectPolicyOperation)
    → same (text (policy_operation_name a)) (text (policy_operation_name b)) ≡ false
    → a ≢ b
differ a b h e =
    let f : same (text (policy_operation_name a)) (text (policy_operation_name b)) ≡ true =
      eq→same (text (policy_operation_name a)) (text (policy_operation_name b)) (rw e refl) in
    ground (arith, f, h)

pub found_configures :
    (request : ProjectPolicyRequest) (policies : List LocalPolicy) (p : LocalPolicy)
    → find (configures request) policies ≡ some p
    → configures request p ≡ true
found_configures request [] p h = ground arith
found_configures request (q ∷ qs) p h = elim (Bool-cases (configures request q)) [
  | inl e ↦
      subst (λ x. configures request x ≡ true)
        (some-eq (subst (λ b. (if b then some q else find (configures request) qs) ≡ some p) e h)) e
  | inr e ↦
      found_configures request qs p
        (subst (λ b. (if b then some q else find (configures request) qs) ≡ some p) e h)
]

module _ ⦃u : Unicode⦄ ⦃d : Dates⦄ where
  policy_receipt_end-IsRead :
      (f : Fields) (request : ProjectPolicyRequest) (identity : PolicyIdentity) (id reason : Text)
      (decision : ProjectPolicyDecision) (until evidence : Option Text) (observed : Text)
      (v1 v2 : Value) (r : ProjectPolicyReceipt)
      → named decision_name project_policy_decisions (get f "decision") ≡ some decision
      → plain_text 128 (get f "reasonCode") ≡ some reason
      → or_null_by timestamp (get f "validUntil") ≡ some until
      → timestamp (get f "observedAt") ≡ some observed
      → policy_receipt_end request identity id reason decision until evidence observed v1 v2
        ≡ some r
      → IsRead f r
  unfolding policy_receipt_end
  policy_receipt_end-IsRead f request identity id reason decision until evidence observed v1 v2 r e1
        e2 e3 e4 h =
      let (subject, _, h1) = bind-some (parse_subject request.operation v1) _ r h in
      let (facts, _, h2) = bind-some (parse_project_policy_facts v2) _ r h1 in
      let (_, h3) = check-some (same_subject subject request.subject) _ r h2 in
      let (_, h4) = check-some (lasts until observed) _ r h3 in
      subst (IsRead f) (some-eq h4)
        (record { decision = e1; reason_code = e2; valid_until = e3; observed_at = e4 })

  pub policy_receipt-IsRead :
      (request : ProjectPolicyRequest) (f : Fields) (r : ProjectPolicyReceipt)
      → policy_receipt request (Value.object f) ≡ some r
      → IsRead f r
  unfolding policy_receipt exact_record
  policy_receipt-IsRead request g r h =
      let (f, e, h1) = bind-some (exact_record (Value.object g) policy_receipt_keys) _ r h in
      let same_fields : f ≡ g = ground (arith, e) in
      let (_, h2) = check-some (is_constant (get f "contractId") policy_contract_id) _ r h1 in
      let (identity, _, h3) = bind-some (identity_from request f) _ r h2 in
      let (id, _, h4) = bind-some (plain_text 128 (get f "receiptId")) _ r h3 in
      let (reason, e1, h5) = bind-some (plain_text 128 (get f "reasonCode")) _ r h4 in
      let (decision, e2, h6) =
        bind-some (named decision_name project_policy_decisions (get f "decision")) _ r h5 in
      let (until, e3, h7) = bind-some (or_null_by timestamp (get f "validUntil")) _ r h6 in
      let (evidence, _, h8) =
        bind-some (or_null_by (plain_text 128) (get f "evidenceReference")) _ r h7 in
      let (observed, e4, h9) = bind-some (timestamp (get f "observedAt")) _ r h8 in
      subst (λ k. IsRead k r) same_fields
        (policy_receipt_end-IsRead f request identity id reason decision until evidence observed
          (get f "subject") (get f "facts") r e2 e1 e3 e4 h9)

  pub plain_text-string : (n : ℕ) (s t : Text) → plain_text n (Value.string s) ≡ some t → t ≡ s
  unfolding plain_text
  plain_text-string n s t h = ground arith

  pub timestamp-string : (s t : Text) → timestamp (Value.string s) ≡ some t → t ≡ s
  unfolding timestamp
  timestamp-string s t h = ground arith

  pub clock_time-string : (v : Value) (s : Text) → clock_time v ≡ some s → v ≡ Value.string s
  unfolding clock_time
  clock_time-string (Value.string s) t h = ground arith
  clock_time-string Value.null t h = ground arith
  clock_time-string _ t h = ground arith
