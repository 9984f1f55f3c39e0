-- ===== src/Policy/Local/Answers.antt =====
-- src/local-project-policy.ts: what an answer of the local policy says.
use agent_task_orchestrator.Base.{
  Text, ◌≡◌, refl, subst, true, List, Option, none, some, arith, same→eq, same, text, find,
  Bool-cases, inl, inr,
}
use agent_task_orchestrator.Domain.Value.{Value, Unicode}
use agent_task_orchestrator.Reader.{Dates}
use agent_task_orchestrator.Ports.{FailureCategory}
use agent_task_orchestrator.Policy.Subjects.{ProjectPolicyOperation, policy_operation_name}
use agent_task_orchestrator.Policy.Requests.{ProjectPolicyRequest, parse_project_policy_request}
use agent_task_orchestrator.Policy.Results.{ProjectPolicyResult, parse_project_policy_result}
use agent_task_orchestrator.Policy.Receipts.{parse_project_policy_result-IsResultFor}
use agent_task_orchestrator.Policy.Local.{
  LocalPolicy, Runtime, configures, is_local, or_invalid, candidate, valid_until, clock_time,
  answer_until, answer_at, answer_now, answer_by, dispatch_request, dispatch,
}
use agent_task_orchestrator.Policy.Local.Readings.{
  same_operation, differ, found_configures, clock_time-string,
}
use agent_task_orchestrator.Policy.Local.Outcomes.{
  IsRefused, IsThrown, IsDispatched, thrown_allow, candidate-IsRead, candidate_received,
  local_failure-IsDispatched,
}

module _ ⦃u : Unicode⦄ ⦃d : Dates⦄ ⦃c : Runtime⦄ where
  module _ (policies : List LocalPolicy) (v : Value) (expected : ProjectPolicyOperation)
      (request : ProjectPolicyRequest) (parsed : parse_project_policy_request v ≡ some request)
      (asked : request.operation ≡ expected) (local : is_local request ≡ true) where
    -- The end of the dispatch, for a result that was read back.
    or_invalid-IsDispatched :
        (now : Option Value) (p : LocalPolicy) (observed : Text) (w : Value)
        (o : Option ProjectPolicyResult)
        → find (configures request) policies ≡ some p
        → now ≡ some (Value.string observed)
        → valid_until (p.decisions request.operation).decision observed p.receipt_validity_seconds
          ≡ some w
        → parse_project_policy_result (candidate request p observed w) request ≡ o
        → IsDispatched policies now v expected (some (or_invalid o))
    or_invalid-IsDispatched now p observed w none found time end h =
        local_failure-IsDispatched policies now v expected FailureCategory.integrity_failure
          "policy_receipt_invalid" (IsRefused.unread request p observed w parsed found time end h)
    or_invalid-IsDispatched now p observed w (some (ProjectPolicyResult.failed f)) found time end
          h =
        absurd (candidate_received request p observed w f h)
    or_invalid-IsDispatched now p observed w (some (ProjectPolicyResult.received r)) found time end
          h =
        let (decided, reasoned, unlimited, limited, timed) =
          candidate-IsRead request p observed w r end h in
        let same_policy = found_configures request policies p found in
        (
          request,
          p,
          parsed,
          record {
            operation = asked;
            is_local = local;
            found = found;
            policy_id = same→eq p.policy_id request.policy_id (ground arith);
            policy_key = same→eq p.policy_key request.policy_key (ground arith);
            config_revision = ground arith;
            decision = subst (λ o. r.decision ≡ (p.decisions o).decision) asked decided;
            reason_code = subst (λ o. r.reason_code ≡ (p.decisions o).reason_code) asked reasoned;
            unlimited = unlimited;
            limited = limited;
            observed_at = rw timed time;
            answer =
                parse_project_policy_result-IsResultFor (candidate request p observed w) request
                  (ProjectPolicyResult.received r) h;
          },
        )

    answer_until-IsDispatched :
        (now : Option Value) (p : LocalPolicy) (observed : Text) (o : Option Value)
        → find (configures request) policies ≡ some p
        → now ≡ some (Value.string observed)
        → valid_until (p.decisions request.operation).decision observed p.receipt_validity_seconds
          ≡ o
        → IsDispatched policies now v expected (answer_until request p observed o)
    answer_until-IsDispatched now p observed none found time end =
        let (allows, past) =
          thrown_allow (p.decisions request.operation).decision observed p.receipt_validity_seconds
            end in
        IsThrown.past_last_time request p observed parsed found time allows past
    answer_until-IsDispatched now p observed (some w) found time end =
        or_invalid-IsDispatched now p observed w
          (parse_project_policy_result (candidate request p observed w) request) found time end refl

    answer_at-IsDispatched :
        (now : Option Value) (w : Value) (p : LocalPolicy) (o : Option Text)
        → find (configures request) policies ≡ some p
        → now ≡ some w
        → clock_time w ≡ o
        → IsDispatched policies now v expected (answer_at request p o)
    answer_at-IsDispatched now w p none found told time =
        local_failure-IsDispatched policies now v expected FailureCategory.integrity_failure
          "policy_clock_invalid" (IsRefused.no_time w told time)
    answer_at-IsDispatched now w p (some observed) found told time =
        answer_until-IsDispatched now p observed
          (valid_until (p.decisions request.operation).decision observed p.receipt_validity_seconds)
          found (rw (← clock_time-string w observed time) told) refl

    answer_now-IsDispatched :
        (now : Option Value) (p : LocalPolicy)
        → find (configures request) policies ≡ some p
        → IsDispatched policies now v expected (answer_now request p now)
    answer_now-IsDispatched none p found = IsThrown.clock_threw refl
    answer_now-IsDispatched (some w) p found =
        answer_at-IsDispatched (some w) w p (clock_time w) found refl refl

    answer_by-IsDispatched :
        (now : Option Value) (o : Option LocalPolicy)
        → find (configures request) policies ≡ o
        → IsDispatched policies now v expected (answer_by request now o)
    answer_by-IsDispatched now none found =
        local_failure-IsDispatched policies now v expected FailureCategory.not_found
          "policy_configuration_absent" (IsRefused.absent request parsed found)
    answer_by-IsDispatched now (some p) found = answer_now-IsDispatched now p found

  dispatch_request-IsDispatched :
      (policies : List LocalPolicy) (now : Option Value) (v : Value)
      (expected : ProjectPolicyOperation) (o : Option ProjectPolicyRequest)
      → parse_project_policy_request v ≡ o
      → IsDispatched policies now v expected (dispatch_request policies now expected o)
  dispatch_request-IsDispatched policies now v expected none parsed =
      local_failure-IsDispatched policies now v expected FailureCategory.invalid_request
        "policy_request_invalid" (IsRefused.unparsed parsed)
  dispatch_request-IsDispatched policies now v expected (some request) parsed =
      elim (Bool-cases (
        same (text (policy_operation_name request.operation))
          (text (policy_operation_name expected)))) [
            | inr e ↦ rw e (
                local_failure-IsDispatched policies now v expected FailureCategory.invalid_request
                  "policy_request_invalid"
                  (IsRefused.other_operation request parsed (differ request.operation expected e)))
            | inl e ↦ elim (Bool-cases (is_local request)) [
              | inr f ↦
                  rw (e, f)
                    (local_failure-IsDispatched policies now v expected
                      FailureCategory.incompatible_contract "policy_adapter_mismatch"
                      (IsRefused.other_adapter request parsed f))
              | inl f ↦
                  rw (e, f)
                    (answer_by-IsDispatched policies v expected request parsed
                      (same_operation request.operation expected e) f now
                      (find (configures request) policies) refl)
            ]
          ]

  -- On every request, list of policies and answer of the clock, the local policy does one of three things. It throws, because the clock threw, or because the policy allows and the term of its receipt is past the last time that there is. It answers with a failure that has the flags of its category and one of six reasons to refuse. Or it answers with a receipt that repeats the request, carries the decision and the reason that the first policy with the request's identifier, key and revision has for the operation, the time of the clock, and, exactly where it allows, the term that is the policy's number of seconds later.
  pub dispatch-IsDispatched :
      (policies : List LocalPolicy) (now : Option Value) (v : Value)
      (expected : ProjectPolicyOperation)
      → IsDispatched policies now v expected (dispatch policies now v expected)
  unfolding dispatch
  dispatch-IsDispatched policies now v expected =
      dispatch_request-IsDispatched policies now v expected (parse_project_policy_request v) refl
