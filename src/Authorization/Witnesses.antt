-- ===== src/Authorization/Witnesses.antt =====
-- The theorems on authorization, applied to the samples.
use agent_task_orchestrator.Base.{
  arith, ◌≡◌, refl, inl, inr, true, false, some, text, In, includes, same, before,
}
use agent_task_orchestrator.Authorization.Actions.{
  actions_for_vocabulary, base_authorization_actions, authorization_actions, is_high_risk_action,
}
use agent_task_orchestrator.Authorization.Grants.{AuthorizationGrant}
use agent_task_orchestrator.Authorization.Evaluate.{
  AuthorizationReason, AuthorizationEvaluationInput, decide, read_evaluation_input,
}
use agent_task_orchestrator.Authorization.Issue.{is_issuable, issue_action}
use agent_task_orchestrator.Authorization.Decision.{
  IsUsable, IsInScope, IsPermitted, decide_names_grant, evaluate_authorization_iff,
}
use agent_task_orchestrator.Authorization.Delegation.{
  IsAuthority, can_issue_grant_iff, can_issue_grant_within,
}
use agent_task_orchestrator.Authorization.Vocabulary.{
  In-actions_for_vocabulary, is_high_risk_action-In,
}
use agent_task_orchestrator.Authorization.Samples.{
  any_date, grants, target, request, issued, issue_time, request_allowed, issued_found,
  request_value, request_value_allowed,
}

evaluate_authorization_iff_example :
    (i : AuthorizationEvaluationInput) × (read_evaluation_input request_value ≡ some i)
    × ((g : AuthorizationGrant) × In g i.grants × IsUsable i g)
    × IsPermitted i
evaluate_authorization_iff_example =
    (evaluate_authorization_iff request_value).0 request_value_allowed

decide_names_grant_example :
    (g : AuthorizationGrant) × In g grants
    × IsUsable request g
    × ((decide request).grant_id ≡ some g.grant_id)
    × ((decide request).grant_revision ≡ some g.revision)
    × ((decide request).reason ≡ AuthorizationReason.allowed)
decide_names_grant_example = decide_names_grant request request_allowed

can_issue_grant_iff_example :
    (is_issuable (text "ann") issued issue_time ≡ true)
    × ((a : AuthorizationGrant) × In a grants
        × IsAuthority (text "ann") issue_action issued issue_time a)
    × ((s : AuthorizationGrant) × In s grants
        × IsAuthority (text "ann") issued.action issued issue_time s)
can_issue_grant_iff_example =
    (can_issue_grant_iff (text "ann") grants issued issue_time).0
      (record { administrative_grant_id = text "g1"; source_grant_id = text "g2" }, issued_found)

can_issue_grant_within_example :
    (s : AuthorizationGrant) × In s grants
    × (text "g2" ≡ s.grant_id)
    × (s.actor_id ≡ text "ann")
    × (s.action ≡ issued.action)
    × (before issued.not_before s.not_before ≡ false)
    × (before s.expires_at issued.expires_at ≡ false)
    × IsInScope s.scope target
can_issue_grant_within_example =
    can_issue_grant_within (text "ann") grants issued issue_time
      (record { administrative_grant_id = text "g1"; source_grant_id = text "g2" }) target
      (inl refl, (inr (text "p", 3, 1, refl), tt)) (inr (text "p", 3, 1, refl)) issued_found
      (inr (refl, refl, refl))

base_vocabulary : In (text "task.create") (actions_for_vocabulary 1)
unfolding actions_for_vocabulary base_authorization_actions
base_vocabulary =
    In.there (In.there (In.there (In.there (In.there (In.there (In.there (In.there In.here)))))))

In-actions_for_vocabulary_example : In (text "task.create") (actions_for_vocabulary 6)
In-actions_for_vocabulary_example =
    In-actions_for_vocabulary (text "task.create") 1 5 (omega arith) base_vocabulary

restore_is_high_risk : is_high_risk_action (text "runtime.restore") ≡ true
unfolding is_high_risk_action includes same
restore_is_high_risk = refl

is_high_risk_action-In_example : In (text "runtime.restore") authorization_actions
is_high_risk_action-In_example =
    is_high_risk_action-In (text "runtime.restore") restore_is_high_risk
