-- ===== src/Authorization/Samples.antt =====
-- Two grants, an evaluation that they serve and a candidate that they support. The runtime's dates
-- are instantiated by a test that accepts every text.
use agent_task_orchestrator.Base.{
  Text, ◌≡◌, refl, true, List, [], ◌∷◌, none, some, text, same, before, includes, String,
}
use agent_task_orchestrator.Domain.Value.{Value, Fields, Items}
use agent_task_orchestrator.Domain.Encode.{constant, natural}
use agent_task_orchestrator.Reader.{
  Dates, exact_record, canonical_array, short_identifier, domain_identifier, revision, is_timestamp,
  timestamp, truth_value, one_of, or_null_by,
}
use agent_task_orchestrator.Authorization.Actions.{
  is_high_risk_action, base_authorization_actions, execution_authorization_actions,
  claim_authorization_actions, manual_execution_authorization_actions, manual_authorization_actions,
  dispatch_authorization_actions, dispatcher_authorization_actions, workspace_authorization_actions,
  workspace_stage_authorization_actions, completion_integration_authorization_actions,
  phase3_authorization_actions, scheduler_authorization_actions,
  scheduler_stage_authorization_actions, codex_authorization_actions, authorization_actions,
}
use agent_task_orchestrator.Authorization.Grants.{
  AuthorizationGrant, AuthorizationScope, AuthorizationTarget, runtime_scope, project_scope,
  scope_matches, same_text_or_null, same_number_or_null, scope_from, parse_scope,
  authorization_action, grant_from, parse_authorization_grant, parse_grants,
}
use agent_task_orchestrator.Authorization.Evaluate.{
  AuthorizationEvaluationInput, AuthorizationPolicyResult, obstacle, choose, decide,
  read_evaluation_input, evaluate_authorization,
}
use agent_task_orchestrator.Authorization.Issue.{
  GrantIssueCandidate, is_issuable, supports, pair_with, find_pair, can_issue_grant,
}

instance abbrev pub any_date : Dates
any_date = record { is_iso = λ s. true }

abbrev morning : String
morning = "2026-01-01T00:00:00.000Z"

abbrev noon : String
noon = "2026-01-01T12:00:00.000Z"

abbrev evening : String
evening = "2026-01-01T18:00:00.000Z"

abbrev pub grant : String → String → AuthorizationScope → AuthorizationGrant
grant id action scope = record {
  grant_id = text id;
  revision = 1;
  actor_id = text "ann";
  action = text action;
  scope = scope;
  not_before = text morning;
  expires_at = text evening;
  revoked_at = none;
  issuer_grant_id = none;
  source_grant_id = none;
}

abbrev pub grants : List AuthorizationGrant
grants =
    grant "g1" "authorization.grant.issue" runtime_scope
    ∷ grant "g2" "task.create" (project_scope (text "p") 3 1)
    ∷ []

abbrev pub target : AuthorizationTarget
target = record {
  project_id = some (text "p");
  resource_revision = some 3;
  config_revision = some 1;
}

abbrev pub request : AuthorizationEvaluationInput
request = record {
  actor_id = text "ann";
  action = text "task.create";
  target = target;
  now = text noon;
  policy = AuthorizationPolicyResult.allow;
  confirmed = true;
  grants = grants;
}

abbrev pub issued : GrantIssueCandidate
issued = record {
  actor_id = text "bob";
  action = text "task.create";
  scope = project_scope (text "p") 3 1;
  not_before = text noon;
  expires_at = text evening;
}

abbrev pub issue_time : Text
issue_time = text noon

pub request_allowed : (decide request).allowed ≡ true
unfolding decide choose obstacle scope_matches same_text_or_null same_number_or_null same before
    includes is_high_risk_action
request_allowed = refl

pub issued_found :
    can_issue_grant (text "ann") grants issued issue_time
    ≡ some (record { administrative_grant_id = text "g1"; source_grant_id = text "g2" })
unfolding can_issue_grant find_pair pair_with supports is_issuable is_timestamp scope_matches
    same_text_or_null same_number_or_null same before
issued_found = refl

-- The second grant and the request as the values that are read.
abbrev grant_value : Value
grant_value = Value.object (
    Fields.field "grantId" (constant "g2") (
      Fields.field "revision" (natural 1) (
        Fields.field "actorId" (constant "ann") (
          Fields.field "action" (constant "task.create") (
            Fields.field "scope"
              (Value.object (
                Fields.field "kind" (constant "project") (
                  Fields.field "projectId" (constant "p") (
                    Fields.field "resourceRevision" (natural 3)
                      (Fields.field "configRevision" (natural 1) Fields.end)))))
              (Fields.field "notBefore" (constant morning) (
                Fields.field "expiresAt" (constant evening) (
                  Fields.field "revokedAt" Value.null (
                    Fields.field "issuerGrantId" Value.null
                      (Fields.field "sourceGrantId" Value.null Fields.end))))))))))

abbrev target_value : Value
target_value = Value.object (
    Fields.field "projectId" (constant "p") (
      Fields.field "resourceRevision" (natural 3)
        (Fields.field "configRevision" (natural 1) Fields.end)))

abbrev pub request_value : Value
request_value = Value.object (
    Fields.field "actorId" (constant "ann") (
      Fields.field "action" (constant "task.create") (
        Fields.field "target" target_value (
          Fields.field "now" (constant noon) (
            Fields.field "policy" (constant "allow") (
              Fields.field "confirmed" (Value.boolean true) (
                Fields.field "grants" (Value.array (Items.item grant_value Items.nil))
                  Fields.end)))))))

pub request_value_allowed : (evaluate_authorization request_value).allowed ≡ true
unfolding evaluate_authorization read_evaluation_input parse_grants parse_authorization_grant
    grant_from parse_scope scope_from authorization_action exact_record canonical_array
    short_identifier domain_identifier revision is_timestamp timestamp truth_value one_of
    authorization_actions scheduler_stage_authorization_actions phase3_authorization_actions
    workspace_stage_authorization_actions dispatcher_authorization_actions
    manual_authorization_actions claim_authorization_actions base_authorization_actions
    execution_authorization_actions manual_execution_authorization_actions
    dispatch_authorization_actions workspace_authorization_actions
    completion_integration_authorization_actions scheduler_authorization_actions
    codex_authorization_actions decide choose obstacle scope_matches same_text_or_null
    same_number_or_null same before includes is_high_risk_action or_null_by
request_value_allowed = refl
