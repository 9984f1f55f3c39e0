-- ===== src/Authorization/Evaluate.antt =====
-- src/authorization.ts: `evaluateAuthorization`.
use agent_task_orchestrator.Base.{
  Text, ℕ, Bool, true, false, not, ◌&&◌, List, [], ◌∷◌, Option, none, some, same, before, keep,
  is_empty, if◌then◌else◌,
}
use agent_task_orchestrator.Domain.Value.{Value, get, is_constant}
use agent_task_orchestrator.Reader.{
  ◌>>=◌, Dates, exact_record, canonical_array, short_identifier, domain_identifier, revision,
  timestamp, or_null_by, truth_value,
}
use agent_task_orchestrator.Authorization.Actions.{is_high_risk_action}
use agent_task_orchestrator.Authorization.Grants.{
  AuthorizationGrant, AuthorizationTarget, is_runtime, parse_grants, scope_matches,
  same_text_or_null, authorization_action,
}

pub data AuthorizationPolicyResult : Type 0 where
  allow deny read_not_applicable : AuthorizationPolicyResult

pub data AuthorizationReason : Type 0 where
  allowed actor_mismatch action_mismatch scope_mismatch scope_revision_stale : AuthorizationReason
  grant_expired grant_not_yet_valid grant_revoked grant_missing : AuthorizationReason
  policy_denied confirmation_required : AuthorizationReason

pub record AuthorizationEvaluationInput : Type 0 where
  pub actor_id : Text
  pub action : Text
  pub target : AuthorizationTarget
  pub now : Text
  pub policy : AuthorizationPolicyResult
  pub confirmed : Bool
  pub grants : List AuthorizationGrant

pub record AuthorizationEvaluation : Type 0 where
  pub allowed : Bool
  pub reason : AuthorizationReason
  pub policy : AuthorizationPolicyResult
  pub grant_id : Option Text
  pub grant_revision : Option ℕ

abbrev id_of_grant : Option AuthorizationGrant → Option Text
id_of_grant none = none
id_of_grant (some g) = some g.grant_id

abbrev revision_of_grant : Option AuthorizationGrant → Option ℕ
revision_of_grant none = none
revision_of_grant (some g) = some g.revision

-- `evaluation`
abbrev pub evaluation :
    Bool
    → AuthorizationReason
    → AuthorizationPolicyResult
    → Option AuthorizationGrant
    → AuthorizationEvaluation
evaluation is_allowed reason policy grant = record {
  allowed = is_allowed;
  reason = reason;
  policy = policy;
  grant_id = id_of_grant grant;
  grant_revision = revision_of_grant grant;
}

abbrev policy_result : Value → Option AuthorizationPolicyResult
policy_result v =
    if is_constant v "allow"
    then some AuthorizationPolicyResult.allow
    else if is_constant v "deny"
    then some AuthorizationPolicyResult.deny
    else if is_constant v "read_not_applicable"
    then some AuthorizationPolicyResult.read_not_applicable
    else none

abbrev target_from : Value → Option AuthorizationTarget
target_from v = do
  r ← exact_record v ("projectId" ∷ "resourceRevision" ∷ "configRevision" ∷ [])
  project_id ← or_null_by domain_identifier (get r "projectId")
  resource ← or_null_by revision (get r "resourceRevision")
  config ← or_null_by revision (get r "configRevision")
  some (record { project_id = project_id; resource_revision = resource; config_revision = config })

-- The checks of `evaluateAuthorization` before it looks at a grant.
unfoldable pub read_evaluation_input : ⦃d : Dates⦄ → Value → Option AuthorizationEvaluationInput
read_evaluation_input v = do
  r ←
      exact_record v
        ("actorId" ∷ "action" ∷ "target" ∷ "now" ∷ "policy" ∷ "confirmed" ∷ "grants" ∷ [])
  actor_id ← short_identifier (get r "actorId")
  action ← authorization_action (get r "action")
  now ← timestamp (get r "now")
  target ← target_from (get r "target")
  grant_values ← canonical_array (get r "grants")
  policy ← policy_result (get r "policy")
  confirmed ← truth_value (get r "confirmed")
  grants ← parse_grants grant_values
  some (record {
    actor_id = actor_id;
    action = action;
    target = target;
    now = now;
    policy = policy;
    confirmed = confirmed;
    grants = grants;
  })

-- Why a grant of the actor for the action does not serve, if it does not.
unfoldable pub obstacle :
    AuthorizationEvaluationInput → AuthorizationGrant → Option AuthorizationReason
obstacle i g = elim g.revoked_at [
  | some time ↦ some AuthorizationReason.grant_revoked
  | none ↦
      if before i.now g.not_before
      then some AuthorizationReason.grant_not_yet_valid
      else if not (before i.now g.expires_at)
      then some AuthorizationReason.grant_expired
      else if scope_matches g.scope i.target
      then none
      else if not (is_runtime g.scope.kind)
          && same_text_or_null g.scope.project_id i.target.project_id
      then some AuthorizationReason.scope_revision_stale
      else some AuthorizationReason.scope_mismatch
]

-- The end of the loop's body, for a grant that serves.
abbrev pub settle : AuthorizationEvaluationInput → AuthorizationGrant → AuthorizationEvaluation
settle i g = elim i.policy [
  | AuthorizationPolicyResult.deny ↦
      evaluation false AuthorizationReason.policy_denied AuthorizationPolicyResult.deny (some g)
  | other ↦
      if is_high_risk_action i.action && not i.confirmed
      then evaluation false AuthorizationReason.confirmation_required other (some g)
      else evaluation true AuthorizationReason.allowed other (some g)
]

-- `continue` with a reason, or the end of the body.
abbrev pub unless_blocked {ℓ} :
    {A : Type ℓ} → Option AuthorizationReason → (AuthorizationReason → A) → A → A
unless_blocked none go_on here = here
unless_blocked (some reason) go_on here = go_on reason

-- The loop over the grants, with `firstReason`.
unfoldable pub choose :
    AuthorizationEvaluationInput
    → List AuthorizationGrant
    → AuthorizationReason
    → AuthorizationEvaluation
unfolding obstacle
choose i [] first_reason = evaluation false first_reason i.policy none
choose i (g ∷ gs) first_reason =
    unless_blocked (obstacle i g) (λ reason. choose i gs reason) (settle i g)

abbrev pub is_of_actor : AuthorizationEvaluationInput → AuthorizationGrant → Bool
is_of_actor i g = same g.actor_id i.actor_id

abbrev pub is_for_action : AuthorizationEvaluationInput → AuthorizationGrant → Bool
is_for_action i g = same g.action i.action

-- The part of `evaluateAuthorization` behind the checks.
abbrev pub decide_for_action :
    AuthorizationEvaluationInput → List AuthorizationGrant → AuthorizationEvaluation
decide_for_action i action_grants =
    if is_empty action_grants
    then evaluation false AuthorizationReason.action_mismatch i.policy none
    else choose i action_grants AuthorizationReason.grant_missing

abbrev pub decide_for_actor :
    AuthorizationEvaluationInput → List AuthorizationGrant → AuthorizationEvaluation
decide_for_actor i actor_grants =
    if is_empty actor_grants
    then evaluation false AuthorizationReason.actor_mismatch i.policy none
    else decide_for_action i (keep (is_for_action i) actor_grants)

unfoldable pub decide : AuthorizationEvaluationInput → AuthorizationEvaluation
unfolding choose
decide i = decide_for_actor i (keep (is_of_actor i) i.grants)

abbrev pub decide_or_deny : Option AuthorizationEvaluationInput → AuthorizationEvaluation
decide_or_deny none =
    evaluation false AuthorizationReason.grant_missing AuthorizationPolicyResult.deny none
decide_or_deny (some i) = decide i

-- `evaluateAuthorization`
unfoldable pub evaluate_authorization : ⦃d : Dates⦄ → Value → AuthorizationEvaluation
evaluate_authorization v = decide_or_deny (read_evaluation_input v)
