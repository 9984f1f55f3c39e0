-- ===== src/Authorization/Issue.antt =====
-- src/authorization.ts: `canIssueGrant`.
use agent_task_orchestrator.Base.{
  Text, Bool, true, false, not, ◌&&◌, List, [], ◌∷◌, Option, none, some, same, before, keep,
  is_empty, text, if◌then◌else◌, leb, length,
}
use agent_task_orchestrator.Reader.{Dates, is_timestamp, or_else}
use agent_task_orchestrator.Authorization.Grants.{
  AuthorizationGrant, AuthorizationTarget, AuthorizationScope, scope_matches,
}

pub record GrantIssueCandidate : Type 0 where
  pub actor_id : Text
  pub action : Text
  pub scope : AuthorizationScope
  pub not_before : Text
  pub expires_at : Text

pub record GrantIssueProof : Type 0 where
  pub administrative_grant_id : Text
  pub source_grant_id : Text

abbrev pub target_of_scope : AuthorizationScope → AuthorizationTarget
target_of_scope scope = record {
  project_id = scope.project_id;
  resource_revision = scope.resource_revision;
  config_revision = scope.config_revision;
}

abbrev pub is_short : Text → Bool
is_short s = not (is_empty s) && leb (length s) 128

-- The two tests at the start.
unfoldable pub is_issuable : ⦃d : Dates⦄ → Text → GrantIssueCandidate → Text → Bool
is_issuable issuer_id c now =
    is_short issuer_id
    && is_short c.actor_id
    && is_timestamp now
    && is_timestamp c.not_before
    && is_timestamp c.expires_at
    && not (before c.not_before now)
    && before c.not_before c.expires_at
    && before now c.expires_at

abbrev pub is_unrevoked : Option Text → Bool
is_unrevoked none = true
is_unrevoked (some time) = false

-- What the loops ask of each of the two grants.
unfoldable pub supports : AuthorizationGrant → GrantIssueCandidate → Text → Bool
supports g c now =
    is_unrevoked g.revoked_at
    && not (before now g.not_before)
    && not (before g.expires_at c.expires_at)
    && scope_matches g.scope (target_of_scope c.scope)

-- The inner loop and the outer loop.
unfoldable pub pair_with :
    AuthorizationGrant
    → List AuthorizationGrant
    → GrantIssueCandidate
    → Text
    → Option GrantIssueProof
pair_with admin [] c now = none
pair_with admin (authority ∷ rest) c now =
    if supports admin c now && supports authority c now
    then some
        (record { administrative_grant_id = admin.grant_id; source_grant_id = authority.grant_id })
    else pair_with admin rest c now

unfoldable pub find_pair :
    List AuthorizationGrant
    → List AuthorizationGrant
    → GrantIssueCandidate
    → Text
    → Option GrantIssueProof
unfolding pair_with
find_pair [] source c now = none
find_pair (admin ∷ rest) source c now =
    or_else (pair_with admin source c now) (find_pair rest source c now)

-- The issuer's grants for an action.
abbrev pub held_for : Text → Text → AuthorizationGrant → Bool
held_for issuer_id action g = same g.actor_id issuer_id && same g.action action

abbrev pub issue_action : Text
issue_action = text "authorization.grant.issue"

-- `canIssueGrant`
unfoldable pub can_issue_grant :
    ⦃d : Dates⦄
    → Text
    → List AuthorizationGrant
    → GrantIssueCandidate
    → Text
    → Option GrantIssueProof
can_issue_grant issuer_id grants c now =
    let pair =
      find_pair (keep (held_for issuer_id issue_action) grants)
        (keep (held_for issuer_id c.action) grants) c now in
    if is_issuable issuer_id c now then pair else none
