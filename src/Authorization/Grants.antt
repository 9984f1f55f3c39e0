-- ===== src/Authorization/Grants.antt =====
-- src/authorization.ts: grants and their scopes, and how they are read.
use agent_task_orchestrator.Base.{
  Text, ℕ, Bool, true, false, ◌&&◌, List, [], ◌∷◌, Option, none, some, same, before, ◌==◌, ◌||◌,
}
use agent_task_orchestrator.Domain.Value.{Value, get, is_constant, is_null}
use agent_task_orchestrator.Reader.{
  ◌>>=◌, ◌>>◌, check, Dates, exact_record, short_identifier, domain_identifier, revision, timestamp,
  or_null_by, one_of,
}
use agent_task_orchestrator.Authorization.Actions.{authorization_actions}

pub data ScopeKind : Type 0 where
  runtime project : ScopeKind

pub record AuthorizationScope : Type 0 where
  pub kind : ScopeKind
  pub project_id : Option Text
  pub resource_revision : Option ℕ
  pub config_revision : Option ℕ

pub record AuthorizationGrant : Type 0 where
  pub grant_id : Text
  pub revision : ℕ
  pub actor_id : Text
  pub action : Text
  pub scope : AuthorizationScope
  pub not_before : Text
  pub expires_at : Text
  pub revoked_at : Option Text
  pub issuer_grant_id : Option Text
  pub source_grant_id : Option Text

pub record AuthorizationTarget : Type 0 where
  pub project_id : Option Text
  pub resource_revision : Option ℕ
  pub config_revision : Option ℕ

abbrev pub runtime_scope : AuthorizationScope
runtime_scope = record {
  kind = ScopeKind.runtime;
  project_id = none;
  resource_revision = none;
  config_revision = none;
}

-- The scope of a Project at its two revisions.
abbrev pub project_scope : Text → ℕ → ℕ → AuthorizationScope
project_scope id resource config = record {
  kind = ScopeKind.project;
  project_id = some id;
  resource_revision = some resource;
  config_revision = some config;
}

-- The two branches of `parseScope`.
abbrev scope_of_runtime : Value → Value → Value → Option AuthorizationScope
scope_of_runtime id resource config = do
  check (is_null id && is_null resource && is_null config)
  some runtime_scope

abbrev scope_of_project : Value → Value → Value → Option AuthorizationScope
scope_of_project id resource config = do
  project_id ← domain_identifier id
  resource_revision ← revision resource
  config_revision ← revision config
  some (project_scope project_id resource_revision config_revision)

unfoldable pub scope_from : Value → Value → Value → Value → Option AuthorizationScope
scope_from kind id resource config = elim (is_constant kind "runtime") [
  | true ↦ scope_of_runtime id resource config
  | false ↦ elim (is_constant kind "project") [
    | true ↦ scope_of_project id resource config
    | false ↦ none
  ]
]

-- `parseScope`
unfoldable pub parse_scope : Value → Option AuthorizationScope
unfolding scope_from
parse_scope v = do
  r ← exact_record v ("kind" ∷ "projectId" ∷ "resourceRevision" ∷ "configRevision" ∷ [])
  scope_from (get r "kind") (get r "projectId") (get r "resourceRevision") (get r "configRevision")

-- `isAuthorizationAction`
unfoldable pub authorization_action : Value → Option Text
authorization_action v = one_of authorization_actions v

-- `parseAuthorizationGrant` over the values of the fields.
unfoldable pub grant_from :
    ⦃d : Dates⦄
    → Value
    → Value
    → Value
    → Value
    → Value
    → Value
    → Value
    → Value
    → Value
    → Value
    → Option AuthorizationGrant
grant_from v1 v2 v3 v4 v5 v6 v7 v8 v9 v10 = do
  scope ← parse_scope v5
  grant_id ← short_identifier v1
  number ← revision v2
  actor_id ← short_identifier v3
  action ← authorization_action v4
  not_before ← timestamp v6
  expires_at ← timestamp v7
  revoked_at ← or_null_by timestamp v8
  issuer_grant_id ← or_null_by short_identifier v9
  source_grant_id ← or_null_by short_identifier v10
  check (before not_before expires_at)
  some (record {
    grant_id = grant_id;
    revision = number;
    actor_id = actor_id;
    action = action;
    scope = scope;
    not_before = not_before;
    expires_at = expires_at;
    revoked_at = revoked_at;
    issuer_grant_id = issuer_grant_id;
    source_grant_id = source_grant_id;
  })

-- `parseAuthorizationGrant`
unfoldable pub parse_authorization_grant : ⦃d : Dates⦄ → Value → Option AuthorizationGrant
unfolding grant_from
parse_authorization_grant v = do
  r ← exact_record v (
      "grantId" ∷ "revision" ∷ "actorId" ∷ "action" ∷ "scope" ∷ "notBefore" ∷ "expiresAt"
      ∷ "revokedAt" ∷ "issuerGrantId" ∷ "sourceGrantId" ∷ [])
  grant_from (get r "grantId") (get r "revision") (get r "actorId") (get r "action") (get r "scope")
      (get r "notBefore") (get r "expiresAt") (get r "revokedAt") (get r "issuerGrantId")
      (get r "sourceGrantId")

-- `grants.map(parseAuthorizationGrant)`, which must hold no `null`.
unfoldable pub parse_grants : ⦃d : Dates⦄ → List Value → Option (List AuthorizationGrant)
parse_grants [] = some []
parse_grants (v ∷ vs) = do g ← parse_authorization_grant v; gs ← parse_grants vs; some (g ∷ gs)

-- `===` between values that may be `null`.
unfoldable pub same_text_or_null : Option Text → Option Text → Bool
same_text_or_null none none = true
same_text_or_null (some a) (some b) = same a b
same_text_or_null _ _ = false

unfoldable pub same_number_or_null : Option ℕ → Option ℕ → Bool
same_number_or_null none none = true
same_number_or_null (some a) (some b) = a == b
same_number_or_null _ _ = false

abbrev pub is_runtime : ScopeKind → Bool
is_runtime ScopeKind.runtime = true
is_runtime ScopeKind.project = false

-- `scopeMatches`
unfoldable pub scope_matches : AuthorizationScope → AuthorizationTarget → Bool
unfolding same_text_or_null same_number_or_null
scope_matches scope target =
    is_runtime scope.kind
    || (same_text_or_null target.project_id scope.project_id
        && same_number_or_null target.resource_revision scope.resource_revision
        && same_number_or_null target.config_revision scope.config_revision)
