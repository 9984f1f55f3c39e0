-- ===== src/Application/Grants.antt =====
-- src/application-domain.ts: the pages of `authorization.grant.list`.
use agent_task_orchestrator.Base.{
  Text, ℕ, zero, suc, Bool, true, ◌&&◌, List, [], ◌∷◌, Option, none, some, same, before, keep, sort,
  length, ltb, if◌then◌else◌,
}
use agent_task_orchestrator.Authorization.Grants.{AuthorizationGrant}
use agent_task_orchestrator.Application.Model.{ApplicationState}

abbrev pub grant_key : AuthorizationGrant → Text
grant_key g = g.grant_id

-- `state.identity?.actorId ?? state.bootstrap?.actorId ?? ""`
abbrev pub actor_of : Option Text → Option Text → Text
actor_of (some actor) other = actor
actor_of none (some actor) = actor
actor_of none none = []

-- `afterGrantId === null || grant.grantId > afterGrantId`
abbrev pub is_after : Option Text → AuthorizationGrant → Bool
is_after none g = true
is_after (some cursor) g = before cursor g.grant_id

abbrev pub is_listed : Text → Option Text → AuthorizationGrant → Bool
is_listed actor after g = same g.actor_id actor && is_after after g

unfoldable pub matches : ApplicationState → Option Text → List AuthorizationGrant
matches state after =
    sort grant_key
      (keep (is_listed (actor_of state.identity_actor state.bootstrap_actor) after) state.grants)

-- `slice(0, limit)`
abbrev pub take {ℓ} : {A : Type ℓ} → ℕ → List A → List A
take zero xs = []
take (suc n) [] = []
take (suc n) (x ∷ xs) = x ∷ take n xs

-- `at(-1)?.grantId ?? null`
abbrev pub last : List AuthorizationGrant → Option Text
last [] = none
last (g ∷ []) = some g.grant_id
last (g ∷ h ∷ gs) = last (h ∷ gs)

pub record GrantPage : Type 0 where
  pub grants : List AuthorizationGrant
  pub next_cursor : Option Text

abbrev pub page_of : ℕ → List AuthorizationGrant → GrantPage
page_of limit found = record {
  grants = take limit found;
  next_cursor = if ltb limit (length found) then last (take limit found) else none;
}

-- The output of `authorization.grant.list`.
unfoldable pub list_grants : ApplicationState → ℕ → Option Text → GrantPage
list_grants state limit after = page_of limit (matches state after)
