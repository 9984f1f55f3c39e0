-- ===== src/Authorization/Decision.antt =====
-- When an evaluation allows.
use agent_task_orchestrator.Base.{
  Text, ℕ, ◌≡◌, refl, sym, ap, subst, ◌∙◌, ◌↔◌, ◌⊎◌, inl, inr, ◌≢◌, true, false, List, [], ◌∷◌,
  Option, none, some, arith, same→eq, eq→same, before, keep, In, In-keep, keep-In, Option-cases,
}
use agent_task_orchestrator.Domain.Value.{Value}
use agent_task_orchestrator.Reader.{Dates}
use agent_task_orchestrator.Authorization.Actions.{is_high_risk_action}
use agent_task_orchestrator.Authorization.Grants.{
  AuthorizationGrant, AuthorizationTarget, AuthorizationScope, ScopeKind, scope_matches,
  same_text_or_null, same_number_or_null,
}
use agent_task_orchestrator.Authorization.Evaluate.{
  AuthorizationPolicyResult, AuthorizationReason, AuthorizationEvaluationInput,
  AuthorizationEvaluation, obstacle, settle, choose, decide, decide_or_deny, decide_for_action,
  decide_for_actor, is_of_actor, is_for_action, evaluate_authorization, read_evaluation_input,
}

-- A runtime scope holds every target; a Project's holds the Project at the same two revisions.
abbrev pub IsInScope : AuthorizationScope → AuthorizationTarget → Type 0
IsInScope scope target =
    (scope.kind ≡ ScopeKind.runtime)
    ⊎ ((target.project_id ≡ scope.project_id)
        × (target.resource_revision ≡ scope.resource_revision)
        × (target.config_revision ≡ scope.config_revision))

pub same_text_or_null_iff : (a b : Option Text) → (same_text_or_null a b ≡ true) ↔ (a ≡ b)
unfolding same_text_or_null
same_text_or_null_iff none none = ground arith
same_text_or_null_iff none (some b) = ground arith
same_text_or_null_iff (some a) none = ground arith
same_text_or_null_iff (some a) (some b) = ground (arith, same→eq a b, eq→same a b)

pub same_number_or_null_iff : (a b : Option ℕ) → (same_number_or_null a b ≡ true) ↔ (a ≡ b)
unfolding same_number_or_null
same_number_or_null_iff none none = ground arith
same_number_or_null_iff none (some b) = ground arith
same_number_or_null_iff (some a) none = ground arith
same_number_or_null_iff (some a) (some b) = ground arith

pub scope_matches_iff :
    (scope : AuthorizationScope) (target : AuthorizationTarget)
    → (scope_matches scope target ≡ true) ↔ IsInScope scope target
unfolding scope_matches
scope_matches_iff scope target = ground (
  arith,
  same_text_or_null_iff target.project_id scope.project_id,
  same_number_or_null_iff target.resource_revision scope.resource_revision,
  same_number_or_null_iff target.config_revision scope.config_revision,
)

-- What the evaluation asks besides a grant.
pub record IsPermitted (i : AuthorizationEvaluationInput) : Type 0 where
  pub policy : i.policy ≢ AuthorizationPolicyResult.deny
  pub confirmed : (is_high_risk_action i.action ≡ false) ⊎ (i.confirmed ≡ true)

-- A grant that serves: not revoked, begun, not expired, and of a scope that holds the target.
pub record IsUsable (i : AuthorizationEvaluationInput) (g : AuthorizationGrant) : Type 0 where
  pub actor : g.actor_id ≡ i.actor_id
  pub action : g.action ≡ i.action
  pub unrevoked : g.revoked_at ≡ none
  pub begun : before i.now g.not_before ≡ false
  pub unexpired : before i.now g.expires_at ≡ true
  pub in_scope : IsInScope g.scope i.target

pub obstacle-IsUsable :
    (i : AuthorizationEvaluationInput) (g : AuthorizationGrant)
    → obstacle i g ≡ none
    → is_of_actor i g ≡ true
    → is_for_action i g ≡ true
    → IsUsable i g
unfolding obstacle
obstacle-IsUsable i g h a b = ground (
  arith,
  same→eq g.actor_id i.actor_id,
  same→eq g.action i.action,
  scope_matches_iff g.scope i.target,
)

obstacle_of_usable :
    (i : AuthorizationEvaluationInput) (g : AuthorizationGrant) → IsUsable i g → obstacle i g ≡ none
unfolding obstacle
obstacle_of_usable i g h =
    rw (h.unrevoked, h.begun, h.unexpired, (scope_matches_iff g.scope i.target).1 h.in_scope) refl

settle_allows_iff :
    (i : AuthorizationEvaluationInput) (g : AuthorizationGrant)
    → ((settle i g).allowed ≡ true) ↔ IsPermitted i
settle_allows_iff i g = ground arith

settle_names_grant :
    (i : AuthorizationEvaluationInput) (g : AuthorizationGrant)
    → (settle i g).allowed ≡ true
    → ((settle i g).grant_id ≡ some g.grant_id)
      × ((settle i g).grant_revision ≡ some g.revision)
      × ((settle i g).reason ≡ AuthorizationReason.allowed)
settle_names_grant i g h = ground arith

-- No grant of the list is without an obstacle.
abbrev AreBlocked : AuthorizationEvaluationInput → List AuthorizationGrant → Type 0
AreBlocked i gs = (g : AuthorizationGrant) → In g gs → obstacle i g ≢ none

blocked_at_head :
    (i : AuthorizationEvaluationInput) (g : AuthorizationGrant) (gs : List AuthorizationGrant)
    → obstacle i g ≢ none
    → AreBlocked i gs
    → AreBlocked i (g ∷ gs)
blocked_at_head i g gs h all g' In.here = h
blocked_at_head i g gs h all g' (In.there j) = all g' j

-- The loop settles on a grant without an obstacle, or there is none and it denies.
choose_cases :
    (i : AuthorizationEvaluationInput) (gs : List AuthorizationGrant) (first : AuthorizationReason)
    → ((g : AuthorizationGrant) × In g gs
        × (obstacle i g ≡ none)
        × (choose i gs first ≡ settle i g))
      ⊎ (AreBlocked i gs × ((choose i gs first).allowed ≡ false))
unfolding choose
choose_cases i [] first = inr ((λ g j. elim j [ ]), refl)
choose_cases i (g ∷ gs) first = elim (Option-cases (obstacle i g)) [
  | inl e ↦ inl (g, In.here, e, rw e refl)
  | inr x ↦
      let (reason, e) = x in
      elim (choose_cases i gs reason) [
        | inl y ↦ let (g', j, clear, settled) = y in inl (g', In.there j, clear, rw e settled)
        | inr y ↦
            let (all, denied) = y in inr (blocked_at_head i g gs (rw e (λ z. cc)) all, rw e denied)
      ]
]

-- The grants of the actor for the action.
abbrev relevant : AuthorizationEvaluationInput → List AuthorizationGrant
relevant i = keep (is_for_action i) (keep (is_of_actor i) i.grants)

-- Behind its two early answers, the evaluation is the loop.
abbrev IsLoop :
    AuthorizationEvaluationInput → List AuthorizationGrant → AuthorizationEvaluation → Type 0
IsLoop i gs e =
    (e ≡ choose i gs AuthorizationReason.grant_missing) ⊎ ((gs ≡ []) × (e.allowed ≡ false))

decide_for_action-IsLoop :
    (i : AuthorizationEvaluationInput) (gs : List AuthorizationGrant)
    → IsLoop i gs (decide_for_action i gs)
decide_for_action-IsLoop i [] = inr (refl, refl)
decide_for_action-IsLoop i (g ∷ gs) = inl refl

decide_for_actor-IsLoop :
    (i : AuthorizationEvaluationInput) (gs : List AuthorizationGrant)
    → IsLoop i (keep (is_for_action i) gs) (decide_for_actor i gs)
decide_for_actor-IsLoop i [] = inr (refl, refl)
decide_for_actor-IsLoop i (g ∷ gs) = decide_for_action-IsLoop i (keep (is_for_action i) (g ∷ gs))

decide-IsLoop : (i : AuthorizationEvaluationInput) → IsLoop i (relevant i) (decide i)
unfolding decide
decide-IsLoop i = decide_for_actor-IsLoop i (keep (is_of_actor i) i.grants)

relevant-IsUsable :
    (i : AuthorizationEvaluationInput) (g : AuthorizationGrant)
    → In g (relevant i)
    → obstacle i g ≡ none
    → In g i.grants × IsUsable i g
relevant-IsUsable i g j clear =
    let (k, action) = keep-In (is_for_action i) (keep (is_of_actor i) i.grants) j in
    let (l, actor) = keep-In (is_of_actor i) i.grants k in
    (l, obstacle-IsUsable i g clear actor action)

In-relevant :
    (i : AuthorizationEvaluationInput) (g : AuthorizationGrant)
    → In g i.grants
    → IsUsable i g
    → In g (relevant i)
In-relevant i g j h =
    In-keep (is_for_action i) (In-keep (is_of_actor i) j (eq→same g.actor_id i.actor_id h.actor))
      (eq→same g.action i.action h.action)

absent_of_empty : {g : AuthorizationGrant} {gs : List AuthorizationGrant} → gs ≡ [] → In g gs → ⊥
absent_of_empty e In.here = cc
absent_of_empty e (In.there j) = cc

-- The evaluation settles on a grant that serves, or none serves and it denies.
decide_settles :
    (i : AuthorizationEvaluationInput)
    → ((g : AuthorizationGrant) × In g i.grants × IsUsable i g × (decide i ≡ settle i g))
      ⊎ (((g : AuthorizationGrant) → In g i.grants → ¬ IsUsable i g) × ((decide i).allowed ≡ false))
decide_settles i = elim (decide-IsLoop i) [
  | inl e ↦ elim (choose_cases i (relevant i) AuthorizationReason.grant_missing) [
    | inl x ↦
        let (g, j, clear, settled) = x in
        let (k, usable) = relevant-IsUsable i g j clear in inl (g, k, usable, e ∙ settled)
    | inr x ↦
        let (blocked, denied) = x in
        inr (
          (λ g j h. blocked g (In-relevant i g j h) (obstacle_of_usable i g h)),
          ap (λ (y : AuthorizationEvaluation). y.allowed) e ∙ denied,
        )
  ]
  | inr x ↦
      let (nobody, denied) = x in
      inr ((λ g j h. absent_of_empty nobody (In-relevant i g j h)), denied)
]

-- An evaluation allows exactly when some grant of the input serves, the policy does not deny, and an action of high risk is confirmed.
pub decide_allows_iff :
    (i : AuthorizationEvaluationInput)
    → ((decide i).allowed ≡ true)
      ↔ (((g : AuthorizationGrant) × In g i.grants × IsUsable i g) × IsPermitted i)
decide_allows_iff i = elim (decide_settles i) [
  | inl x ↦
      let (g, j, usable, settled) = x in
      (
        λ h. (
          (g, j, usable),
          (settle_allows_iff i g).0
              (sym (ap (λ (y : AuthorizationEvaluation). y.allowed) settled) ∙ h),
        ),
        λ h.
            ap (λ (y : AuthorizationEvaluation). y.allowed) settled ∙ (settle_allows_iff i g).1 h.1,
      )
  | inr x ↦
      let (nobody, denied) = x in
      (λ h. absurd (ground arith), λ h. absurd (nobody h.0.0 h.0.1 h.0.2))
]

-- An evaluation that allows names a grant of the input that serves.
pub decide_names_grant :
    (i : AuthorizationEvaluationInput)
    → (decide i).allowed ≡ true
    → (g : AuthorizationGrant) × In g i.grants
      × IsUsable i g
      × ((decide i).grant_id ≡ some g.grant_id)
      × ((decide i).grant_revision ≡ some g.revision)
      × ((decide i).reason ≡ AuthorizationReason.allowed)
decide_names_grant i h = elim (decide_settles i) [
  | inl x ↦
      let (g, j, usable, settled) = x in
      let (named, numbered, reason) =
        settle_names_grant i g
          (sym (ap (λ (y : AuthorizationEvaluation). y.allowed) settled) ∙ h) in
      (g, j, usable, rw settled named, rw settled numbered, rw settled reason)
  | inr x ↦ absurd (ground arith)
]

decide_or_deny_iff :
    (o : Option AuthorizationEvaluationInput)
    → ((decide_or_deny o).allowed ≡ true) ↔ (
        (i : AuthorizationEvaluationInput) × (o ≡ some i)
        × ((g : AuthorizationGrant) × In g i.grants × IsUsable i g)
        × IsPermitted i)
decide_or_deny_iff none = (λ h. absurd (ground arith), λ h. absurd (ground arith))
decide_or_deny_iff (some i) = (
  λ h. let (g, permitted) = (decide_allows_iff i).0 h in (i, refl, g, permitted),
  λ h.
      let (j, f, g, permitted) = h in
      let s : j ≡ i = ground arith in
      subst (λ k. (decide k).allowed ≡ true) s ((decide_allows_iff j).1 (g, permitted)),
)

-- `evaluateAuthorization` allows exactly when its input reads, some grant of the input serves, the policy does not deny, and an action of high risk is confirmed.
pub evaluate_authorization_iff :
    ⦃d : Dates⦄ (v : Value)
    → ((evaluate_authorization v).allowed ≡ true) ↔ (
        (i : AuthorizationEvaluationInput) × (read_evaluation_input v ≡ some i)
        × ((g : AuthorizationGrant) × In g i.grants × IsUsable i g)
        × IsPermitted i)
unfolding evaluate_authorization
evaluate_authorization_iff v = decide_or_deny_iff (read_evaluation_input v)
