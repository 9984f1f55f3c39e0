-- ===== src/Authorization/Vocabulary.antt =====
-- The vocabularies of actions, version by version.
use agent_task_orchestrator.Base.{
  Text, ℕ, zero, suc, ◌+◌, ◌≤◌, ◌≡◌, refl, List, [], ◌∷◌, ◌++◌, In, arith, includes, true, all,
  includes→In, same, sym, subst, ◌∙◌,
}
use agent_task_orchestrator.Authorization.Actions.{
  actions_for_vocabulary, base_authorization_actions, execution_authorization_actions,
  claim_authorization_actions, manual_execution_authorization_actions, manual_authorization_actions,
  dispatch_authorization_actions, dispatcher_authorization_actions, workspace_authorization_actions,
  workspace_stage_authorization_actions, completion_integration_authorization_actions,
  phase3_authorization_actions, scheduler_authorization_actions,
  scheduler_stage_authorization_actions, codex_authorization_actions, authorization_actions,
  high_risk_actions, is_high_risk_action,
}

In-append {ℓ} : {A : Type ℓ} {x : A} {xs : List A} (ys : List A) → In x xs → In x (xs ++ ys)
In-append ys In.here = In.here
In-append ys (In.there i) = In.there (In-append ys i)

-- From version 8 on, the vocabulary is the whole list.
actions_at_last :
    (version : ℕ) → 8 ≤ version → actions_for_vocabulary version ≡ authorization_actions
unfolding actions_for_vocabulary
actions_at_last version h = ground arith

In-vocabulary-next :
    (a : Text) (version : ℕ)
    → 1 ≤ version
    → In a (actions_for_vocabulary version)
    → In a (actions_for_vocabulary (suc version))
unfolding actions_for_vocabulary claim_authorization_actions manual_authorization_actions
    dispatcher_authorization_actions workspace_stage_authorization_actions
    phase3_authorization_actions scheduler_stage_authorization_actions authorization_actions
In-vocabulary-next a zero h i = absurd (omega arith)
In-vocabulary-next a (suc zero) h i = In-append execution_authorization_actions i
In-vocabulary-next a (suc (suc zero)) h i = In-append manual_execution_authorization_actions i
In-vocabulary-next a (suc (suc (suc zero))) h i = In-append dispatch_authorization_actions i
In-vocabulary-next a (suc (suc (suc (suc zero)))) h i = In-append workspace_authorization_actions i
In-vocabulary-next a (suc (suc (suc (suc (suc zero))))) h i =
    In-append completion_integration_authorization_actions i
In-vocabulary-next a (suc (suc (suc (suc (suc (suc zero)))))) h i =
    In-append scheduler_authorization_actions i
In-vocabulary-next a (suc (suc (suc (suc (suc (suc (suc zero))))))) h i =
    In-append codex_authorization_actions i
In-vocabulary-next a (suc (suc (suc (suc (suc (suc (suc (suc version)))))))) h i =
    let later = suc (suc (suc (suc (suc (suc (suc (suc version))))))) in
    subst (In a)
      (actions_at_last later (omega arith) ∙ sym (actions_at_last (suc later) (omega arith))) i

-- A later vocabulary holds every action of an earlier one.
pub In-actions_for_vocabulary :
    (a : Text) (earlier more : ℕ)
    → 1 ≤ earlier
    → In a (actions_for_vocabulary earlier)
    → In a (actions_for_vocabulary (earlier + more))
In-actions_for_vocabulary a earlier zero h i =
    let same_version : earlier ≡ earlier + 0 = omega arith in
    subst (λ (n : ℕ). In a (actions_for_vocabulary n)) same_version i
In-actions_for_vocabulary a earlier (suc more) h i =
    let next =
      In-vocabulary-next a (earlier + more) (omega arith)
        (In-actions_for_vocabulary a earlier more h i) in
    let same_version : suc (earlier + more) ≡ earlier + suc more = omega arith in
    subst (λ (n : ℕ). In a (actions_for_vocabulary n)) same_version next

every : (xs ys : List Text) → all (includes ys) xs ≡ true → (a : Text) → In a xs → In a ys
every [] ys h a i = elim i [ ]
every (x ∷ xs) ys h _ In.here = includes→In ys x (ground arith)
every (x ∷ xs) ys h a (In.there i) = every xs ys (ground arith) a i

high_risk_covered : all (includes authorization_actions) high_risk_actions ≡ true
unfolding high_risk_actions authorization_actions scheduler_stage_authorization_actions
    phase3_authorization_actions workspace_stage_authorization_actions
    dispatcher_authorization_actions manual_authorization_actions claim_authorization_actions
    base_authorization_actions execution_authorization_actions
    manual_execution_authorization_actions dispatch_authorization_actions
    workspace_authorization_actions completion_integration_authorization_actions
    scheduler_authorization_actions codex_authorization_actions includes same
high_risk_covered = refl

-- An action of high risk is one of the authorization actions.
pub is_high_risk_action-In : (a : Text) → is_high_risk_action a ≡ true → In a authorization_actions
unfolding is_high_risk_action
is_high_risk_action-In a h =
    every high_risk_actions authorization_actions high_risk_covered a
      (includes→In high_risk_actions a h)
