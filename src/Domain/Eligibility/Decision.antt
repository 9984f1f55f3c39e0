-- ===== src/Domain/Eligibility/Decision.antt =====
-- What an empty list of reasons means.
use agent_task_orchestrator.Base.{
  Text, String, ◌≡◌, refl, ◌∙◌, sym, ◌↔◌, true, false, not, List, [], ◌∷◌, ◌++◌, Option, none, some,
  arith, sort, insert, text, is_empty, All,
}
use agent_task_orchestrator.Domain.States.{TaskState, same_state}
use agent_task_orchestrator.Domain.Errors.{EligibilityReason}
use agent_task_orchestrator.Domain.Records.{Task, Project, DomainSnapshot}
use agent_task_orchestrator.Domain.Graph.{task_of}
use agent_task_orchestrator.Domain.Snapshot.{project_of}
use agent_task_orchestrator.Domain.Eligibility.{
  add_reason, add_reason_if, add_for_project, add_for_dependency, add_for_dependencies,
  eligibility_name, eligibility_reasons,
}

-- The Project is registered and enabled.
abbrev pub IsEnabled : Option Project → Type 0
IsEnabled none = ⊥
IsEnabled (some p) = p.enabled ≡ true

-- The Task is registered and completed.
abbrev pub IsCompleted : Option Task → Type 0
IsCompleted none = ⊥
IsCompleted (some t) = t.state ≡ TaskState.completed

insert-not_empty :
    {A : Type 0} (key : A → Text) (x : A) (xs : List A) → is_empty (insert key x xs) ≡ false
unfolding insert
insert-not_empty key x [] = refl
insert-not_empty key x (y ∷ ys) = ground arith

pub is_empty-sort :
    {A : Type 0} (key : A → Text) (xs : List A) → is_empty (sort key xs) ≡ is_empty xs
unfolding sort
is_empty-sort key [] = refl
is_empty-sort key (x ∷ xs) = insert-not_empty key x (sort key xs)

module _ {R : Type 0} (name : R → String) where
  is_empty-append : (r : R) (rs : List R) → is_empty (rs ++ r ∷ []) ≡ false
  is_empty-append r [] = refl
  is_empty-append r (x ∷ xs) = refl

  pub is_empty-add_reason : (r : R) (rs : List R) → is_empty (add_reason name r rs) ≡ false
  unfolding add_reason
  is_empty-add_reason r [] = refl
  is_empty-add_reason r (x ∷ xs) = ground arith

  pub is_empty-add_for_project :
      (missing disabled : R) (p : Option Project) (rs : List R)
      → (is_empty (add_for_project name missing disabled p rs) ≡ true)
        ↔ (IsEnabled p × (is_empty rs ≡ true))
  is_empty-add_for_project missing disabled none rs = ground (arith, is_empty-add_reason missing rs)
  is_empty-add_for_project missing disabled (some p) rs =
      ground (arith, is_empty-add_reason disabled rs)

  is_empty-add_for_dependency :
      (missing unfinished : R) (t : Option Task) (rs : List R)
      → (is_empty (add_for_dependency name missing unfinished t rs) ≡ true)
        ↔ (IsCompleted t × (is_empty rs ≡ true))
  is_empty-add_for_dependency missing unfinished none rs =
      ground (arith, is_empty-add_reason missing rs)
  is_empty-add_for_dependency missing unfinished (some t) rs =
      ground (arith, is_empty-add_reason unfinished rs)

  pub is_empty-add_for_dependencies :
      (missing unfinished : R) (tasks : List Task) (ds : List Text) (rs : List R)
      → (is_empty (add_for_dependencies name missing unfinished tasks ds rs) ≡ true)
        ↔ (All (λ d. IsCompleted (task_of tasks d)) ds × (is_empty rs ≡ true))
  unfolding add_for_dependencies
  is_empty-add_for_dependencies missing unfinished tasks [] rs = (λ h. (tt, h), λ h. h.1)
  is_empty-add_for_dependencies missing unfinished tasks (d ∷ ds) rs =
      let step = is_empty-add_for_dependency missing unfinished (task_of tasks d) rs in
      let rest =
        is_empty-add_for_dependencies missing unfinished tasks ds
          (add_for_dependency name missing unfinished (task_of tasks d) rs) in
      (
        λ h. let (all, e) = rest.0 h in let (now, e') = step.0 e in ((now, all), e'),
        λ h. rest.1 (h.0.1, step.1 (h.0.0, h.1)),
      )

is_empty-state :
    (t : TaskState)
    → (is_empty (
          add_reason_if eligibility_name
            (not (same_state t TaskState.ready))
            EligibilityReason.state_not_ready
            [])
        ≡ true)
      ↔ (t ≡ TaskState.ready)
is_empty-state t =
    ground (arith, is_empty-add_reason eligibility_name EligibilityReason.state_not_ready [])

-- A Task has no reason against a claim exactly when it is ready, its Project is registered and
-- enabled, and each of its dependencies is registered and completed.
pub eligibility_reasons_iff :
    (s : DomainSnapshot) (task : Task)
    → (is_empty (eligibility_reasons s task) ≡ true) ↔ (
        (task.state ≡ TaskState.ready)
        × IsEnabled (project_of s.projects task.project_id)
        × All (λ d. IsCompleted (task_of s.tasks d)) task.dependency_ids)
unfolding eligibility_reasons
eligibility_reasons_iff s task =
    let name = eligibility_name in
    let by_state =
      add_reason_if name (not (same_state task.state TaskState.ready))
        EligibilityReason.state_not_ready [] in
    let by_project =
      add_for_project name EligibilityReason.project_not_registered
        EligibilityReason.project_disabled (project_of s.projects task.project_id) by_state in
    let sorted =
      is_empty-sort (λ r. text (name r))
        (add_for_dependencies name EligibilityReason.dependency_not_registered
          EligibilityReason.dependency_not_completed s.tasks task.dependency_ids by_project) in
    let dependencies =
      is_empty-add_for_dependencies name EligibilityReason.dependency_not_registered
        EligibilityReason.dependency_not_completed s.tasks task.dependency_ids by_project in
    let project =
      is_empty-add_for_project name EligibilityReason.project_not_registered
        EligibilityReason.project_disabled (project_of s.projects task.project_id) by_state in
    let state = is_empty-state task.state in
    (
      λ h.
          let (done, h1) = dependencies.0 (sym sorted ∙ h) in
          let (enabled, h2) = project.0 h1 in (state.0 h2, enabled, done),
      λ h. sorted ∙ dependencies.1 (h.2, project.1 (h.1, state.1 h.0)),
    )
