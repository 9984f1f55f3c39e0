-- ===== src/Domain/Snapshot/WellFormed.antt =====
-- The invariant of snapshots, and the complete mode of `parse_snapshot`.
use agent_task_orchestrator.Base.{
  Text, ◌≡◌, refl, ap, ◌∙◌, sym, subst, true, List, [], ◌∷◌, none, some, arith, All, All-sort,
  is_unique, IsOrdered, sort-IsOrdered, map, same→eq, Option-cases, inl, inr,
}
use agent_task_orchestrator.Domain.Errors.{ok}
use agent_task_orchestrator.Domain.Records.{Project, Task, DomainSnapshot}
use agent_task_orchestrator.Domain.Value.{Value, Unicode}
use agent_task_orchestrator.Domain.Encode.{snapshot_value}
use agent_task_orchestrator.Domain.Parse.Accepted.{IsTask}
use agent_task_orchestrator.Domain.Graph.{task_of, ids, parent_cycle, dependency_cycle}
use agent_task_orchestrator.Domain.Graph.Reach.{IsAcyclic}
use agent_task_orchestrator.Domain.Graph.Acyclic.{dependency_cycle_iff}
use agent_task_orchestrator.Domain.Graph.Parents.{IsHierarchy, parent_cycle_iff}
use agent_task_orchestrator.Domain.Snapshot.{
  SnapshotValidationMode, check_snapshot, check_all, check_references, check_dependencies,
  check_parent, project_id, task_id, parse_snapshot, project_of, is_defined,
}
use agent_task_orchestrator.Domain.Snapshot.Accepted.{
  IsParsed, parse_snapshot-IsParsed, IsParsed-again,
}

-- What a Task refers to is registered, and its parent is of its Project.
pub record IsLinked (projects : List Project) (tasks : List Task) (t : Task) : Type 0 where
  pub project_registered : is_defined (project_of projects t.project_id) ≡ true
  pub parent_registered :
      (id : Text)
      → t.parent_id ≡ some id
      → (p : Task) × (task_of tasks id ≡ some p) × (p.project_id ≡ t.project_id)
  pub dependencies_registered : All (λ d. is_defined (task_of tasks d) ≡ true) t.dependency_ids
  pub superseded_registered :
      (id : Text) → t.supersedes_task_id ≡ some id → is_defined (task_of tasks id) ≡ true

pub record IsSnapshot (s : DomainSnapshot) : Type 0 where
  pub projects_ordered : IsOrdered project_id s.projects
  pub projects_unique : is_unique (map project_id s.projects) ≡ true
  pub tasks_ordered : IsOrdered task_id s.tasks
  pub tasks_unique : is_unique (ids s.tasks) ≡ true
  pub tasks_valid : All IsTask s.tasks
  pub linked : All (IsLinked s.projects s.tasks) s.tasks
  pub hierarchy : IsHierarchy s.tasks
  pub acyclic : IsAcyclic s.tasks

module _ (projects : List Project) (tasks : List Task) where
  registered_of_check :
      (id : Text) (ds : List Text)
      → check_dependencies true tasks id ds ≡ ok tt
      → All (λ d. is_defined (task_of tasks d) ≡ true) ds
  unfolding check_dependencies
  registered_of_check id [] h = tt
  registered_of_check id (d ∷ ds) h = (ground arith, registered_of_check id ds (ground arith))

  check_parent-registered :
      (t : Task) (id : Text)
      → check_parent tasks t (some id) ≡ ok tt
      → (p : Task) × (task_of tasks id ≡ some p) × (p.project_id ≡ t.project_id)
  check_parent-registered t id h = elim (Option-cases (task_of tasks id)) [
    | inl e ↦ absurd (ground arith)
    | inr (p, e) ↦ (p, e, same→eq p.project_id t.project_id (ground arith))
  ]

  parent_of_check :
      (t : Task)
      → check_references SnapshotValidationMode.complete projects tasks t ≡ ok tt
      → (id : Text) → t.parent_id ≡ some id
      → (p : Task) × (task_of tasks id ≡ some p) × (p.project_id ≡ t.project_id)
  unfolding check_references
  parent_of_check t h id e =
      let c : check_parent tasks t t.parent_id ≡ ok tt = ground arith in
      check_parent-registered t id (subst (λ p. check_parent tasks t p ≡ ok tt) e c)

  check_references-IsLinked :
      (t : Task)
      → check_references SnapshotValidationMode.complete projects tasks t ≡ ok tt
      → IsLinked projects tasks t
  unfolding check_references
  check_references-IsLinked t h = record {
    project_registered = ground arith;
    parent_registered = parent_of_check t h;
    dependencies_registered = registered_of_check t.id t.dependency_ids (ground arith);
    superseded_registered = λ id e. ground arith;
  }

  check_all-IsLinked :
      (l : List Task)
      → check_all SnapshotValidationMode.complete projects tasks l ≡ ok tt
      → All (IsLinked projects tasks) l
  unfolding check_all
  check_all-IsLinked [] h = tt
  check_all-IsLinked (t ∷ ts) h =
      (check_references-IsLinked t (ground arith), check_all-IsLinked ts (ground arith))

pub map-ids : (l : List Task) → map task_id l ≡ ids l
map-ids [] = refl
map-ids (t ∷ ts) = ap (λ (r : List Text). t.id ∷ r) (map-ids ts)

module _ (projects : List Project) (tasks : List Task) (s : DomainSnapshot)
    (h : check_snapshot SnapshotValidationMode.complete projects tasks ≡ ok s) where
  checked_unique : is_unique (map task_id tasks) ≡ true
  unfolding check_snapshot
  checked_unique = ground arith

  checked_all : check_all SnapshotValidationMode.complete projects tasks tasks ≡ ok tt
  unfolding check_snapshot
  checked_all = ground arith

  checked_parents : parent_cycle tasks ≡ none
  unfolding check_snapshot
  checked_parents = ground arith

  checked_dependencies : dependency_cycle tasks ≡ none
  unfolding check_snapshot
  checked_dependencies = ground arith

module _ ⦃u : Unicode⦄ where
  IsParsed-IsSnapshot :
      (s : DomainSnapshot) → IsParsed SnapshotValidationMode.complete s → IsSnapshot s
  IsParsed-IsSnapshot s r =
      let unique =
        ap is_unique (sym (map-ids s.tasks)) ∙ checked_unique s.projects s.tasks s r.checked in
      record {
        projects_ordered = rw r.sorted_projects (sort-IsOrdered project_id r.raw_projects);
        projects_unique = r.unique_projects;
        tasks_ordered = rw r.sorted_tasks (sort-IsOrdered task_id r.raw_tasks);
        tasks_unique = unique;
        tasks_valid =
            subst (All IsTask) (sym r.sorted_tasks)
              (All-sort task_id IsTask r.raw_tasks r.sound_tasks);
        linked =
            check_all-IsLinked s.projects s.tasks s.tasks
              (checked_all s.projects s.tasks s r.checked);
        hierarchy =
            (parent_cycle_iff s.tasks unique).0 (checked_parents s.projects s.tasks s r.checked);
        acyclic =
            (dependency_cycle_iff s.tasks).0 (checked_dependencies s.projects s.tasks s r.checked);
      }

  -- Every snapshot that the parser accepts in its complete mode satisfies the invariant: unique,
  -- ordered identifiers, valid Tasks, registered references, no parent above itself and no Task
  -- that depends on itself.
  pub parse_snapshot-IsSnapshot :
      (v : Value) (s : DomainSnapshot)
      → parse_snapshot v SnapshotValidationMode.complete ≡ ok s
      → IsSnapshot s
  parse_snapshot-IsSnapshot v s h =
      IsParsed-IsSnapshot s (parse_snapshot-IsParsed v SnapshotValidationMode.complete s h)

  -- The value of an accepted snapshot is accepted again, as the same snapshot.
  pub parse_snapshot-again :
      (v : Value) (mode : SnapshotValidationMode) (s : DomainSnapshot)
      → parse_snapshot v mode ≡ ok s
      → parse_snapshot (snapshot_value s.projects s.tasks) mode ≡ ok s
  parse_snapshot-again v mode s h = IsParsed-again mode s (parse_snapshot-IsParsed v mode s h)
