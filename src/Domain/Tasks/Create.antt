-- ===== src/Domain/Tasks/Create.antt =====
-- What creating a Task does.
use agent_task_orchestrator.Base.{
  Text, ◌≡◌, refl, ap, sym, subst, ◌∙◌, true, false, Option, none, some, arith, same, eq→same,
  insert, sort, find-sort, List, [], ◌∷◌, ◌++◌, All,
}
use agent_task_orchestrator.Domain.States.{TaskState}
use agent_task_orchestrator.Domain.Errors.{
  ok, ◌>>=◌, >>=-eq-ok, DomainSuccess, DomainEventType, Place, event,
}
use agent_task_orchestrator.Domain.Records.{Task, DomainSnapshot, DomainMutation}
use agent_task_orchestrator.Domain.Value.{
  Value, Unicode, read_exact_record, identifier, any_text, nullable_identifier,
}
use agent_task_orchestrator.Domain.Encode.{task_value, snapshot_value}
use agent_task_orchestrator.Domain.Parse.{parse_task, is_text}
use agent_task_orchestrator.Domain.Parse.Accepted.{parse_task-again}
use agent_task_orchestrator.Domain.Parse.Inverse.{parse_task-value}
use agent_task_orchestrator.Domain.Graph.{task_of}
use agent_task_orchestrator.Domain.Snapshot.{
  SnapshotValidationMode, parse_snapshot, is_defined, project_of, task_id,
}
use agent_task_orchestrator.Domain.Snapshot.Accepted.{
  IsStableTask, parse_snapshot-IsParsed, parse_snapshot_of_stable, kept_projects, kept_tasks,
  check_snapshot_eq,
}
use agent_task_orchestrator.Domain.Snapshot.WellFormed.{IsSnapshot, parse_snapshot-IsSnapshot}
use agent_task_orchestrator.Domain.Mutation.{replace_in, replace_tasks, mutation}
use agent_task_orchestrator.Domain.Commands.{create_task_command}
use agent_task_orchestrator.Domain.Tasks.{create_task, new_task, is_missing}

replace_in-nil : (l : List Task) → replace_in [] l ≡ l
replace_in-nil [] = refl
replace_in-nil (t ∷ ts) = ground (arith, replace_in-nil ts)

task_of-append :
    (l : List Task) (t : Task) (id : Text)
    → same t.id id ≡ false
    → task_of (l ++ t ∷ []) id ≡ task_of l id
task_of-append [] t id n = ground arith
task_of-append (x ∷ xs) t id n = ground (arith, task_of-append xs t id)

task_of-append_new :
    (l : List Task) (t : Task) → task_of l t.id ≡ none → task_of (l ++ t ∷ []) t.id ≡ some t
task_of-append_new [] t n = rw (eq→same t.id t.id refl) refl
task_of-append_new (x ∷ xs) t n = ground (arith, task_of-append_new xs t)

All-append : (P : Task → Type 0) (l : List Task) (t : Task) → All P l → P t → All P (l ++ t ∷ [])
All-append P [] t h k = (k, tt)
All-append P (x ∷ xs) t h k = (h.0, All-append P xs t h.1 k)

-- The snapshot `s'` is `s` with one Task more.
pub record IsExtended (s s' : DomainSnapshot) (task : Task) : Type 0 where
  pub valid : IsSnapshot s'
  pub found : task_of s'.tasks task.id ≡ some task
  pub others_kept : (id : Text) → same task.id id ≡ false → task_of s'.tasks id ≡ task_of s.tasks id
  pub projects_kept : s'.projects ≡ s.projects

module _ ⦃u : Unicode⦄ (v : Value) (s : DomainSnapshot)
    (h : parse_snapshot v SnapshotValidationMode.complete ≡ ok s) where
  created_parts :
      (id project_id body : Text) (p : Option Text) (r : DomainSuccess DomainMutation)
      → create_task v (create_task_command id project_id body p) ≡ ok r
      → (task_of s.tasks id ≡ none)
        × (is_defined (project_of s.projects project_id) ≡ true)
        × (is_text p id ≡ false)
        × (is_missing s.tasks p ≡ false)
        × ((parse_task (task_value (new_task id project_id body p)) (Place.task_named id)
              >>= λ task. replace_tasks s [] (task ∷ []) >>= λ next.
                  mutation next
                    (task.id ∷ [])
                    (event DomainEventType.created task.id none 1 [] ∷ []))
            ≡ ok r)
  unfolding create_task read_exact_record identifier any_text nullable_identifier
  created_parts id project_id body none r k = ground arith
  created_parts id project_id body (some p) r k = ground arith

  -- What `replace_tasks` makes of one Task more.
  added_lookup :
      (task : Task) (s' : DomainSnapshot)
      → IsStableTask task
      → replace_tasks s [] (task ∷ []) ≡ ok s'
      → (s'.projects ≡ s.projects)
        × ((id : Text) → task_of s'.tasks id ≡ task_of (s.tasks ++ task ∷ []) id)
  unfolding replace_tasks
  added_lookup task s' stable k =
      let r = parse_snapshot-IsParsed v SnapshotValidationMode.complete s h in
      let (ps, sorted) = kept_projects SnapshotValidationMode.complete s r in
      let (ts, _) = kept_tasks SnapshotValidationMode.complete s r in
      let next : List Task = s.tasks ++ task ∷ [] in
      let k' : parse_snapshot (snapshot_value s.projects next) SnapshotValidationMode.complete
          ≡ ok s' =
        subst
          (λ l.
            parse_snapshot (snapshot_value s.projects (l ++ task ∷ []))
              SnapshotValidationMode.complete
            ≡ ok s')
          (replace_in-nil s.tasks) k in
      let e =
        parse_snapshot_of_stable SnapshotValidationMode.complete s.projects next ps
          (All-append IsStableTask s.tasks task ts stable) sorted r.unique_projects in
      let whole =
        check_snapshot_eq SnapshotValidationMode.complete s.projects (sort task_id next) s'
          (sym e ∙ k') in
      (
        ap (λ (x : DomainSnapshot). x.projects) whole,
        λ id. ap (λ (x : DomainSnapshot). task_of x.tasks id) whole ∙ find-sort task_id id next,
      )

  replace_tasks-IsExtended :
      (task : Task) (s' : DomainSnapshot)
      → IsStableTask task
      → task_of s.tasks task.id ≡ none
      → replace_tasks s [] (task ∷ []) ≡ ok s'
      → IsExtended s s' task
  unfolding replace_tasks
  replace_tasks-IsExtended task s' stable new k =
      let (same_projects, lookup) = added_lookup task s' stable k in
      record {
        valid =
            parse_snapshot-IsSnapshot
              (snapshot_value s.projects (replace_in [] s.tasks ++ task ∷ [])) s' k;
        found = lookup task.id ∙ task_of-append_new s.tasks task new;
        others_kept = λ id n. lookup id ∙ task_of-append s.tasks task id n;
        projects_kept = same_projects;
      }

  -- When a Task is created, its identifier was new, its Project is registered, the superseded Task is another one that is registered, or none, and the result is `s` with a Task of this identifier, Project, body and link, in state `idea` at revision 1, with no parent, dependency, waiting metadata, completion or cancellation: all other Tasks and the Projects are kept, the new snapshot is well formed, and one event announces it.
  pub create_task_effect :
      (id project_id body : Text) (p : Option Text) (r : DomainSuccess DomainMutation)
      → create_task v (create_task_command id project_id body p) ≡ ok r
      → (task_of s.tasks id ≡ none)
        × (is_defined (project_of s.projects project_id) ≡ true)
        × (is_text p id ≡ false)
        × (is_missing s.tasks p ≡ false)
        × IsExtended s r.value.snapshot (record {
          id = id;
          project_id = project_id;
          state = TaskState.idea;
          revision = 1;
          body = body;
          parent_id = none;
          dependency_ids = [];
          waiting = none;
          completion = none;
          cancellation = none;
          supersedes_task_id = p;
        })
        × (r.value.changed_task_ids ≡ id ∷ [])
        × (r.events ≡ event DomainEventType.created id none 1 [] ∷ [])
  unfolding sort insert
  create_task_effect id project_id body p r k =
      let (new, registered, other, there, tail) = created_parts id project_id body p r k in
      let made = new_task id project_id body p in
      let finish = λ (task : Task) (next : DomainSnapshot).
        mutation next (task.id ∷ []) (event DomainEventType.created task.id none 1 [] ∷ []) in
      let (task, e, k1) =
        >>=-eq-ok (parse_task (task_value made) (Place.task_named id))
          (λ task. replace_tasks s [] (task ∷ []) >>= finish task) tail in
      let same_task : task ≡ made = ground (arith, parse_task-value made (Place.task_named id)) in
      let stable : IsStableTask made = λ path.
        parse_task-again (task_value made) (Place.task_named id) made
          (subst (λ t. parse_task (task_value made) (Place.task_named id) ≡ ok t) same_task e)
          path in
      let k1' : (replace_tasks s [] (made ∷ []) >>= finish made) ≡ ok r =
        subst (λ t. (replace_tasks s [] (t ∷ []) >>= finish t) ≡ ok r) same_task k1 in
      let (next, e', k2) = >>=-eq-ok (replace_tasks s [] (made ∷ [])) (finish made) k1' in
      let out : next ≡ r.value.snapshot = cc in
      (
        new,
        registered,
        other,
        there,
        replace_tasks-IsExtended made r.value.snapshot stable new (rw out at e'),
        cc,
        cc,
      )
