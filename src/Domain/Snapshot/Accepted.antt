-- ===== src/Domain/Snapshot/Accepted.antt =====
-- What is known of an accepted snapshot, and of its value.
use agent_task_orchestrator.Base.{
  ℕ, ◌+◌, ◌≡◌, refl, ap, ◌∙◌, true, List, [], ◌∷◌, sort, arith, sym, subst, All, All-sort,
  sort-sort, is_unique, map,
}
use agent_task_orchestrator.Domain.Errors.{ok, Place}
use agent_task_orchestrator.Domain.Records.{Project, Task, DomainSnapshot}
use agent_task_orchestrator.Domain.Value.{Value, values, get, Unicode, read_canonical_array}
use agent_task_orchestrator.Domain.Encode.{
  project_value, task_value, project_items, task_items, snapshot_value,
}
use agent_task_orchestrator.Domain.Parse.{parse_project, parse_task}
use agent_task_orchestrator.Domain.Parse.Accepted.{
  IsTask, parse_project-again, parse_task-again, parse_task-IsTask,
}
use agent_task_orchestrator.Domain.Snapshot.{
  SnapshotValidationMode, invalid_snapshot, parse_projects, parse_tasks, check_snapshot, project_id,
  task_id, snapshot_from, parse_snapshot,
}

abbrev pub IsStableProject : Project → Type 0
IsStableProject p = (path : Place) → parse_project (project_value p) path ≡ ok p

parse_projects-IsStable :
    (vs : List Value) (n : ℕ) (ps : List Project)
    → parse_projects vs n ≡ ok ps
    → All IsStableProject ps
unfolding parse_projects
parse_projects-IsStable [] n [] h = tt
parse_projects-IsStable [] n (p ∷ ps) h = absurd (cc)
parse_projects-IsStable (v ∷ vs) n [] h = tt
parse_projects-IsStable (v ∷ vs) n (p ∷ ps) h = (
  λ path. parse_project-again v (Place.projects_at n) path (ground arith),
  parse_projects-IsStable vs (n + 1) ps (ground arith),
)

parse_projects-items :
    (ps : List Project) (n : ℕ)
    → All IsStableProject ps
    → parse_projects (values (project_items ps)) n ≡ ok ps
unfolding parse_projects
parse_projects-items [] n h = refl
parse_projects-items (p ∷ ps) n h =
    ground (arith, h.0 (Place.projects_at n), parse_projects-items ps (n + 1) h.1)

module _ ⦃u : Unicode⦄ where
  abbrev pub IsStableTask : Task → Type 0
  IsStableTask t = (path : Place) → parse_task (task_value t) path ≡ ok t

  parse_tasks-IsStable :
      (vs : List Value) (n : ℕ) (ts : List Task) → parse_tasks vs n ≡ ok ts → All IsStableTask ts
  unfolding parse_tasks
  parse_tasks-IsStable [] n [] h = tt
  parse_tasks-IsStable [] n (p ∷ ps) h = absurd (cc)
  parse_tasks-IsStable (v ∷ vs) n [] h = tt
  parse_tasks-IsStable (v ∷ vs) n (t ∷ ts) h = (
    parse_task-again v (Place.tasks_at n) t (ground arith),
    parse_tasks-IsStable vs (n + 1) ts (ground arith),
  )

  parse_tasks-IsTask :
      (vs : List Value) (n : ℕ) (ts : List Task) → parse_tasks vs n ≡ ok ts → All IsTask ts
  unfolding parse_tasks
  parse_tasks-IsTask [] n [] h = tt
  parse_tasks-IsTask [] n (p ∷ ps) h = absurd (cc)
  parse_tasks-IsTask (v ∷ vs) n [] h = tt
  parse_tasks-IsTask (v ∷ vs) n (t ∷ ts) h = (
    parse_task-IsTask v (Place.tasks_at n) t (ground arith),
    parse_tasks-IsTask vs (n + 1) ts (ground arith),
  )

  parse_tasks-items :
      (ts : List Task) (n : ℕ)
      → All IsStableTask ts
      → parse_tasks (values (task_items ts)) n ≡ ok ts
  unfolding parse_tasks
  parse_tasks-items [] n h = refl
  parse_tasks-items (t ∷ ts) n h =
      ground (arith, h.0 (Place.tasks_at n), parse_tasks-items ts (n + 1) h.1)

  -- How an accepted snapshot came about.
  pub record IsParsed (mode : SnapshotValidationMode) (s : DomainSnapshot) : Type 0 where
    pub raw_projects : List Project
    pub raw_tasks : List Task
    pub stable_projects : All IsStableProject raw_projects
    pub stable_tasks : All IsStableTask raw_tasks
    pub sound_tasks : All IsTask raw_tasks
    pub sorted_projects : s.projects ≡ sort project_id raw_projects
    pub sorted_tasks : s.tasks ≡ sort task_id raw_tasks
    pub unique_projects : is_unique (map project_id s.projects) ≡ true
    pub checked : check_snapshot mode s.projects s.tasks ≡ ok s

  pub check_snapshot_eq :
      (mode : SnapshotValidationMode) (projects : List Project) (tasks : List Task)
      (s : DomainSnapshot)
      → check_snapshot mode projects tasks ≡ ok s
      → s ≡ record { projects = projects; tasks = tasks }
  unfolding check_snapshot
  check_snapshot_eq mode projects tasks s h = ground arith

  values_of_snapshot_from :
      (v1 v2 : Value) (mode : SnapshotValidationMode) (s : DomainSnapshot)
      → snapshot_from v1 v2 mode ≡ ok s
      → (ps : List Value) × (ts : List Value) × (read_canonical_array v1 (invalid_snapshot [])
          ≡ ok ps)
        × (read_canonical_array v2 (invalid_snapshot []) ≡ ok ts)
  unfolding snapshot_from
  values_of_snapshot_from v1 v2 mode s h = ground arith

  lists_of_snapshot_from :
      (v1 v2 : Value) (mode : SnapshotValidationMode) (s : DomainSnapshot) (ps ts : List Value)
      → snapshot_from v1 v2 mode ≡ ok s
      → read_canonical_array v1 (invalid_snapshot []) ≡ ok ps
      → read_canonical_array v2 (invalid_snapshot []) ≡ ok ts
      → (projects : List Project) × (tasks : List Task) × (parse_projects ps 0 ≡ ok projects)
        × (parse_tasks ts 0 ≡ ok tasks)
  unfolding snapshot_from
  lists_of_snapshot_from v1 v2 mode s ps ts h read_ps read_ts = ground arith

  checks_of_snapshot_from :
      (v1 v2 : Value) (mode : SnapshotValidationMode) (s : DomainSnapshot) (ps ts : List Value)
      (projects : List Project) (tasks : List Task)
      → snapshot_from v1 v2 mode ≡ ok s
      → read_canonical_array v1 (invalid_snapshot []) ≡ ok ps
      → read_canonical_array v2 (invalid_snapshot []) ≡ ok ts
      → parse_projects ps 0 ≡ ok projects
      → parse_tasks ts 0 ≡ ok tasks
      → (is_unique (map project_id (sort project_id projects)) ≡ true)
        × (check_snapshot mode (sort project_id projects) (sort task_id tasks) ≡ ok s)
  unfolding snapshot_from
  checks_of_snapshot_from v1 v2 mode s ps ts projects tasks h a b c d = ground arith

  snapshot_from-IsParsed :
      (v1 v2 : Value) (mode : SnapshotValidationMode) (s : DomainSnapshot)
      → snapshot_from v1 v2 mode ≡ ok s
      → IsParsed mode s
  snapshot_from-IsParsed v1 v2 mode s h =
      let (ps, ts, a, b) = values_of_snapshot_from v1 v2 mode s h in
      let (projects, tasks, read_ps, read_ts) = lists_of_snapshot_from v1 v2 mode s ps ts h a b in
      let (unique, checked) =
        checks_of_snapshot_from v1 v2 mode s ps ts projects tasks h a b read_ps read_ts in
      let e = check_snapshot_eq mode (sort project_id projects) (sort task_id tasks) s checked in
      record {
        raw_projects = projects;
        raw_tasks = tasks;
        stable_projects = parse_projects-IsStable ps 0 projects read_ps;
        stable_tasks = parse_tasks-IsStable ts 0 tasks read_ts;
        sound_tasks = parse_tasks-IsTask ts 0 tasks read_ts;
        sorted_projects = ap (λ (x : DomainSnapshot). x.projects) e;
        sorted_tasks = ap (λ (x : DomainSnapshot). x.tasks) e;
        unique_projects = cc;
        checked = cc;
      }

  pub parse_snapshot-IsParsed :
      (v : Value) (mode : SnapshotValidationMode) (s : DomainSnapshot)
      → parse_snapshot v mode ≡ ok s
      → IsParsed mode s
  unfolding parse_snapshot
  parse_snapshot-IsParsed (Value.object r) mode s h =
      snapshot_from-IsParsed (get r "projects") (get r "tasks") mode s (ground arith)
  parse_snapshot-IsParsed _ mode s h = absurd (cc)

  -- What the parser makes of a list of Tasks that it accepts one by one.
  pub parse_snapshot_of_stable :
      (mode : SnapshotValidationMode) (projects : List Project) (tasks : List Task)
      → All IsStableProject projects
      → All IsStableTask tasks
      → sort project_id projects ≡ projects
      → is_unique (map project_id projects) ≡ true
      → parse_snapshot (snapshot_value projects tasks) mode
        ≡ check_snapshot mode projects (sort task_id tasks)
  unfolding parse_snapshot snapshot_value snapshot_from read_canonical_array
  parse_snapshot_of_stable mode projects tasks p t sorted unique =
      rw (parse_projects-items projects 0 p)
        (rw (sorted, unique) (rw (parse_tasks-items tasks 0 t) refl))

  pub kept_projects :
      (mode : SnapshotValidationMode) (s : DomainSnapshot)
      → IsParsed mode s
      → All IsStableProject s.projects × (sort project_id s.projects ≡ s.projects)
  kept_projects mode s r = (
    subst (All IsStableProject) (sym r.sorted_projects)
        (All-sort project_id IsStableProject r.raw_projects r.stable_projects),
    rw r.sorted_projects (sort-sort project_id r.raw_projects),
  )

  pub kept_tasks :
      (mode : SnapshotValidationMode) (s : DomainSnapshot)
      → IsParsed mode s
      → All IsStableTask s.tasks × (sort task_id s.tasks ≡ s.tasks)
  kept_tasks mode s r = (
    subst (All IsStableTask) (sym r.sorted_tasks)
        (All-sort task_id IsStableTask r.raw_tasks r.stable_tasks),
    rw r.sorted_tasks (sort-sort task_id r.raw_tasks),
  )

  pub IsParsed-again :
      (mode : SnapshotValidationMode) (s : DomainSnapshot)
      → IsParsed mode s
      → parse_snapshot (snapshot_value s.projects s.tasks) mode ≡ ok s
  IsParsed-again mode s r =
      let (p, ps) = kept_projects mode s r in
      let (t, ts) = kept_tasks mode s r in
      parse_snapshot_of_stable mode s.projects s.tasks p t ps r.unique_projects
      ∙ (ap (check_snapshot mode s.projects) ts ∙ r.checked)
