-- ===== src/Domain/Snapshot.antt =====
-- src/domain.ts: the validation of a whole snapshot, and the lookups in one.
pub mod Accepted
pub mod WellFormed
use agent_task_orchestrator.Base.{
  Text, String, ℕ, zero, suc, ◌+◌, Bool, true, false, not, ◌&&◌, ◌||◌, List, [], ◌∷◌, Option, none,
  some, if◌then◌else◌, same, includes, is_unique, sort, find, map,
}
use agent_task_orchestrator.Domain.Errors.{
  Parsed, ok, err, ◌>>=◌, ◌>>◌, fail_if, DomainError, domain_error, DomainErrorCode, DetailValue,
  Place,
}
use agent_task_orchestrator.Domain.Records.{Project, Task, DomainSnapshot}
use agent_task_orchestrator.Domain.Value.{
  Value, get, read_exact_record, read_canonical_array, Unicode,
}
use agent_task_orchestrator.Domain.Parse.{parse_project, parse_task}
use agent_task_orchestrator.Domain.Graph.{task_of, parent_cycle, dependency_cycle}

-- `SnapshotValidationMode`, with the Task that a decision is about.
pub data SnapshotValidationMode : Type 0 where
  complete : SnapshotValidationMode
  decision : Text → SnapshotValidationMode

abbrev pub project_of : List Project → Text → Option Project
project_of projects id = find (λ p. same p.id id) projects

abbrev pub invalid_snapshot : List (String × DetailValue) → DomainError
invalid_snapshot details = domain_error DomainErrorCode.invalid_snapshot details

abbrev pub task_detail : Text → List (String × DetailValue)
task_detail id = ("taskId", DetailValue.text id) ∷ []

-- The loops over the raw collections.
unfoldable pub parse_projects : List Value → ℕ → Parsed (List Project)
parse_projects [] index = ok []
parse_projects (v ∷ vs) index = do
  p ← parse_project v (Place.projects_at index)
  ps ← parse_projects vs (index + 1)
  ok (p ∷ ps)

unfoldable pub parse_tasks : ⦃u : Unicode⦄ → List Value → ℕ → Parsed (List Task)
parse_tasks [] index = ok []
parse_tasks (v ∷ vs) index = do
  t ← parse_task v (Place.tasks_at index)
  ts ← parse_tasks vs (index + 1)
  ok (t ∷ ts)

abbrev pub is_defined : {A : Type 0} → Option A → Bool
is_defined none = false
is_defined (some a) = true

-- `mode === "complete" || task.id !== decisionTaskId`
abbrev pub is_strict : SnapshotValidationMode → Text → Bool
is_strict SnapshotValidationMode.complete id = true
is_strict (SnapshotValidationMode.decision d) id = not (same id d)

abbrev pub check_parent : List Task → Task → Option Text → Parsed (Unit {0})
check_parent tasks t none = ok tt
check_parent tasks t (some id) = elim (task_of tasks id) [
  | none ↦ err (invalid_snapshot (task_detail t.id))
  | some p ↦ fail_if (not (same p.project_id t.project_id)) (invalid_snapshot (task_detail t.id))
]

unfoldable pub check_dependencies : Bool → List Task → Text → List Text → Parsed (Unit {0})
check_dependencies strict tasks id [] = ok tt
check_dependencies strict tasks id (d ∷ ds) = do
  fail_if (not (is_defined (task_of tasks d)) && strict) (
      invalid_snapshot
        (("taskId", DetailValue.text id) ∷ ("dependencyId", DetailValue.text d) ∷ []))
  check_dependencies strict tasks id ds

abbrev pub check_supersession : List Task → Task → Option Text → Parsed (Unit {0})
check_supersession tasks t none = ok tt
check_supersession tasks t (some id) =
    fail_if (not (is_defined (task_of tasks id))) (invalid_snapshot (task_detail t.id))

-- The body of the loop over the tasks: what each refers to is registered.
unfoldable pub check_references :
    SnapshotValidationMode → List Project → List Task → Task → Parsed (Unit {0})
unfolding check_dependencies
check_references mode projects tasks t = do
  fail_if (not (is_defined (project_of projects t.project_id)) && is_strict mode t.id)
      (invalid_snapshot (task_detail t.id))
  check_parent tasks t t.parent_id
  check_dependencies (is_strict mode t.id) tasks t.id t.dependency_ids
  check_supersession tasks t t.supersedes_task_id

unfoldable pub check_all :
    SnapshotValidationMode → List Project → List Task → List Task → Parsed (Unit {0})
unfolding check_references
check_all mode projects tasks [] = ok tt
check_all mode projects tasks (t ∷ rest) = do
  check_references mode projects tasks t
  check_all mode projects tasks rest

abbrev pub fail_at : Option Text → Parsed (Unit {0})
fail_at none = ok tt
fail_at (some id) = err (invalid_snapshot (task_detail id))

abbrev pub project_id : Project → Text
project_id p = p.id

abbrev pub task_id : Task → Text
task_id t = t.id

-- What `parseSnapshot` checks of the parsed and sorted collections.
unfoldable pub check_snapshot :
    SnapshotValidationMode → List Project → List Task → Parsed DomainSnapshot
unfolding check_all parent_cycle dependency_cycle
check_snapshot mode projects tasks = do
  fail_if (not (is_unique (map task_id tasks))) (invalid_snapshot [])
  check_all mode projects tasks tasks
  fail_at (parent_cycle tasks)
  fail_at (dependency_cycle tasks)
  ok (record { projects = projects; tasks = tasks })

-- What `parseSnapshot` does with the two collections.
unfoldable pub snapshot_from :
    ⦃u : Unicode⦄ → Value → Value → SnapshotValidationMode → Parsed DomainSnapshot
snapshot_from v1 v2 mode = do
  project_values ← read_canonical_array v1 (invalid_snapshot [])
  task_values ← read_canonical_array v2 (invalid_snapshot [])
  unsorted_projects ← parse_projects project_values 0
  let projects = sort project_id unsorted_projects
  fail_if (not (is_unique (map project_id projects))) (invalid_snapshot [])
  unsorted_tasks ← parse_tasks task_values 0
  check_snapshot mode projects (sort task_id unsorted_tasks)

-- `parseSnapshot`
unfoldable pub parse_snapshot :
    ⦃u : Unicode⦄ → Value → SnapshotValidationMode → Parsed DomainSnapshot
unfolding read_exact_record
parse_snapshot v mode = do
  r ← read_exact_record v ("projects" ∷ "tasks" ∷ []) (invalid_snapshot [])
  snapshot_from (get r "projects") (get r "tasks") mode
