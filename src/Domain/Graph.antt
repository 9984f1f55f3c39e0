-- ===== src/Domain/Graph.antt =====
-- src/domain.ts: the searches over the parent hierarchy and the
-- dependency graph. `new Map(...)` over tasks and `find` are both `task_of`: the source builds the
-- map only from tasks whose identifiers are unique. Fuel stands for the loops; the modules below
-- prove that the fuel given here is enough.
pub mod Reach
pub mod Acyclic
pub mod Parents
pub mod Search
use agent_task_orchestrator.Base.{
  Text, ℕ, zero, suc, ◌+◌, Bool, true, false, not, List, [], ◌∷◌, ◌++◌, Option, none, some,
  if◌then◌else◌, same, includes, find, keep, length,
}
use agent_task_orchestrator.Domain.Records.{Task}

-- `byId.get(id)`, and `taskById`.
abbrev pub task_of : List Task → Text → Option Task
task_of tasks id = find (λ t. same t.id id) tasks

-- `byId.get(id)?.dependencyIds ?? []`
abbrev pub dependencies_of : Option Task → List Text
dependencies_of none = []
dependencies_of (some t) = t.dependency_ids

abbrev pub dependencies : List Task → Text → List Text
dependencies tasks id = dependencies_of (task_of tasks id)

-- `byId.get(id)?.parentId ?? null`
abbrev pub parent_of : Option Task → Option Text
parent_of none = none
parent_of (some t) = t.parent_id

abbrev pub parent : List Task → Text → Option Text
parent tasks id = parent_of (task_of tasks id)

-- The `while` loop of `parentCycle`: whether the chain of parents comes back to an identifier.
unfoldable pub climbs_back : ℕ → List Task → List Text → Option Text → Bool
climbs_back fuel tasks seen none = false
climbs_back zero tasks seen (some id) = true
climbs_back (suc fuel) tasks seen (some id) =
    let further = climbs_back fuel tasks (id ∷ seen) (parent tasks id) in
    if includes seen id then true else further

abbrev pub climb_from : List Task → List Task → Option Text
climb_from tasks [] = none
climb_from tasks (t ∷ rest) =
    if climbs_back (suc (length tasks)) tasks (t.id ∷ []) t.parent_id
    then some t.id
    else climb_from tasks rest

-- `parentCycle`
unfoldable pub parent_cycle : List Task → Option Text
unfolding climbs_back
parent_cycle tasks = climb_from tasks tasks

-- The two sets of `dependencyCycle`.
pub record Marks : Type 0 where
  pub visiting : List Text
  pub visited : List Text

pub data Walk : Type 0 where
  found : Text → Walk
  clear : Marks → Walk

-- The loop over dependencies, for any `visit`.
unfoldable pub visit_each : (Text → Marks → Walk) → List Text → Marks → Walk
visit_each visit [] m = Walk.clear m
visit_each visit (d ∷ ds) m = elim (visit d m) [
  | Walk.found c ↦ Walk.found c
  | Walk.clear m' ↦ visit_each visit ds m'
]

-- `visiting.delete(id); visited.add(id)`
abbrev pub leave : Text → Walk → Walk
leave id (Walk.found c) = Walk.found c
leave id (Walk.clear m) =
    Walk.clear
      (record { visiting = keep (λ v. not (same v id)) m.visiting; visited = id ∷ m.visited })

-- `visit`
unfoldable pub visit : ℕ → List Task → Text → Marks → Walk
unfolding visit_each
visit zero tasks id m = Walk.found id
visit (suc fuel) tasks id m =
    let inner = leave id (
      visit_each (visit fuel tasks) (dependencies tasks id)
        (record { visiting = id ∷ m.visiting; visited = m.visited })) in
    if includes m.visiting id
    then Walk.found id
    else if includes m.visited id
    then Walk.clear m
    else inner

abbrev pub found_id : Walk → Option Text
found_id (Walk.found c) = some c
found_id (Walk.clear m) = none

abbrev pub ids : List Task → List Text
ids [] = []
ids (t ∷ ts) = t.id ∷ ids ts

-- `dependencyCycle`
unfoldable pub dependency_cycle : List Task → Option Text
unfolding visit
dependency_cycle tasks = found_id (
    visit_each (visit (suc (suc (length tasks))) tasks) (ids tasks)
      (record { visiting = []; visited = [] }))

-- The `while` loop of `dependencyReaches`. The end of the array `pending` is the head of the list
-- here, and the identifiers of one task are pushed so that the last is popped first.
abbrev pub push_all : List Text → List Text → List Text
push_all [] pending = pending
push_all (d ∷ ds) pending = push_all ds (d ∷ pending)

unfoldable pub reaches_from : ℕ → List Task → Text → List Text → List Text → Bool
reaches_from fuel tasks target seen [] = false
reaches_from zero tasks target seen (current ∷ pending) = false
reaches_from (suc fuel) tasks target seen (current ∷ pending) =
    let skip = reaches_from fuel tasks target seen pending in
    let expand =
      reaches_from fuel tasks target (current ∷ seen)
        (push_all (dependencies tasks current) pending) in
    if same current target then true else if includes seen current then skip else expand

-- The number of edges: each is pushed once.
abbrev pub edges : List Task → ℕ
edges [] = 0
edges (t ∷ ts) = length t.dependency_ids + edges ts

-- `dependencyReaches`
unfoldable pub dependency_reaches : List Task → Text → Text → Bool
unfolding reaches_from
dependency_reaches tasks start target =
    reaches_from (suc (edges tasks)) tasks target [] (start ∷ [])
