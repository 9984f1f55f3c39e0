-- ===== src/Domain/Parse/Accepted.antt =====
-- What is known of an accepted Task, and of its value.
use agent_task_orchestrator.Base.{
  Text, ℕ, ℤ, ◌+◌, ◌≤◌, ◌<◌, ◌≡◌, refl, ◌≢◌, Bool, true, false, List, [], ◌∷◌, Option, none, some,
  sort, arith, is_empty, All, All-sort, sort-sort, includes, is_unique, IsOrdered, sort-IsOrdered,
}
use agent_task_orchestrator.Domain.States.{TaskState}
use agent_task_orchestrator.Domain.Errors.{ok, DomainError, Place}
use agent_task_orchestrator.Domain.Records.{
  Project, WaitingMetadataInput, WaitingMetadata, CompletionFact, CancellationFact, Task,
}
use agent_task_orchestrator.Domain.Value.{
  Value, values, Unicode, read_canonical_array, task_state, any_text, Fields, end, get,
  max_safe_integer, identifier, nullable_text, truth, nonnegative_integer, nullable_safe_integer,
  nullable_identifier, positive_integer,
}
use agent_task_orchestrator.Domain.Encode.{
  text_items, project_value, waiting_input_value, waiting_value, completion_value,
  cancellation_value, task_value, nullable_waiting_value, nullable_completion_value,
  nullable_cancellation_value, nullable_text_value, nullable_integer_value, natural,
  waiting_input_fields,
}
use agent_task_orchestrator.Domain.Parse.{
  invalid_input_at, invalid_snapshot_at, parse_project, waiting_input_of, waiting_input_from,
  parse_waiting_input, parse_waiting, parse_completion, parse_cancellation, parse_task, task_from,
  is_text, identifiers, optional_waiting, optional_completion, optional_cancellation, are_coherent,
  pick, waiting_input_keys,
}
use agent_task_orchestrator.Domain.Parse.Inverse.{
  waiting_reason-name, task_state-name, cancellation_event-name,
}

pub parse_project-again :
    (v : Value) (path path' : Place) {p : Project}
    → parse_project v path ≡ ok p
    → parse_project (project_value p) path' ≡ ok p
unfolding parse_project
parse_project-again v path path' h = ground arith

identifier-again :
    (v : Value) (e e' : DomainError) (t : Text)
    → identifier v e ≡ ok t
    → identifier (Value.string t) e' ≡ ok t
unfolding identifier
identifier-again v e e' t h = ground arith

nullable_text-again :
    (v : Value) (e e' : DomainError) (t : Option Text)
    → nullable_text v e ≡ ok t
    → nullable_text (nullable_text_value t) e' ≡ ok t
unfolding nullable_text
nullable_text-again v e e' t h = ground arith

nullable_identifier-again :
    (v : Value) (e e' : DomainError) (t : Option Text)
    → nullable_identifier v e ≡ ok t
    → nullable_identifier (nullable_text_value t) e' ≡ ok t
unfolding nullable_identifier
nullable_identifier-again v e e' t h = ground arith

nonnegative_integer-again :
    (v : Value) (e e' : DomainError) (n : ℕ)
    → nonnegative_integer v e ≡ ok n
    → nonnegative_integer (natural n) e' ≡ ok n
unfolding nonnegative_integer
nonnegative_integer-again v e e' n h = ground arith

positive_integer-again :
    (v : Value) (e e' : DomainError) (n : ℕ)
    → positive_integer v e ≡ ok n
    → positive_integer (natural n) e' ≡ ok n
unfolding positive_integer
positive_integer-again v e e' n h = ground arith

nullable_safe_integer-again :
    (v : Value) (e e' : DomainError) (z : Option ℤ)
    → nullable_safe_integer v e ≡ ok z
    → nullable_safe_integer (nullable_integer_value z) e' ≡ ok z
unfolding nullable_safe_integer
nullable_safe_integer-again v e e' z h = ground arith

truth-again :
    (v : Value) (e e' : DomainError) (b : Bool)
    → truth v e ≡ ok b
    → truth (Value.boolean b) e' ≡ ok b
unfolding truth
truth-again v e e' b h = refl

waiting_input_from-again :
    (v1 v2 v3 v4 v5 v6 v7 v8 v9 v10 v11 : Value) (rest : Fields) (e e' : DomainError)
    (w : WaitingMetadataInput)
    → waiting_input_from v1 v2 v3 v4 v5 v6 v7 v8 v9 v10 v11 e ≡ ok w
    → waiting_input_of (waiting_input_fields w rest) e' ≡ ok w
unfolding waiting_input_from
waiting_input_from-again v1 v2 v3 v4 v5 v6 v7 v8 v9 v10 v11 rest e e' w h = ground (
  arith,
  waiting_reason-name w.reason e',
  identifier-again v2 e e' w.phase,
  identifier-again v3 e e' w.required_action,
  identifier-again v4 e e' w.last_error_code,
  nullable_text-again v5 e e' w.last_error_summary,
  truth-again v6 e e' w.retryable,
  nonnegative_integer-again v7 e e' w.retry_count,
  nullable_safe_integer-again v8 e e' w.retry_after,
  nullable_identifier-again v9 e e' w.execution_id,
  nullable_identifier-again v10 e e' w.workspace_revision,
  nullable_identifier-again v11 e e' w.backend_thread_id,
)

parse_waiting_input-again :
    (v : Value) (path path' : Place) (w : WaitingMetadataInput)
    → parse_waiting_input v path ≡ ok w
    → parse_waiting_input (waiting_input_value w) path' ≡ ok w
unfolding parse_waiting_input
parse_waiting_input-again (Value.object r) path path' w h = ground (
  arith,
  waiting_input_from-again (get r "reason") (get r "phase") (get r "requiredAction")
      (get r "lastErrorCode") (get r "lastErrorSummary") (get r "retryable") (get r "retryCount")
      (get r "retryAfter") (get r "executionId") (get r "workspaceRevision")
      (get r "backendThreadId") end (invalid_input_at path) (invalid_input_at path') w,
)
parse_waiting_input-again _ path path' w h = absurd (cc)

parse_waiting-again :
    (v : Value) (path path' : Place) (w : WaitingMetadata)
    → parse_waiting v path ≡ ok w
    → parse_waiting (waiting_value w) path' ≡ ok w
unfolding parse_waiting
parse_waiting-again (Value.object r) path path' w h = ground (
  arith,
  parse_waiting_input-again (Value.object (pick waiting_input_keys r)) path path' w.input,
  positive_integer-again (get r "waitingTaskRevision") (invalid_snapshot_at path)
      (invalid_snapshot_at path') w.waiting_task_revision,
)
parse_waiting-again _ path path' w h = absurd (cc)

parse_completion-again :
    (v : Value) (path path' : Place) (c : CompletionFact)
    → parse_completion v path ≡ ok c
    → parse_completion (completion_value c) path' ≡ ok c
unfolding parse_completion
parse_completion-again v path path' c h = ground arith

optional_completion-again :
    (v : Value) (path path' : Place) (c : Option CompletionFact)
    → optional_completion v path ≡ ok c
    → optional_completion (nullable_completion_value c) path' ≡ ok c
unfolding optional_completion
optional_completion-again v path path' none h = refl
optional_completion-again v path path' (some c) h =
    ground (arith, parse_completion-again v path path' c)

optional_waiting-again :
    (v : Value) (path path' : Place) (w : Option WaitingMetadata)
    → optional_waiting v path ≡ ok w
    → optional_waiting (nullable_waiting_value w) path' ≡ ok w
unfolding optional_waiting
optional_waiting-again v path path' none h = refl
optional_waiting-again v path path' (some w) h = ground (arith, parse_waiting-again v path path' w)

abbrev HasIds : List Text → Type 0
HasIds ids = All (λ t. is_empty t ≡ false) ids

identifiers-HasIds :
    (vs : List Value) (e : DomainError) (ids : List Text) → identifiers vs e ≡ ok ids → HasIds ids
unfolding identifiers
identifiers-HasIds [] e ids h = ground arith
identifiers-HasIds (v ∷ vs) e [] h = tt
identifiers-HasIds (v ∷ vs) e (t ∷ ts) h = ground (arith, identifiers-HasIds vs e ts)

identifiers-items_ok :
    (ids : List Text) (e : DomainError)
    → HasIds ids
    → identifiers (values (text_items ids)) e ≡ ok ids
unfolding identifiers
identifiers-items_ok [] e h = refl
identifiers-items_ok (t ∷ ts) e h = ground (arith, identifiers-items_ok ts e h.1)

module _ ⦃u : Unicode⦄ where
  parse_cancellation-again :
      (v : Value) (path path' : Place) (c : CancellationFact)
      → parse_cancellation v path ≡ ok c
      → parse_cancellation (cancellation_value c) path' ≡ ok c
  unfolding parse_cancellation
  parse_cancellation-again v path path' c h =
      ground (arith, cancellation_event-name c.trigger (invalid_snapshot_at path'))

  optional_cancellation-again :
      (v : Value) (path path' : Place) (c : Option CancellationFact)
      → optional_cancellation v path ≡ ok c
      → optional_cancellation (nullable_cancellation_value c) path' ≡ ok c
  unfolding optional_cancellation
  optional_cancellation-again v path path' none h = refl
  optional_cancellation-again v path path' (some c) h =
      ground (arith, parse_cancellation-again v path path' c)

any_text-again :
    (v : Value) (e e' : DomainError) (t : Text)
    → any_text v e ≡ ok t
    → any_text (Value.string t) e' ≡ ok t
unfolding any_text
any_text-again v e e' t h = refl

read_text_items :
    (ids : List Text) (e : DomainError)
    → read_canonical_array (Value.array (text_items ids)) e ≡ ok (values (text_items ids))
unfolding read_canonical_array
read_text_items ids e = refl

-- The dependencies of an accepted Task are accepted again, and are in order.
sorted-again :
    (vs : List Value) (e e' : DomainError) (ids : List Text)
    → identifiers vs e ≡ ok ids
    → let sorted = sort (λ d. d) ids in
      (identifiers (values (text_items sorted)) e' ≡ ok sorted) × (sort (λ d. d) sorted ≡ sorted)
sorted-again vs e e' ids h = (
  identifiers-items_ok (sort (λ d. d) ids) e'
      (All-sort (λ d. d) (λ t. is_empty t ≡ false) ids (identifiers-HasIds vs e ids h)),
  sort-sort (λ d. d) ids,
)

-- The facts that a Task carries are those of its state, and name its revision.
pub record HasFacts (t : Task) : Type 0 where
  pub waiting_now :
      t.state ≡ TaskState.waiting
      → (w : WaitingMetadata) × (t.waiting ≡ some w) × (w.waiting_task_revision ≡ t.revision)
  pub completed_now :
      t.state ≡ TaskState.completed
      → (c : CompletionFact) × (t.completion ≡ some c) × (c.accepted_task_revision + 1 ≡ t.revision)
  pub cancelled_now :
      t.state ≡ TaskState.cancelled
      → (c : CancellationFact) × (t.cancellation ≡ some c)
        × (c.accepted_task_revision + 1 ≡ t.revision)
  pub not_waiting : t.state ≢ TaskState.waiting → t.waiting ≡ none
  pub not_completed : t.state ≢ TaskState.completed → t.completion ≡ none
  pub not_cancelled : t.state ≢ TaskState.cancelled → t.cancellation ≡ none

pub record IsTask (t : Task) : Type 0 where
  pub revision_positive : 0 < t.revision
  pub revision_safe : t.revision ≤ max_safe_integer
  pub ordered : IsOrdered (λ d. d) t.dependency_ids
  pub unique : is_unique t.dependency_ids ≡ true
  pub no_self_dependency : includes t.dependency_ids t.id ≡ false
  pub no_self_parent : is_text t.parent_id t.id ≡ false
  pub no_self_supersession : is_text t.supersedes_task_id t.id ≡ false
  pub facts : HasFacts t

HasFacts-are_coherent :
    (t : Task)
    → are_coherent t.state t.revision t.waiting t.completion t.cancellation ≡ true
    → HasFacts t
unfolding are_coherent
HasFacts-are_coherent t h = ground arith

positive_integer_bounds :
    (v : Value) (e : DomainError) (n : ℕ)
    → positive_integer v e ≡ ok n
    → (0 < n) × (n ≤ max_safe_integer)
unfolding positive_integer
positive_integer_bounds v e n h = ground arith

module _ ⦃u : Unicode⦄ (v1 v2 v3 v4 v5 v6 v7 v8 v9 v10 v11 : Value) (path : Place) (e : DomainError)
    (t : Task) where
  -- What each field gave, when the whole was accepted.
  record IsRead : Type 0 where
    dependency_values : List Value
    unsorted : List Text
    id_read : identifier v1 e ≡ ok t.id
    project_read : identifier v2 e ≡ ok t.project_id
    state_read : task_state v3 e ≡ ok t.state
    revision_read : positive_integer v4 e ≡ ok t.revision
    body_read : any_text v5 e ≡ ok t.body
    parent_read : nullable_identifier v6 e ≡ ok t.parent_id
    values_read : read_canonical_array v7 e ≡ ok dependency_values
    ids_read : identifiers dependency_values e ≡ ok unsorted
    ids_sorted : t.dependency_ids ≡ sort (λ d. d) unsorted
    waiting_read : optional_waiting v8 (Place.waiting_of path) ≡ ok t.waiting
    completion_read : optional_completion v9 (Place.completion_of path) ≡ ok t.completion
    cancellation_read : optional_cancellation v10 (Place.cancellation_of path) ≡ ok t.cancellation
    supersedes_read : nullable_identifier v11 e ≡ ok t.supersedes_task_id
    unique_ids : is_unique t.dependency_ids ≡ true
    other_parent : is_text t.parent_id t.id ≡ false
    other_dependencies : includes t.dependency_ids t.id ≡ false
    other_superseded : is_text t.supersedes_task_id t.id ≡ false
    coherent : are_coherent t.state t.revision t.waiting t.completion t.cancellation ≡ true

  values_of_task_from :
      task_from v1 v2 v3 v4 v5 v6 v7 v8 v9 v10 v11 path e ≡ ok t
      → (values : List Value) × (ids : List Text) × (read_canonical_array v7 e ≡ ok values)
        × (identifiers values e ≡ ok ids)
  unfolding task_from
  values_of_task_from h = ground arith

  task_from-IsRead : task_from v1 v2 v3 v4 v5 v6 v7 v8 v9 v10 v11 path e ≡ ok t → IsRead
  unfolding task_from
  task_from-IsRead h =
      let (values, ids, values_read, ids_read) = values_of_task_from h in
      record {
        dependency_values = values;
        unsorted = ids;
        values_read = values_read;
        ids_read = ids_read;
        id_read = ground arith;
        project_read = ground arith;
        state_read = ground arith;
        revision_read = ground arith;
        body_read = ground arith;
        parent_read = ground arith;
        ids_sorted = ground arith;
        waiting_read = ground arith;
        completion_read = ground arith;
        cancellation_read = ground arith;
        supersedes_read = ground arith;
        unique_ids = ground arith;
        other_parent = ground arith;
        other_dependencies = ground arith;
        other_superseded = ground arith;
        coherent = ground arith;
      }

  IsRead-IsTask : IsRead → IsTask t
  IsRead-IsTask r = record {
    revision_positive = (positive_integer_bounds v4 e t.revision r.revision_read).0;
    revision_safe = (positive_integer_bounds v4 e t.revision r.revision_read).1;
    ordered = rw r.ids_sorted (sort-IsOrdered (λ d. d) r.unsorted);
    unique = r.unique_ids;
    no_self_dependency = r.other_dependencies;
    no_self_parent = r.other_parent;
    no_self_supersession = r.other_superseded;
    facts = HasFacts-are_coherent t r.coherent;
  }

  IsRead-again : IsRead → (path' : Place) → parse_task (task_value t) path' ≡ ok t
  unfolding parse_task task_from
  IsRead-again r path' =
      let e' = invalid_snapshot_at path' in
      let (ids, same_order) = sorted-again r.dependency_values e e' r.unsorted r.ids_read in
      ground (
        arith,
        identifier-again v1 e e' t.id,
        identifier-again v2 e e' t.project_id,
        task_state-name t.state e',
        positive_integer-again v4 e e' t.revision,
        any_text-again v5 e e' t.body,
        nullable_identifier-again v6 e e' t.parent_id,
        read_text_items t.dependency_ids e',
        ids,
        same_order,
        optional_waiting-again v8 (Place.waiting_of path) (Place.waiting_of path') t.waiting,
        optional_completion-again v9 (Place.completion_of path) (Place.completion_of path')
            t.completion,
        optional_cancellation-again v10 (Place.cancellation_of path) (Place.cancellation_of path')
            t.cancellation,
        nullable_identifier-again v11 e e' t.supersedes_task_id,
      )

module _ ⦃u : Unicode⦄ where
  -- An accepted Task satisfies `IsTask`: its revision is a positive safe integer, its dependencies
  -- are strictly in order and do not name it, and its facts are those of its state and revision.
  pub parse_task-IsTask :
      (v : Value) (path : Place) (t : Task) → parse_task v path ≡ ok t → IsTask t
  unfolding parse_task
  parse_task-IsTask (Value.object r) path t h =
      IsRead-IsTask (get r "id") (get r "projectId") (get r "state") (get r "revision")
        (get r "body") (get r "parentId") (get r "dependencyIds") (get r "waiting")
        (get r "completion") (get r "cancellation") (get r "supersedesTaskId") path
        (invalid_snapshot_at path) t
        (task_from-IsRead _ _ _ _ _ _ _ _ _ _ _ path (invalid_snapshot_at path) t (ground arith))
  parse_task-IsTask _ path t h = absurd (cc)

  -- The parser accepts the value of an accepted Task and returns the same Task.
  pub parse_task-again :
      (v : Value) (path : Place) (t : Task)
      → parse_task v path ≡ ok t
      → (path' : Place) → parse_task (task_value t) path' ≡ ok t
  unfolding parse_task
  parse_task-again (Value.object r) path t h path' =
      IsRead-again (get r "id") (get r "projectId") (get r "state") (get r "revision")
        (get r "body") (get r "parentId") (get r "dependencyIds") (get r "waiting")
        (get r "completion") (get r "cancellation") (get r "supersedesTaskId") path
        (invalid_snapshot_at path) t
        (task_from-IsRead _ _ _ _ _ _ _ _ _ _ _ path (invalid_snapshot_at path) t (ground arith))
        path'
  parse_task-again _ path t h path' = absurd (cc)
