-- ===== src/Domain/Mutation/Effect.antt =====
-- What `commit` does to the snapshot and to the Task named.
use mathlib.Core.List.{append-nil}
use agent_task_orchestrator.Base.{
  Text, ◌+◌, ◌≡◌, ◌≢◌, refl, ap, ◌∙◌, sym, subst, inl, inr, true, false, List, [], ◌∷◌, ◌++◌, none,
  some, sort, insert, arith, All, find-sort, same, same→eq, eq→same, if◌then◌else◌, Bool-cases,
}
use agent_task_orchestrator.Domain.States.{TaskState, same_state}
use agent_task_orchestrator.Domain.Errors.{ok, ◌>>=◌, >>=-eq-ok, DomainEvent, DomainSuccess, Place}
use agent_task_orchestrator.Domain.Records.{Task, WaitingMetadata, DomainSnapshot, DomainMutation}
use agent_task_orchestrator.Domain.Value.{Value, Unicode}
use agent_task_orchestrator.Domain.Encode.{snapshot_value, task_value}
use agent_task_orchestrator.Domain.Parse.Inverse.{in_order, parse_task-value}
use agent_task_orchestrator.Domain.Parse.Accepted.{parse_task-again}
use agent_task_orchestrator.Domain.Graph.{task_of}
use agent_task_orchestrator.Domain.Snapshot.{
  SnapshotValidationMode, parse_snapshot, is_defined, task_id,
}
use agent_task_orchestrator.Domain.Snapshot.Accepted.{
  IsStableTask, parse_snapshot-IsParsed, parse_snapshot_of_stable, kept_projects, kept_tasks,
  check_snapshot_eq,
}
use agent_task_orchestrator.Domain.Snapshot.WellFormed.{IsSnapshot, parse_snapshot-IsSnapshot}
use agent_task_orchestrator.Domain.Mutation.{
  candidate, renumbered, next_task, replace_in, replace_tasks, commit, mutation,
}

-- The first Task with an identifier has it.
pub id_of_task_of : (l : List Task) (id : Text) (t : Task) → task_of l id ≡ some t → t.id ≡ id
id_of_task_of [] id t h = absurd (cc)
id_of_task_of (x ∷ xs) id t h = ground (arith, same→eq x.id id, id_of_task_of xs id t)

-- The lookup after one replacement.
task_of-replace_in :
    (c : Task) (l : List Task) (id : Text)
    → task_of (replace_in (c ∷ []) l) id ≡ (
        if same c.id id then (if is_defined (task_of l id) then some c else none) else task_of l id)
task_of-replace_in c [] id = ground arith
task_of-replace_in c (t ∷ ts) id = elim (Bool-cases (same c.id t.id)) [
  | inl e ↦
      let at_id : same t.id id ≡ same c.id id = rw (same→eq c.id t.id e) refl in
      rw e (ground (arith, at_id, task_of-replace_in c ts id))
  | inr n ↦ rw n (
      ground
        (arith, task_of-replace_in c ts id, same→eq t.id id, same→eq c.id id, eq→same c.id t.id))
]

is_waiting-eq : (a : TaskState) → same_state a TaskState.waiting ≡ true → a ≡ TaskState.waiting
is_waiting-eq TaskState.waiting h = refl
is_waiting-eq TaskState.idea h = absurd (cc)
is_waiting-eq TaskState.ready h = absurd (cc)
is_waiting-eq TaskState.running h = absurd (cc)
is_waiting-eq TaskState.completed h = absurd (cc)
is_waiting-eq TaskState.cancelled h = absurd (cc)

renumbered_other : (t : Task) → t.state ≢ TaskState.waiting → renumbered t t.waiting ≡ t.waiting
renumbered_other t other = elim (Bool-cases (same_state t.state TaskState.waiting)) [
  | inl e ↦ absurd (other (is_waiting-eq t.state e))
  | inr e ↦ ground arith
]

module _ ⦃u : Unicode⦄ where
  pub next_task_eq :
      (task patched changed : Task)
      → next_task task patched ≡ ok changed
      → changed ≡ in_order (candidate task patched)
  unfolding next_task
  next_task_eq task patched changed h =
      ground (arith, parse_task-value (candidate task patched) (Place.task_named task.id))

  pub next_task-IsStable :
      (task patched changed : Task) → next_task task patched ≡ ok changed → IsStableTask changed
  unfolding next_task
  next_task-IsStable task patched changed h path =
      parse_task-again (task_value (candidate task patched)) (Place.task_named task.id) changed
        (ground arith) path

  replace_in-IsStable :
      (c : Task) (l : List Task)
      → IsStableTask c
      → All IsStableTask l
      → All IsStableTask (replace_in (c ∷ []) l)
  replace_in-IsStable c [] h k = tt
  replace_in-IsStable c (t ∷ ts) h k = (
    elim (Bool-cases (same c.id t.id)) [ inl e ↦ rw e h | inr n ↦ rw n k.0 ],
    replace_in-IsStable c ts h k.1,
  )

  -- The snapshot `s'` is `s` with one Task changed.
  pub record IsChanged (s s' : DomainSnapshot) (task changed : Task) : Type 0 where
    pub valid : IsSnapshot s'
    pub found : task_of s'.tasks task.id ≡ some changed
    pub others_kept :
        (id : Text) → same task.id id ≡ false → task_of s'.tasks id ≡ task_of s.tasks id
    pub projects_kept : s'.projects ≡ s.projects

  module _ (v : Value) (s : DomainSnapshot)
      (h : parse_snapshot v SnapshotValidationMode.complete ≡ ok s) (task changed : Task)
      (same_id : changed.id ≡ task.id) (stable : IsStableTask changed)
      (known : task_of s.tasks task.id ≡ some task) where
    replaced_lookup :
        (s' : DomainSnapshot)
        → replace_tasks s (changed ∷ []) [] ≡ ok s'
        → (s'.projects ≡ s.projects)
          × (s'.tasks ≡ sort task_id (replace_in (changed ∷ []) s.tasks ++ []))
    unfolding replace_tasks
    replaced_lookup s' k =
        let r = parse_snapshot-IsParsed v SnapshotValidationMode.complete s h in
        let (ps, sorted) = kept_projects SnapshotValidationMode.complete s r in
        let (ts, _) = kept_tasks SnapshotValidationMode.complete s r in
        let next : List Task = replace_in (changed ∷ []) s.tasks ++ [] in
        let all : All IsStableTask next =
          subst (All IsStableTask) (sym (append-nil (replace_in (changed ∷ []) s.tasks)))
            (replace_in-IsStable changed s.tasks stable ts) in
        let e =
          parse_snapshot_of_stable SnapshotValidationMode.complete s.projects next ps all sorted
            r.unique_projects in
        let whole =
          check_snapshot_eq SnapshotValidationMode.complete s.projects (sort task_id next) s'
            (sym e ∙ k) in
        (ap (λ (x : DomainSnapshot). x.projects) whole, ap (λ (x : DomainSnapshot). x.tasks) whole)

    lookup_after :
        (s' : DomainSnapshot)
        → replace_tasks s (changed ∷ []) [] ≡ ok s'
        → (id : Text) → task_of s'.tasks id ≡ task_of (replace_in (changed ∷ []) s.tasks) id
    lookup_after s' k id =
        ap (λ (l : List Task). task_of l id) (replaced_lookup s' k).1
        ∙ (find-sort task_id id (replace_in (changed ∷ []) s.tasks ++ [])
            ∙ ap (λ (l : List Task). task_of l id) (append-nil (replace_in (changed ∷ []) s.tasks)))

    replace_tasks-IsChanged :
        (s' : DomainSnapshot)
        → replace_tasks s (changed ∷ []) [] ≡ ok s'
        → IsChanged s s' task changed
    unfolding replace_tasks
    replace_tasks-IsChanged s' k = record {
      valid =
          parse_snapshot-IsSnapshot
            (snapshot_value s.projects (replace_in (changed ∷ []) s.tasks ++ [])) s' k;
      found =
          lookup_after s' k task.id
          ∙ (task_of-replace_in changed s.tasks task.id
              ∙ rw (known, eq→same changed.id task.id same_id) refl);
      others_kept = λ id n.
          lookup_after s' k id ∙ (task_of-replace_in changed s.tasks id ∙ rw (same_id, n) refl);
      projects_kept = (replaced_lookup s' k).0;
    }

  -- What the next revision of a Task must be: the number is one more, a Task that waits says so of
  -- the new revision, the dependencies are in the order of the domain, and the rest is the patch.
  pub record IsNext (task patched changed : Task) : Type 0 where
    pub id : changed.id ≡ patched.id
    pub project_id : changed.project_id ≡ patched.project_id
    pub state : changed.state ≡ patched.state
    pub revision : changed.revision ≡ task.revision + 1
    pub body : changed.body ≡ patched.body
    pub parent_id : changed.parent_id ≡ patched.parent_id
    pub dependency_ids : changed.dependency_ids ≡ sort (λ d. d) patched.dependency_ids
    pub still : patched.state ≢ TaskState.waiting → changed.waiting ≡ patched.waiting
    pub renewed :
        (w : WaitingMetadata)
        → patched.state ≡ TaskState.waiting
        → patched.waiting ≡ some w
        → changed.waiting
          ≡ some (record { input = w.input; waiting_task_revision = task.revision + 1 })
    pub active : patched.waiting ≡ none → changed.waiting ≡ none
    pub completion : changed.completion ≡ patched.completion
    pub cancellation : changed.cancellation ≡ patched.cancellation
    pub supersedes_task_id : changed.supersedes_task_id ≡ patched.supersedes_task_id

  candidate-IsNext : (task patched : Task) → IsNext task patched (in_order (candidate task patched))
  candidate-IsNext task patched = record {
    id = refl;
    project_id = refl;
    state = refl;
    revision = refl;
    body = refl;
    parent_id = refl;
    dependency_ids = refl;
    still = λ other. renumbered_other (record patched { revision = task.revision + 1 }) other;
    renewed = λ w waits there. rw (there, waits) refl;
    active = λ e. rw e refl;
    completion = refl;
    cancellation = refl;
    supersedes_task_id = refl;
  }

  -- The result of `commit`.
  pub record IsCommitted (s : DomainSnapshot) (task patched : Task) (announce : Task → DomainEvent)
      (r : DomainSuccess DomainMutation) : Type 0 where
    pub changes : IsChanged s r.value.snapshot task (in_order (candidate task patched))
    pub next : IsNext task patched (in_order (candidate task patched))
    pub named : r.value.changed_task_ids ≡ task.id ∷ []
    pub announced : r.events ≡ announce (in_order (candidate task patched)) ∷ []

  next_of_commit :
      (s : DomainSnapshot) (task patched : Task) (announce : Task → DomainEvent)
      (r : DomainSuccess DomainMutation)
      → commit s task patched announce ≡ ok r
      → (changed : Task) × (next_task task patched ≡ ok changed)
        × (replace_tasks s (changed ∷ []) [] ≡ ok r.value.snapshot)
        × (r.value.changed_task_ids ≡ sort (λ t. t) (changed.id ∷ []))
        × (r.events ≡ announce changed ∷ [])
  unfolding commit
  next_of_commit s task patched announce r h =
      let finish = λ (changed : Task) (next : DomainSnapshot).
        mutation next (changed.id ∷ []) (announce changed ∷ []) in
      let (changed, e, h1) =
        >>=-eq-ok (next_task task patched)
          (λ changed. replace_tasks s (changed ∷ []) [] >>= finish changed) h in
      let (next, e', h2) = >>=-eq-ok (replace_tasks s (changed ∷ []) []) (finish changed) h1 in
      let out : next ≡ r.value.snapshot = cc in (changed, e, rw out at e', cc, cc)

  -- When the common end of the operations succeeds for a registered Task of an accepted snapshot and a patch that keeps its identifier, the new snapshot is well formed and holds the Task as the patch has it, at a revision that is one more and with its waiting metadata, where it waits, of that revision; all other Tasks and the Projects are kept, the Task is named as changed, and one event announces it.
  pub commit-IsCommitted :
      (v : Value) (s : DomainSnapshot) (id : Text) (task patched : Task)
      (announce : Task → DomainEvent) (r : DomainSuccess DomainMutation)
      → parse_snapshot v SnapshotValidationMode.complete ≡ ok s
      → task_of s.tasks id ≡ some task
      → patched.id ≡ task.id
      → commit s task patched announce ≡ ok r
      → IsCommitted s task patched announce r
  unfolding sort insert
  commit-IsCommitted v s id task patched announce r h known same_id k =
      let (changed, made, replaced, ids, events) = next_of_commit s task patched announce r k in
      let e : changed ≡ in_order (candidate task patched) =
        next_task_eq task patched changed made in
      let known' : task_of s.tasks task.id ≡ some task =
        ap (task_of s.tasks) (id_of_task_of s.tasks id task known) ∙ known in
      let change =
        replace_tasks-IsChanged v s h task changed (ap (λ (t : Task). t.id) e ∙ same_id)
          (next_task-IsStable task patched changed made) known' r.value.snapshot replaced in
      record {
        changes = subst (IsChanged s r.value.snapshot task) e change;
        next = candidate-IsNext task patched;
        named = ids ∙ ap (λ (i : Text). i ∷ []) (ap (λ (t : Task). t.id) e ∙ same_id);
        announced = events ∙ ap (λ (t : Task). announce t ∷ []) e;
      }
