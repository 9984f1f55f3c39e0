-- ===== src/Domain/Transition/Cancel/Effect.antt =====
-- What a cancellation does to the Task and to the ready Tasks that depend on it directly.
use mathlib.Core.List.{append-nil}
use agent_task_orchestrator.Base.{
  Text, ◌+◌, ◌≡◌, refl, ap, sym, subst, ◌∙◌, true, Option, none, some, arith, same, same→eq,
  eq→same, sort, find-sort, List, [], ◌∷◌, All, Bool-cases, Option-cases, inl, inr,
}
use agent_task_orchestrator.Domain.States.{TaskState, TransitionEvent}
use agent_task_orchestrator.Domain.Errors.{ok, DomainSuccess, DomainEvent, Place}
use agent_task_orchestrator.Domain.Records.{
  Task, WaitingMetadata, DomainSnapshot, DomainMutation, CancellationFact, DependentWaitingInput,
}
use agent_task_orchestrator.Domain.Value.{Value, Unicode}
use agent_task_orchestrator.Domain.Encode.{snapshot_value, waiting_input_value}
use agent_task_orchestrator.Domain.Graph.{task_of}
use agent_task_orchestrator.Domain.Snapshot.{SnapshotValidationMode, parse_snapshot, task_id}
use agent_task_orchestrator.Domain.Snapshot.Accepted.{
  IsStableTask, parse_snapshot-IsParsed, parse_snapshot_of_stable, kept_projects, kept_tasks,
  check_snapshot_eq,
}
use agent_task_orchestrator.Domain.Snapshot.WellFormed.{IsSnapshot, parse_snapshot-IsSnapshot}
use agent_task_orchestrator.Domain.Mutation.{next_task, replaced_by, replace_in, replace_tasks}
use agent_task_orchestrator.Domain.Mutation.Effect.{id_of_task_of, next_task_eq, next_task-IsStable}
use agent_task_orchestrator.Domain.Transition.Receipts.{waiting_from_input}
use agent_task_orchestrator.Domain.Transition.Cancel.Affected.{AreAffected, covers-AreAffected}
use agent_task_orchestrator.Domain.Transition.Cancel.{
  affected_by, covers, wait_dependent, wait_dependents, cancel_with_direct_dependents,
}

-- The Task that a lookup finds after a replacement.
abbrev pub replaced : Option Task → Option Task → Option Task
replaced none c = none
replaced (some t) none = some t
replaced (some t) (some c) = some c

id-replaced_by : (reps : List Task) (t : Task) → (replaced_by t (task_of reps t.id)).id ≡ t.id
id-replaced_by reps t = elim (Option-cases (task_of reps t.id)) [
  | inl e ↦ rw e refl
  | inr h ↦ let (c, e) = h in rw e (id_of_task_of reps t.id c e)
]

some-replaced_by : (t : Task) (o : Option Task) → some (replaced_by t o) ≡ replaced (some t) o
some-replaced_by t none = refl
some-replaced_by t (some c) = refl

task_of-replace_in_all :
    (reps l : List Task) (id : Text)
    → task_of (replace_in reps l) id ≡ replaced (task_of l id) (task_of reps id)
task_of-replace_in_all reps [] id = refl
task_of-replace_in_all reps (t ∷ ts) id = elim (Bool-cases (same t.id id)) [
  | inl e ↦
      rw (id-replaced_by reps t, e)
        (some-replaced_by t (task_of reps t.id)
          ∙ ap (λ i. replaced (some t) (task_of reps i)) (same→eq t.id id e))
  | inr n ↦ rw (id-replaced_by reps t, n) (task_of-replace_in_all reps ts id)
]

-- The changed Task is the ready Task at its next revision, waiting.
pub record IsWaiting (t c : Task) : Type 0 where
  pub same_id : c.id ≡ t.id
  pub waits : c.state ≡ TaskState.waiting
  pub counted : c.revision ≡ t.revision + 1

abbrev pub AreWaiting : List Task → List Task → Type 0
AreWaiting [] [] = Unit
AreWaiting [] (c ∷ cs) = ⊥
AreWaiting (t ∷ ts) [] = ⊥
AreWaiting (t ∷ ts) (c ∷ cs) = IsWaiting t c × AreWaiting ts cs

module _ ⦃u : Unicode⦄ where
  wait_dependent_parts :
      (t : Task) (d : DependentWaitingInput) (c : Task)
      → wait_dependent t d ≡ ok c
      → (w : WaitingMetadata) × (waiting_from_input
            (waiting_input_value d.waiting)
            (t.revision + 1)
            (Place.dependent_named t.id)
          ≡ ok w)
        × (next_task t (record t { state = TaskState.waiting; waiting = some w }) ≡ ok c)
  unfolding wait_dependent
  wait_dependent_parts t d c h = ground arith

  wait_dependent_effect :
      (t : Task) (d : DependentWaitingInput) (c : Task)
      → wait_dependent t d ≡ ok c
      → IsWaiting t c × IsStableTask c
  wait_dependent_effect t d c h =
      let (w, _, made) = wait_dependent_parts t d c h in
      let e = next_task_eq t _ c made in
      (
        record {
          same_id = ap (λ (x : Task). x.id) e;
          waits = ap (λ (x : Task). x.state) e;
          counted = ap (λ (x : Task). x.revision) e;
        },
        next_task-IsStable t _ c made,
      )

  wait_dependents_parts :
      (t : Task) (ts : List Task) (d : DependentWaitingInput) (ds : List DependentWaitingInput)
      (cs : List Task) (es : List DomainEvent)
      → wait_dependents (t ∷ ts) (d ∷ ds) ≡ ok (cs, es)
      → (c : Task) × (p : List Task × List DomainEvent) × (wait_dependent t d ≡ ok c)
        × (wait_dependents ts ds ≡ ok p)
        × (cs ≡ c ∷ p.0)
  unfolding wait_dependents
  wait_dependents_parts t ts d ds cs es h = ground arith

  wait_dependents_effect :
      (ts : List Task) (ds : List DependentWaitingInput) (cs : List Task) (es : List DomainEvent)
      → wait_dependents ts ds ≡ ok (cs, es)
      → AreWaiting ts cs × All IsStableTask cs
  unfolding wait_dependents
  wait_dependents_effect [] ds [] es h = (tt, tt)
  wait_dependents_effect [] ds (c ∷ cs) es h = absurd (cc)
  wait_dependents_effect (t ∷ ts) [] cs es h = absurd (cc)
  wait_dependents_effect (t ∷ ts) (d ∷ ds) cs es h =
      let (c, p, e, rest, out) = wait_dependents_parts t ts d ds cs es h in
      let (waits, stable) = wait_dependent_effect t d c e in
      let (all_wait, all_stable) = wait_dependents_effect ts ds p.0 p.1 rest in
      rw out ((waits, all_wait), (stable, all_stable))

  stable_of_task_of :
      (reps : List Task) (id : Text) (c : Task)
      → All IsStableTask reps
      → task_of reps id ≡ some c
      → IsStableTask c
  stable_of_task_of [] id c h e = absurd (cc)
  stable_of_task_of (x ∷ xs) id c h e = elim (Bool-cases (same x.id id)) [
    | inl y ↦
        let e' : some x ≡ some c = rw y at e in
        let found : x ≡ c = cc in subst IsStableTask found h.0
    | inr n ↦ stable_of_task_of xs id c h.1 (rw n at e)
  ]

  replace_each-IsStable :
      (reps l : List Task)
      → All IsStableTask reps
      → All IsStableTask l
      → All IsStableTask (replace_in reps l)
  replace_each-IsStable reps [] h k = tt
  replace_each-IsStable reps (t ∷ ts) h k = (
    elim (Option-cases (task_of reps t.id)) [
      | inl e ↦ rw e k.0
      | inr x ↦ let (c, e) = x in rw e (stable_of_task_of reps t.id c h e)
    ],
    replace_each-IsStable reps ts h k.1,
  )

  -- What `replace_tasks` makes of several changed Tasks.
  replace_tasks_lookup :
      (v : Value) (s s' : DomainSnapshot) (reps : List Task)
      → parse_snapshot v SnapshotValidationMode.complete ≡ ok s
      → All IsStableTask reps
      → replace_tasks s reps [] ≡ ok s'
      → IsSnapshot s'
        × (s'.projects ≡ s.projects)
        × ((id : Text) → task_of s'.tasks id ≡ replaced (task_of s.tasks id) (task_of reps id))
  unfolding replace_tasks
  replace_tasks_lookup v s s' reps h stable k =
      let r = parse_snapshot-IsParsed v SnapshotValidationMode.complete s h in
      let (ps, sorted) = kept_projects SnapshotValidationMode.complete s r in
      let (ts, _) = kept_tasks SnapshotValidationMode.complete s r in
      let next : List Task = replace_in reps s.tasks in
      let k' : parse_snapshot (snapshot_value s.projects next) SnapshotValidationMode.complete
          ≡ ok s' =
        subst
          (λ l.
            parse_snapshot (snapshot_value s.projects l) SnapshotValidationMode.complete ≡ ok s')
          (append-nil next) k in
      let e =
        parse_snapshot_of_stable SnapshotValidationMode.complete s.projects next ps
          (replace_each-IsStable reps s.tasks stable ts) sorted r.unique_projects in
      let whole =
        check_snapshot_eq SnapshotValidationMode.complete s.projects (sort task_id next) s'
          (sym e ∙ k') in
      (
        parse_snapshot-IsSnapshot (snapshot_value s.projects next) s' k',
        ap (λ (x : DomainSnapshot). x.projects) whole,
        λ id.
            ap (λ (x : DomainSnapshot). task_of x.tasks id) whole
            ∙ (find-sort task_id id next ∙ task_of-replace_in_all reps s.tasks id),
      )

-- The result of a cancellation: the Task is at its next revision, cancelled with the fact; each ready Task that depends on it directly waits at its next revision; all others and the Projects are kept.
pub record IsCancelled (s : DomainSnapshot) (task : Task) (fact : CancellationFact)
    (r : DomainSuccess DomainMutation) : Type 0 where
  pub cancelled : Task
  pub dependents : List Task
  pub state : cancelled.state ≡ TaskState.cancelled
  pub recorded : cancelled.cancellation ≡ some fact
  pub counted : cancelled.revision ≡ task.revision + 1
  pub waiting : AreWaiting (affected_by s task.id) dependents
  pub valid : IsSnapshot r.value.snapshot
  pub projects_kept : r.value.snapshot.projects ≡ s.projects
  pub found : task_of r.value.snapshot.tasks task.id ≡ some cancelled
  pub lookup :
      (id : Text)
      → task_of r.value.snapshot.tasks id
        ≡ replaced (task_of s.tasks id) (task_of (cancelled ∷ dependents) id)

module _ ⦃u : Unicode⦄ (v : Value) (s : DomainSnapshot) (task : Task) (fact : CancellationFact)
    (inputs : List DependentWaitingInput) (trigger : TransitionEvent)
    (r : DomainSuccess DomainMutation) (h : parse_snapshot v SnapshotValidationMode.complete ≡ ok s)
    (known : task_of s.tasks task.id ≡ some task) where
  abbrev cancelled_patch : Task
  cancelled_patch = record task {
    state = TaskState.cancelled;
    waiting = none;
    completion = none;
    cancellation = some fact;
  }

  cancel_parts :
      cancel_with_direct_dependents s task fact inputs trigger ≡ ok r
      → (c : Task) × (p : List Task × List DomainEvent) × (next_task task cancelled_patch ≡ ok c)
        × (wait_dependents (affected_by s task.id) inputs ≡ ok p)
        × (replace_tasks s (c ∷ p.0) [] ≡ ok r.value.snapshot)
        × (covers (affected_by s task.id) inputs ≡ true)
  unfolding cancel_with_direct_dependents
  cancel_parts k = ground arith

  -- A cancellation of a registered Task that succeeds names exactly the ready Tasks of the snapshot that have it as a dependency, in the order in which they are taken; it leaves a well-formed snapshot in which the Task is cancelled at its next revision with the fact, each of those Tasks waits at its next revision, and all other Tasks and the Projects are kept.
  pub cancel_with_direct_dependents_effect :
      cancel_with_direct_dependents s task fact inputs trigger ≡ ok r
      → AreAffected s task.id inputs × IsCancelled s task fact r
  cancel_with_direct_dependents_effect k =
      let (c, p, made, waits, replaces, covered) = cancel_parts k in
      let (waiting, stable) = wait_dependents_effect (affected_by s task.id) inputs p.0 p.1 waits in
      let e = next_task_eq task cancelled_patch c made in
      let id_kept : c.id ≡ task.id = ap (λ (x : Task). x.id) e in
      let (valid, same_projects, lookup) =
        replace_tasks_lookup v s r.value.snapshot (c ∷ p.0) h
          (next_task-IsStable task cancelled_patch c made, stable) replaces in
      (
        covers-AreAffected s task.id inputs covered,
        record {
          cancelled = c;
          dependents = p.0;
          state = ap (λ (x : Task). x.state) e;
          recorded = ap (λ (x : Task). x.cancellation) e;
          counted = ap (λ (x : Task). x.revision) e;
          waiting = waiting;
          valid = valid;
          projects_kept = same_projects;
          found = lookup task.id ∙ rw (known, eq→same c.id task.id id_kept) refl;
          lookup = lookup;
        },
      )
