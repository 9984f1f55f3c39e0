-- ===== src/Application/Dependents.antt =====
-- src/application-domain.ts: the dependents that a cancellation names.
use agent_task_orchestrator.Base.{
  Text, ℕ, ◌+◌, ◌≡◌, refl, ap, sym, ◌∙◌, subst, true, false, List, [], ◌∷◌, arith, same, same_refl,
  map, keep, is_empty, is_unique, All, All-sort, keep-All, keep-IsOrdered, is_unique-keep,
  IsOrdered, sort, sort_of_IsOrdered, before,
}
use agent_task_orchestrator.Domain.Errors.{ok, Place, >>=-eq-ok}
use agent_task_orchestrator.Domain.Records.{Task, DomainSnapshot, DependentWaitingInput}
use agent_task_orchestrator.Domain.Value.{
  Value, values, Unicode, read_exact_record, read_canonical_array, identifier, nullable_text, truth,
  nonnegative_integer, nullable_safe_integer, nullable_identifier, waiting_reason,
}
use agent_task_orchestrator.Domain.Encode.{waiting_input_value}
use agent_task_orchestrator.Domain.Parse.{
  invalid_snapshot_at, parse_task, task_from, parse_waiting_input, waiting_input_from,
}
use agent_task_orchestrator.Domain.Snapshot.{parse_snapshot, SnapshotValidationMode, task_id}
use agent_task_orchestrator.Domain.Snapshot.Accepted.{IsStableTask, parse_snapshot-IsParsed}
use agent_task_orchestrator.Domain.Snapshot.WellFormed.{map-ids, parse_snapshot-IsSnapshot}
use agent_task_orchestrator.Domain.Transition.Receipts.{
  dependent_entries, parse_dependent_waiting, entry_id,
}
use agent_task_orchestrator.Domain.Transition.Cancel.{covers, affected_by}
use agent_task_orchestrator.Application.Commands.{
  review_dependency, is_dependent, dependent_items, dependent_waiting,
}

-- What the domain reads of the value of a dependent.
abbrev pub entry : Task → DependentWaitingInput
entry t = record { task_id = t.id; waiting = review_dependency }

review_dependency_read :
    (path : Place)
    → parse_waiting_input (waiting_input_value review_dependency) path ≡ ok review_dependency
unfolding parse_waiting_input waiting_input_from identifier nullable_text truth nonnegative_integer
    nullable_safe_integer nullable_identifier waiting_reason read_exact_record same
review_dependency_read path = refl

abbrev pub IsNamed : Task → Type 0
IsNamed t = is_empty t.id ≡ false

entries_read :
    (ts : List Task) (index : ℕ)
    → All IsNamed ts
    → dependent_entries (values (dependent_items ts)) index ≡ ok (map entry ts)
unfolding dependent_entries read_exact_record identifier
entries_read [] index h = refl
entries_read (t ∷ ts) index h = ground (
  arith,
  h.0,
  review_dependency_read (Place.waiting_of (Place.dependents_at index)),
  entries_read ts (index + 1) h.1,
)

covers-entries : (ts : List Task) → covers ts (map entry ts) ≡ true
covers-entries [] = refl
covers-entries (t ∷ ts) = ground (arith, same_refl t.id, covers-entries ts)

All-entries :
    (k : Text) (ts : List Task)
    → All (λ y. before (task_id y) k ≡ false) ts
    → All (λ y. before (entry_id y) k ≡ false) (map entry ts)
All-entries k [] h = tt
All-entries k (t ∷ ts) h = (h.0, All-entries k ts h.1)

IsOrdered-entries : (ts : List Task) → IsOrdered task_id ts → IsOrdered entry_id (map entry ts)
IsOrdered-entries [] h = tt
IsOrdered-entries (t ∷ ts) h = (All-entries t.id ts h.0, IsOrdered-entries ts h.1)

ids-entries : (ts : List Task) → map entry_id (map entry ts) ≡ map task_id ts
ids-entries [] = refl
ids-entries (t ∷ ts) = ap (λ (l : List Text). t.id ∷ l) (ids-entries ts)

module _ ⦃u : Unicode⦄ where
  IsNamed-parse_task : (t : Task) → IsStableTask t → IsNamed t
  unfolding parse_task task_from identifier
  IsNamed-parse_task t h =
      let e = invalid_snapshot_at (Place.task_named t.id) in
      let (_, read, _) =
        >>=-eq-ok (identifier (Value.string t.id) e) _ (h (Place.task_named t.id)) in
      ground (arith, read)

  names_of_stable : (ts : List Task) → All IsStableTask ts → All IsNamed ts
  names_of_stable [] h = tt
  names_of_stable (t ∷ ts) h = (IsNamed-parse_task t h.0, names_of_stable ts h.1)

  -- For an accepted snapshot, the domain reads the dependents that `task.cancel` sends, and they cover exactly the ready Tasks that depend on the Task directly.
  pub dependent_waiting-covers :
      (v : Value) (s : DomainSnapshot) (id : Text)
      → parse_snapshot v SnapshotValidationMode.complete ≡ ok s
      → (inputs : List DependentWaitingInput) × (parse_dependent_waiting (dependent_waiting s id)
          ≡ ok inputs)
        × (covers (affected_by s id) inputs ≡ true)
  unfolding parse_dependent_waiting read_canonical_array
  dependent_waiting-covers v s id h =
      let valid = parse_snapshot-IsSnapshot v s h in
      let parsed = parse_snapshot-IsParsed v SnapshotValidationMode.complete s h in
      let named : All IsNamed s.tasks = subst (All IsNamed) (sym parsed.sorted_tasks) (
        All-sort task_id IsNamed parsed.raw_tasks
          (names_of_stable parsed.raw_tasks parsed.stable_tasks)) in
      let ts = keep (is_dependent id) s.tasks in
      let read = entries_read ts 0 (keep-All (is_dependent id) IsNamed s.tasks named) in
      let ordered = keep-IsOrdered (is_dependent id) task_id s.tasks valid.tasks_ordered in
      let sorted : sort entry_id (map entry ts) ≡ map entry ts =
        sort_of_IsOrdered entry_id (map entry ts) (IsOrdered-entries ts ordered) in
      let affected : affected_by s id ≡ ts = sort_of_IsOrdered task_id ts ordered in
      let unique : is_unique (map entry_id (map entry ts)) ≡ true =
        ap is_unique (ids-entries ts)
        ∙ is_unique-keep (is_dependent id) task_id s.tasks
            (ap is_unique (map-ids s.tasks) ∙ valid.tasks_unique) in
      (map entry ts, rw (read, sorted, unique) refl, rw affected (covers-entries ts))
