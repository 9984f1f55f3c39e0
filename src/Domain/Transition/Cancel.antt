-- ===== src/Domain/Transition/Cancel.antt =====
-- src/domain.ts: applying a transition to one Task, and cancelling a Task
-- together with the ready Tasks that depend on it directly.
pub mod Affected
pub mod Effect
use agent_task_orchestrator.Base.{
  Text, ℕ, ◌+◌, Bool, true, false, not, ◌&&◌, List, [], ◌∷◌, none, some, same, includes, keep, sort,
  ◌==◌, map,
}
use agent_task_orchestrator.Domain.States.{TaskState, WaitingReason, TransitionEvent, same_state}
use agent_task_orchestrator.Domain.Errors.{
  Parsed, ok, err, ◌>>=◌, ◌>>◌, fail_if, DomainErrorCode, DetailValue, Place, DomainEvent,
  DomainEventType, DomainResult, event,
}
use agent_task_orchestrator.Domain.Records.{
  Task, CancellationFact, WaitingMetadataInput, DomainSnapshot, DomainMutation,
  DependentWaitingInput,
}
use agent_task_orchestrator.Domain.Value.{max_safe_integer, Unicode}
use agent_task_orchestrator.Domain.Encode.{waiting_input_value}
use agent_task_orchestrator.Domain.Snapshot.{task_id}
use agent_task_orchestrator.Domain.Mutation.{about_task, mutation, next_task, replace_tasks, commit}
use agent_task_orchestrator.Domain.Transition.Receipts.{waiting_from_input}

abbrev pub transitioned : Task → ℕ → TransitionEvent → TaskState → DomainEvent
transitioned task later trigger target =
    event DomainEventType.transitioned task.id (some task.revision) later (
      ("domainEvent", DetailValue.trigger trigger)
      ∷ ("fromState", DetailValue.state task.state)
      ∷ ("toState", DetailValue.state target)
      ∷ [])

-- `applySimpleTransition`; `patched` is `{ ...task, ...patch, state }`. The changed Task has the
-- identifier of `task`, which the event names.
unfoldable pub apply_simple_transition :
    ⦃u : Unicode⦄ → DomainSnapshot → Task → Task → TransitionEvent → DomainResult DomainMutation
apply_simple_transition s task patched trigger = commit s task patched λ changed.
    event DomainEventType.transitioned changed.id (some task.revision) changed.revision (
      ("domainEvent", DetailValue.trigger trigger)
      ∷ ("fromState", DetailValue.state task.state)
      ∷ ("toState", DetailValue.state patched.state)
      ∷ [])

-- The ready Tasks that depend on the Task directly.
abbrev pub is_affected : Text → Task → Bool
is_affected id t = same_state t.state TaskState.ready && includes t.dependency_ids id

abbrev pub affected_by : DomainSnapshot → Text → List Task
affected_by s id = sort task_id (keep (is_affected id) s.tasks)

-- The lengths agree and so does each identifier.
abbrev pub covers : List Task → List DependentWaitingInput → Bool
covers [] [] = true
covers [] (d ∷ ds) = false
covers (t ∷ ts) [] = false
covers (t ∷ ts) (d ∷ ds) = same t.id d.task_id && covers ts ds

abbrev is_dependency_cancelled : WaitingReason → Bool
is_dependency_cancelled WaitingReason.dependency_cancelled = true
is_dependency_cancelled _ = false

-- `input.waiting.reason === "dependency_cancelled"`
abbrev pub names_dependency_cancelled : WaitingMetadataInput → Bool
names_dependency_cancelled w = is_dependency_cancelled w.reason

-- The body of the loop over the affected Tasks: one of them goes to `waiting`.
unfoldable pub wait_dependent : ⦃u : Unicode⦄ → Task → DependentWaitingInput → Parsed Task
wait_dependent t d = do
  fail_if (not (names_dependency_cancelled d.waiting))
      (about_task DomainErrorCode.invalid_input t.id)
  fail_if (t.revision == max_safe_integer) (about_task DomainErrorCode.revision_exhausted t.id)
  waiting ←
      waiting_from_input (waiting_input_value d.waiting) (t.revision + 1)
        (Place.dependent_named t.id)
  next_task t (record t { state = TaskState.waiting; waiting = some waiting })

-- The loop: the changed Tasks and the events, in the order of the affected Tasks. The lists have
-- one length when it runs.
unfoldable pub wait_dependents :
    ⦃u : Unicode⦄ → List Task → List DependentWaitingInput → Parsed (List Task × List DomainEvent)
wait_dependents [] ds = ok ([], [])
wait_dependents (t ∷ ts) [] = err (about_task DomainErrorCode.invalid_input t.id)
wait_dependents (t ∷ ts) (d ∷ ds) = do
  changed ← wait_dependent t d
  (rest, events) ← wait_dependents ts ds
  ok (
    changed ∷ rest,
    transitioned t changed.revision TransitionEvent.dependency_cancelled TaskState.waiting ∷ events,
  )

-- `cancelWithDirectDependents`
unfoldable pub cancel_with_direct_dependents :
    ⦃u : Unicode⦄
    → DomainSnapshot
    → Task
    → CancellationFact
    → List DependentWaitingInput
    → TransitionEvent
    → DomainResult DomainMutation
unfolding wait_dependents
cancel_with_direct_dependents s task cancellation dependent_inputs trigger = do
  let affected = affected_by s task.id
  fail_if (not (covers affected dependent_inputs))
      (about_task DomainErrorCode.invalid_input task.id)
  cancelled ← next_task task (record task {
    state = TaskState.cancelled;
    waiting = none;
    completion = none;
    cancellation = some cancellation;
  })
  (changed, events) ← wait_dependents affected dependent_inputs
  next ← replace_tasks s (cancelled ∷ changed) []
  mutation next (cancelled.id ∷ map task_id changed)
      (transitioned task cancelled.revision trigger TaskState.cancelled ∷ events)
