-- ===== src/Domain/Transition/Effect.antt =====
-- What a transition does to the Task that it names.
use agent_task_orchestrator.Base.{
  Text, ◌+◌, ◌≡◌, refl, true, false, none, some, arith, [], ◌∷◌, is_empty,
}
use agent_task_orchestrator.Domain.States.{TaskState, TransitionEvent}
use agent_task_orchestrator.Domain.Errors.{ok, DomainSuccess, Place}
use agent_task_orchestrator.Domain.Records.{
  Task, Project, WaitingMetadata, CompletionDecision, DomainSnapshot, DomainMutation,
  ContinuationKind,
}
use agent_task_orchestrator.Domain.Value.{Value, Unicode, Fields, get, read_exact_record}
use agent_task_orchestrator.Domain.Graph.{task_of}
use agent_task_orchestrator.Domain.Snapshot.{SnapshotValidationMode, parse_snapshot, project_of}
use agent_task_orchestrator.Domain.Snapshot.WellFormed.{IsSnapshot}
use agent_task_orchestrator.Domain.Mutation.{invalid_input}
use agent_task_orchestrator.Domain.Mutation.Effect.{commit-IsCommitted}
use agent_task_orchestrator.Domain.Eligibility.{eligibility_reasons}
use agent_task_orchestrator.Domain.Transition.{
  mark_ready, claim_accepted, dependency_cancelled, execution_wait, completion_accepted,
  continue_waiting, has_cancelled_dependency, is_legal,
}
use agent_task_orchestrator.Domain.Transition.Receipts.{
  waiting_from_input, parse_completion_decision,
}
use agent_task_orchestrator.Domain.Transition.Cancel.{apply_simple_transition}

-- The legal transitions, as a relation.
pub data Step : TaskState → TransitionEvent → TaskState → Type 0 where
  offer : Step TaskState.idea TransitionEvent.mark_ready TaskState.ready
  drop_idea : Step TaskState.idea TransitionEvent.cancel TaskState.cancelled
  claim : Step TaskState.ready TransitionEvent.claim_accepted TaskState.running
  block : Step TaskState.ready TransitionEvent.dependency_cancelled TaskState.waiting
  drop_ready : Step TaskState.ready TransitionEvent.cancel TaskState.cancelled
  wait : Step TaskState.running TransitionEvent.execution_wait TaskState.waiting
  finish : Step TaskState.running TransitionEvent.completion_accepted TaskState.completed
  interrupt : Step TaskState.running TransitionEvent.interruption_verified TaskState.cancelled
  resume : Step TaskState.waiting TransitionEvent.resume_accepted TaskState.running
  retry : Step TaskState.waiting TransitionEvent.retry_accepted TaskState.running
  drop_waiting : Step TaskState.waiting TransitionEvent.cancel TaskState.cancelled

-- The state to which an event leads.
abbrev pub target_of : TransitionEvent → TaskState
target_of TransitionEvent.mark_ready = TaskState.ready
target_of TransitionEvent.cancel = TaskState.cancelled
target_of TransitionEvent.claim_accepted = TaskState.running
target_of TransitionEvent.dependency_cancelled = TaskState.waiting
target_of TransitionEvent.execution_wait = TaskState.waiting
target_of TransitionEvent.completion_accepted = TaskState.completed
target_of TransitionEvent.interruption_verified = TaskState.cancelled
target_of TransitionEvent.resume_accepted = TaskState.running
target_of TransitionEvent.retry_accepted = TaskState.running

pub Step-is_legal :
    (a b : TaskState) (e : TransitionEvent) → is_legal a b e ≡ true → Step a e (target_of e)
Step-is_legal TaskState.idea b TransitionEvent.mark_ready h = Step.offer
Step-is_legal TaskState.idea b TransitionEvent.cancel h = Step.drop_idea
Step-is_legal TaskState.ready b TransitionEvent.claim_accepted h = Step.claim
Step-is_legal TaskState.ready b TransitionEvent.dependency_cancelled h = Step.block
Step-is_legal TaskState.ready b TransitionEvent.cancel h = Step.drop_ready
Step-is_legal TaskState.running b TransitionEvent.execution_wait h = Step.wait
Step-is_legal TaskState.running b TransitionEvent.completion_accepted h = Step.finish
Step-is_legal TaskState.running b TransitionEvent.interruption_verified h = Step.interrupt
Step-is_legal TaskState.waiting b TransitionEvent.resume_accepted h = Step.resume
Step-is_legal TaskState.waiting b TransitionEvent.retry_accepted h = Step.retry
Step-is_legal TaskState.waiting b TransitionEvent.cancel h = Step.drop_waiting
Step-is_legal _ b _ h = absurd (ground arith)

target_of-is_legal :
    (a b : TaskState) (e : TransitionEvent) → is_legal a b e ≡ true → b ≡ target_of e
target_of-is_legal a b TransitionEvent.mark_ready h = ground arith
target_of-is_legal a b _ h = ground arith

abbrev completed_by : Task → CompletionDecision → Task
completed_by task d = record task {
  state = TaskState.completed;
  completion =
      some (record { decision_id = d.decision_id; accepted_task_revision = task.revision });
}

-- The Task is at its next revision, in the state to which the event leads.
pub record IsMoved (task : Task) (trigger : TransitionEvent) (r : DomainSuccess DomainMutation)
    : Type 0 where
  pub changed : Task
  pub found : task_of r.value.snapshot.tasks task.id ≡ some changed
  pub moved : changed.state ≡ target_of trigger
  pub counted : changed.revision ≡ task.revision + 1
  pub valid : IsSnapshot r.value.snapshot

module _ ⦃u : Unicode⦄ (v : Value) (s : DomainSnapshot) (id : Text) (task : Task)
    (h : parse_snapshot v SnapshotValidationMode.complete ≡ ok s)
    (known : task_of s.tasks id ≡ some task) (r : DomainSuccess DomainMutation) where
  pub apply_simple_transition-IsMoved :
      (patched : Task) (trigger : TransitionEvent)
      → patched.id ≡ task.id
      → patched.state ≡ target_of trigger
      → apply_simple_transition s task patched trigger ≡ ok r
      → IsMoved task trigger r
  unfolding apply_simple_transition
  apply_simple_transition-IsMoved patched trigger same_id goes k =
      let c = commit-IsCommitted v s id task patched _ r h known same_id k in
      record {
        changed = _;
        found = c.changes.found;
        moved = goes;
        counted = refl;
        valid = c.changes.valid;
      }

  pub mark_ready_parts :
      (p : Value)
      → mark_ready s task p ≡ ok r
      → (project : Project) × (project_of s.projects task.project_id ≡ some project)
        × (project.enabled ≡ true)
        × (has_cancelled_dependency s task ≡ false)
        × (apply_simple_transition s task
              (record task { state = TaskState.ready })
              TransitionEvent.mark_ready
            ≡ ok r)
  unfolding mark_ready
  mark_ready_parts p k = ground arith

  pub claim_accepted_parts :
      (p : Value)
      → claim_accepted s task p ≡ ok r
      → (is_empty (eligibility_reasons s task) ≡ true)
        × (apply_simple_transition s task
              (record task { state = TaskState.running })
              TransitionEvent.claim_accepted
            ≡ ok r)
  unfolding claim_accepted
  claim_accepted_parts p k = ground arith

  pub dependency_cancelled_parts :
      (p : Value)
      → dependency_cancelled s task p ≡ ok r
      → (f : Fields) × (w : WaitingMetadata) × (read_exact_record p ("waiting" ∷ []) invalid_input
          ≡ ok f)
        × (waiting_from_input
              (get f "waiting")
              (task.revision + 1)
              (Place.waiting_of (Place.task_named task.id))
            ≡ ok w)
        × (apply_simple_transition s task
              (record task { state = TaskState.waiting; waiting = some w })
              TransitionEvent.dependency_cancelled
            ≡ ok r)
        × (has_cancelled_dependency s task ≡ true)
  unfolding dependency_cancelled
  dependency_cancelled_parts p k = ground arith

  pub execution_wait_parts :
      (p : Value)
      → execution_wait s task p ≡ ok r
      → (f : Fields) × (w : WaitingMetadata) × (read_exact_record p ("waiting" ∷ []) invalid_input
          ≡ ok f)
        × (waiting_from_input
              (get f "waiting")
              (task.revision + 1)
              (Place.waiting_of (Place.task_named task.id))
            ≡ ok w)
        × (apply_simple_transition s task
              (record task { state = TaskState.waiting; waiting = some w })
              TransitionEvent.execution_wait
            ≡ ok r)
  unfolding execution_wait
  execution_wait_parts p k = ground arith

  pub completion_accepted_parts :
      (p : Value)
      → completion_accepted s task p ≡ ok r
      → (f : Fields) × (d : CompletionDecision) × (read_exact_record p
            ("decision" ∷ [])
            invalid_input
          ≡ ok f)
        × (parse_completion_decision (get f "decision") task ≡ ok d)
        × (apply_simple_transition s task (completed_by task d) TransitionEvent.completion_accepted
            ≡ ok r)
  unfolding completion_accepted
  completion_accepted_parts p k = ground arith

  pub continue_waiting_parts :
      (kind : ContinuationKind) (trigger : TransitionEvent) (p : Value)
      → continue_waiting kind trigger s task p ≡ ok r
      → apply_simple_transition s task
          (record task { state = TaskState.running; waiting = none })
          trigger
        ≡ ok r
  unfolding continue_waiting
  continue_waiting_parts kind trigger p k = ground arith
