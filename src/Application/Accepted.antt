-- ===== src/Application/Accepted.antt =====
-- src/application-domain.ts: what holds of a command that changes the domain.
use agent_task_orchestrator.Base.{
  Text, ◌≡◌, refl, subst, false, Option, none, some, arith, same→eq, inl, inr, any, Bool-cases,
}
use agent_task_orchestrator.Domain.States.{TransitionEvent}
use agent_task_orchestrator.Domain.Errors.{ok, err, DomainSuccess, DomainResult}
use agent_task_orchestrator.Domain.Records.{Task, DomainMutation}
use agent_task_orchestrator.Domain.Value.{Value, Unicode}
use agent_task_orchestrator.Domain.Graph.{task_of}
use agent_task_orchestrator.Domain.Snapshot.{parse_snapshot, SnapshotValidationMode}
use agent_task_orchestrator.Domain.Snapshot.WellFormed.{IsSnapshot}
use agent_task_orchestrator.Domain.Tasks.Create.{create_task_effect}
use agent_task_orchestrator.Domain.Tasks.Body.{update_task_body_effect}
use agent_task_orchestrator.Domain.Links.Effect.{
  set_task_parent_effect, add_task_dependency_effect, remove_task_dependency_effect,
}
use agent_task_orchestrator.Domain.Commands.{create_task_command, task_dependency_command}
use agent_task_orchestrator.Domain.Tasks.{create_task}
use agent_task_orchestrator.Domain.Links.{add_task_dependency, remove_task_dependency}
use agent_task_orchestrator.Domain.Transition.{transition_task}
use agent_task_orchestrator.Domain.Transition.Moves.{
  IsTransition, transition_task-IsTransition, transition_task_effect,
}
use agent_task_orchestrator.Domain.Transition.Cancelling.{
  transition_task_cancel, transition_task_interruption,
}
use agent_task_orchestrator.Application.Model.{
  TaskTarget, TaskChange, DependencyTarget, ApplicationCommand, ApplicationState, Outcome,
}
use agent_task_orchestrator.Application.Commands.{
  outcome, domain_value, if_current, is_claim_of, if_dependency_current, change_task, on_task,
  target_of_command, without_target, at_target, domain_mutation, mark_ready_command, cancel_command,
}

module _ ⦃u : Unicode⦄ where
  transition-IsSnapshot :
      (v command : Value) (r : DomainSuccess DomainMutation) (k : IsTransition v command r)
      (trigger : TransitionEvent)
      → k.trigger ≡ trigger
      → IsSnapshot r.value.snapshot
  transition-IsSnapshot v command r k TransitionEvent.cancel e =
      (transition_task_cancel v command r k e).done.valid
  transition-IsSnapshot v command r k TransitionEvent.interruption_verified e =
      (transition_task_interruption v command r k e).done.valid
  transition-IsSnapshot v command r k _ e = (transition_task_effect v command r k (rw e refl)).valid

  transition_task-IsSnapshot :
      (v command : Value) (r : DomainSuccess DomainMutation)
      → transition_task v command ≡ ok r
      → IsSnapshot r.value.snapshot
  transition_task-IsSnapshot v command r h =
      let k = transition_task-IsTransition v command r h in
      transition-IsSnapshot v command r k k.trigger refl

  -- A mutation is the value of the domain's success.
  outcome-mutated :
      {M : Type 0} (d : DomainResult M) (m : M)
      → outcome d ≡ Outcome.mutated m
      → (r : DomainSuccess M) × (d ≡ ok r) × (r.value ≡ m)
  outcome-mutated (ok r) m h = (r, refl, ground arith)
  outcome-mutated (err e) m h = absurd (ground arith)

-- The Task that a command names is registered, in the Project and at the revision that it expects.
pub record IsCurrent (state : ApplicationState) (target : TaskTarget) : Type 0 where
  pub task : Task
  pub registered : task_of state.domain.tasks target.task_id ≡ some task
  pub of_project : task.project_id ≡ target.project_id
  pub at_revision : task.revision ≡ target.expected_task_revision

if_current-mutated :
    (target : TaskTarget) (o : Option Task) (next : Outcome DomainMutation) (m : DomainMutation)
    → if_current target o next ≡ Outcome.mutated m
    → (task : Task) × (o ≡ some task)
      × (task.project_id ≡ target.project_id)
      × (task.revision ≡ target.expected_task_revision)
      × (next ≡ Outcome.mutated m)
if_current-mutated target none next m h = absurd (ground arith)
if_current-mutated target (some task) next m h = (
  task,
  refl,
  ground (arith, same→eq task.project_id target.project_id),
  ground arith,
  ground arith,
)

if_dependency_current-mutated :
    (target : DependencyTarget) (o : Option Task) (next : Outcome DomainMutation)
    (m : DomainMutation)
    → if_dependency_current target o next ≡ Outcome.mutated m
    → next ≡ Outcome.mutated m
if_dependency_current-mutated target none next m h = absurd (ground arith)
if_dependency_current-mutated target (some task) next m h = ground arith

-- No execution of the Task is active.
abbrev pub IsUnclaimed : ApplicationState → Text → Type 0
IsUnclaimed state id = any (is_claim_of id) state.executions ≡ false

-- What a cancellation asks besides.
abbrev pub IsCancellable : ApplicationState → ApplicationCommand → Type 0
IsCancellable state (ApplicationCommand.task_cancel t reason) = IsUnclaimed state t.task_id
IsCancellable state _ = Unit

abbrev pub AreCurrent : ApplicationState → Option TaskTarget → Type 0
AreCurrent state none = Unit
AreCurrent state (some target) = IsCurrent state target

module _ ⦃u : Unicode⦄ (state : ApplicationState)
    (h : parse_snapshot (domain_value state) SnapshotValidationMode.complete
      ≡ ok state.domain) where
  -- The snapshot of an operation on Tasks that succeeds, given that its result is well formed.
  outcome-IsSnapshot :
      (d : DomainResult DomainMutation) (m : DomainMutation)
      → ((r : DomainSuccess DomainMutation) → d ≡ ok r → IsSnapshot r.value.snapshot)
      → outcome d ≡ Outcome.mutated m
      → IsSnapshot m.snapshot
  outcome-IsSnapshot d m valid k =
      let (r, e, f) = outcome-mutated d m k in
      subst (λ (x : DomainMutation). IsSnapshot x.snapshot) f (valid r e)

  change_task-IsSnapshot :
      (id : Text) (change : TaskChange) (r : DomainSuccess DomainMutation)
      → change_task state id change ≡ ok r
      → IsSnapshot r.value.snapshot
  change_task-IsSnapshot id (TaskChange.body b) r k =
      let (_, _, _, _, done) =
        update_task_body_effect (domain_value state) id b state.domain r h k in
      done.changes.valid
  change_task-IsSnapshot id (TaskChange.parent p) r k =
      let (_, _, _, _, _, _, done) =
        set_task_parent_effect (domain_value state) state.domain h id p r k in
      done.changes.valid

  add_dependency-IsSnapshot :
      (id d : Text) (r : DomainSuccess DomainMutation)
      → add_task_dependency (domain_value state) (task_dependency_command id d) ≡ ok r
      → IsSnapshot r.value.snapshot
  add_dependency-IsSnapshot id d r k =
      let (_, _, _, _, _, _, done) =
        add_task_dependency_effect (domain_value state) state.domain h id d r k in
      done.changes.valid

  remove_dependency-IsSnapshot :
      (id d : Text) (r : DomainSuccess DomainMutation)
      → remove_task_dependency (domain_value state) (task_dependency_command id d) ≡ ok r
      → IsSnapshot r.value.snapshot
  remove_dependency-IsSnapshot id d r k =
      let (_, _, _, _, done) =
        remove_task_dependency_effect (domain_value state) state.domain h id d r k in
      done.changes.valid

  on_task-IsSnapshot :
      (command : ApplicationCommand) (target : TaskTarget) (m : DomainMutation)
      → target_of_command command ≡ some target
      → on_task command state target ≡ Outcome.mutated m
      → IsSnapshot m.snapshot × IsCancellable state command
  on_task-IsSnapshot (ApplicationCommand.task_update t change) target m i k = (
    outcome-IsSnapshot (change_task state target.task_id change) m
        (change_task-IsSnapshot target.task_id change) k,
    tt,
  )
  on_task-IsSnapshot (ApplicationCommand.task_mark_ready t) target m i k = (
    outcome-IsSnapshot (transition_task (domain_value state) (mark_ready_command target.task_id)) m
        (transition_task-IsSnapshot (domain_value state) (mark_ready_command target.task_id)) k,
    tt,
  )
  on_task-IsSnapshot (ApplicationCommand.task_cancel t reason) target m i k =
      let same_target : target ≡ t = ground arith in
      elim (Bool-cases (any (is_claim_of target.task_id) state.executions)) [
        | inl e ↦ absurd (ground arith)
        | inr e ↦
            let command = cancel_command state.domain target.task_id reason in
            (
              outcome-IsSnapshot (transition_task (domain_value state) command) m
                  (transition_task-IsSnapshot (domain_value state) command) (rw e at k),
              subst (λ (x : TaskTarget). IsUnclaimed state x.task_id) same_target e,
            )
      ]
  on_task-IsSnapshot (ApplicationCommand.dependency_add t d) target m i k =
      let command = task_dependency_command target.task_id d.dependency_id in
      (
        outcome-IsSnapshot (add_task_dependency (domain_value state) command) m
            (add_dependency-IsSnapshot target.task_id d.dependency_id)
            (if_dependency_current-mutated d (task_of state.domain.tasks d.dependency_id) _ m k),
        tt,
      )
  on_task-IsSnapshot (ApplicationCommand.dependency_remove t d) target m i k =
      let command = task_dependency_command target.task_id d.dependency_id in
      (
        outcome-IsSnapshot (remove_task_dependency (domain_value state) command) m
            (remove_dependency-IsSnapshot target.task_id d.dependency_id)
            (if_dependency_current-mutated d (task_of state.domain.tasks d.dependency_id) _ m k),
        tt,
      )
  on_task-IsSnapshot _ target m i k = absurd (ground arith)

  without_target-IsSnapshot :
      (command : ApplicationCommand) (m : DomainMutation)
      → target_of_command command ≡ none
      → without_target command state ≡ Outcome.mutated m
      → IsSnapshot m.snapshot × IsCancellable state command
  without_target-IsSnapshot (ApplicationCommand.task_create project resource id b supersedes) m i
        k =
      (
        outcome-IsSnapshot
            (create_task (domain_value state) (create_task_command id project b supersedes)) m
            (λ r e.
              let (_, _, _, _, made, _, _) =
                create_task_effect (domain_value state) state.domain h id project b supersedes r
                  e in
              made.valid)
            k,
        tt,
      )
  without_target-IsSnapshot _ m i k = absurd (ground arith)

  at_target-mutated :
      (o : Option TaskTarget) (command : ApplicationCommand) (m : DomainMutation)
      → target_of_command command ≡ o
      → at_target o command state ≡ Outcome.mutated m
      → IsSnapshot m.snapshot × IsCancellable state command × AreCurrent state o
  at_target-mutated none command m e k =
      let (valid, free) = without_target-IsSnapshot command m e k in (valid, free, tt)
  at_target-mutated (some target) command m e k =
      let (task, registered, project, revision, next) =
        if_current-mutated target (task_of state.domain.tasks target.task_id)
          (on_task command state target) m k in
      let (valid, free) = on_task-IsSnapshot command target m e next in
      (
        valid,
        free,
        record {
          task = task;
          registered = registered;
          of_project = project;
          at_revision = revision;
        },
      )

  -- For a state whose domain is an accepted snapshot: a command that `domainMutation` lets change the domain leaves a well-formed snapshot, is of a Task that is registered in the Project and at the revision that it expects, where it names one, and, where it cancels, of a Task without an active execution.
  pub domain_mutation-IsSnapshot :
      (command : ApplicationCommand) (m : DomainMutation)
      → domain_mutation command state ≡ Outcome.mutated m
      → IsSnapshot m.snapshot
        × IsCancellable state command
        × AreCurrent state (target_of_command command)
  unfolding domain_mutation
  domain_mutation-IsSnapshot command m k =
      at_target-mutated (target_of_command command) command m refl k
