-- ===== src/Domain/Transition/Cancelling.antt =====
-- What an accepted transition that cancels does to the snapshot.
use agent_task_orchestrator.Base.{
  Text, ◌≡◌, refl, ap, ◌∙◌, subst, Option, some, List, [], ◌∷◌, arith, false,
}
use agent_task_orchestrator.Domain.States.{TransitionEvent}
use agent_task_orchestrator.Domain.Errors.{ok, DomainSuccess, DomainErrorCode}
use agent_task_orchestrator.Domain.Records.{
  Task, DomainSnapshot, DomainMutation, CancellationEvent, CancellationFact, DependentWaitingInput,
  ExecutionDisposition,
}
use agent_task_orchestrator.Domain.Value.{Value, Unicode, Fields, get, read_exact_record}
use agent_task_orchestrator.Domain.Parse.{cancellation_reason}
use agent_task_orchestrator.Domain.Graph.{task_of}
use agent_task_orchestrator.Domain.Mutation.{about_task, invalid_input}
use agent_task_orchestrator.Domain.Mutation.Effect.{id_of_task_of}
use agent_task_orchestrator.Domain.Transition.{
  cancel, verification_for_cancel, dispatch, interruption_verified, is_not_stopped,
}
use agent_task_orchestrator.Domain.Transition.Receipts.{
  parse_dependent_waiting, parse_execution_disposition,
}
use agent_task_orchestrator.Domain.Transition.Cancel.{cancel_with_direct_dependents}
use agent_task_orchestrator.Domain.Transition.Cancel.Effect.{
  IsCancelled, cancel_with_direct_dependents_effect,
}
use agent_task_orchestrator.Domain.Transition.Moves.{IsTransition}

module _ ⦃u : Unicode⦄ (s : DomainSnapshot) (task : Task) (p : Value)
    (r : DomainSuccess DomainMutation) where
  fields_of_cancel :
      cancel s task p ≡ ok r
      → (f : Fields) × (read_exact_record p
            ("reason" ∷ "executionDisposition" ∷ "dependentWaiting" ∷ [])
            invalid_input
          ≡ ok f)
  unfolding cancel
  fields_of_cancel k = ground arith

  cancel_values :
      (f : Fields)
      → read_exact_record p
          ("reason" ∷ "executionDisposition" ∷ "dependentWaiting" ∷ [])
          invalid_input
        ≡ ok f
      → cancel s task p ≡ ok r
      → (reason : Text) × (inputs : List DependentWaitingInput) × (id : Option Text)
        × (cancellation_reason (get f "reason") (about_task DomainErrorCode.invalid_input task.id)
            ≡ ok reason)
        × (parse_dependent_waiting (get f "dependentWaiting") ≡ ok inputs)
        × (verification_for_cancel task (get f "executionDisposition") ≡ ok id)
        × (cancel_with_direct_dependents s task
              (record {
                trigger = CancellationEvent.cancel;
                reason = reason;
                verification_id = id;
                accepted_task_revision = task.revision;
              })
              inputs
              TransitionEvent.cancel
            ≡ ok r)
  unfolding cancel
  cancel_values f e k = ground arith

  fields_of_interruption :
      interruption_verified s task p ≡ ok r
      → (f : Fields) × (read_exact_record p
            ("reason" ∷ "verification" ∷ "dependentWaiting" ∷ [])
            invalid_input
          ≡ ok f)
  unfolding interruption_verified
  fields_of_interruption k = ground arith

  interruption_values :
      (f : Fields)
      → read_exact_record p ("reason" ∷ "verification" ∷ "dependentWaiting" ∷ []) invalid_input
        ≡ ok f
      → interruption_verified s task p ≡ ok r
      → (reason : Text) × (d : ExecutionDisposition) × (inputs : List DependentWaitingInput)
        × (cancellation_reason (get f "reason") (about_task DomainErrorCode.invalid_input task.id)
            ≡ ok reason)
        × (parse_execution_disposition (get f "verification") task ≡ ok d)
        × (parse_dependent_waiting (get f "dependentWaiting") ≡ ok inputs)
        × (is_not_stopped d ≡ false)
        × (cancel_with_direct_dependents s task
              (record {
                trigger = CancellationEvent.interruption_verified;
                reason = reason;
                verification_id = some d.receipt_id;
                accepted_task_revision = task.revision;
              })
              inputs
              TransitionEvent.interruption_verified
            ≡ ok r)
  unfolding interruption_verified
  interruption_values f e k = ground arith

-- The fact names the event and the revision at which it was accepted, and the snapshot is the one of a cancellation with this fact.
pub record IsCancelledBy (trigger : CancellationEvent) (s : DomainSnapshot) (task : Task)
    (r : DomainSuccess DomainMutation) : Type 0 where
  pub fact : CancellationFact
  pub by : fact.trigger ≡ trigger
  pub accepted : fact.accepted_task_revision ≡ task.revision
  pub done : IsCancelled s task fact r

known_by_own_id :
    (s : DomainSnapshot) (id : Text) (task : Task)
    → task_of s.tasks id ≡ some task
    → task_of s.tasks task.id ≡ some task
known_by_own_id s id task h = ap (task_of s.tasks) (id_of_task_of s.tasks id task h) ∙ h

-- A cancellation that is accepted as a transition leaves the snapshot of a cancellation of the Task that it names, with a fact that names the event and the revision of the Task.
pub transition_task_cancel :
    ⦃u : Unicode⦄ (v command : Value) (r : DomainSuccess DomainMutation)
    (k : IsTransition v command r)
    → k.trigger ≡ TransitionEvent.cancel
    → IsCancelledBy CancellationEvent.cancel k.s k.taken.task r
unfolding dispatch
transition_task_cancel v command r k e =
    let task = k.taken.task in
    let done = subst (λ t. dispatch t k.s task (get k.fields "payload") ≡ ok r) e k.taken.done in
    let (f, read) = fields_of_cancel k.s task _ r done in
    let (reason, inputs, id, _, _, _, final) = cancel_values k.s task _ r f read done in
    let (_, effect) =
      cancel_with_direct_dependents_effect v k.s task _ inputs TransitionEvent.cancel r k.read
        (known_by_own_id k.s k.id task k.taken.known) final in
    record { fact = _; by = refl; accepted = refl; done = effect }

-- An interruption that is accepted as a transition leaves the snapshot of a cancellation of the Task that it names, with a fact that names the event and the revision of the Task.
pub transition_task_interruption :
    ⦃u : Unicode⦄ (v command : Value) (r : DomainSuccess DomainMutation)
    (k : IsTransition v command r)
    → k.trigger ≡ TransitionEvent.interruption_verified
    → IsCancelledBy CancellationEvent.interruption_verified k.s k.taken.task r
unfolding dispatch
transition_task_interruption v command r k e =
    let task = k.taken.task in
    let done = subst (λ t. dispatch t k.s task (get k.fields "payload") ≡ ok r) e k.taken.done in
    let (f, read) = fields_of_interruption k.s task _ r done in
    let (reason, d, inputs, _, _, _, _, final) = interruption_values k.s task _ r f read done in
    let (_, effect) =
      cancel_with_direct_dependents_effect v k.s task _ inputs TransitionEvent.interruption_verified
        r k.read (known_by_own_id k.s k.id task k.taken.known) final in
    record { fact = _; by = refl; accepted = refl; done = effect }
