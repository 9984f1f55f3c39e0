-- ===== src/Domain/Transition/Moves.antt =====
-- What every accepted transition does.
use agent_task_orchestrator.Base.{
  Text, ◌≡◌, refl, subst, Bool, true, false, some, arith, ◌∷◌, [], All,
}
use agent_task_orchestrator.Domain.States.{TaskState, TransitionEvent, is_terminal}
use agent_task_orchestrator.Domain.Errors.{ok, DomainSuccess}
use agent_task_orchestrator.Domain.Records.{Task, DomainSnapshot, DomainMutation, ContinuationKind}
use agent_task_orchestrator.Domain.Value.{
  Value, Unicode, Fields, get, identifier, transition_event, task_state,
}
use agent_task_orchestrator.Domain.Graph.{task_of}
use agent_task_orchestrator.Domain.Snapshot.{SnapshotValidationMode, parse_snapshot, project_of}
use agent_task_orchestrator.Domain.Eligibility.Decision.{
  IsEnabled, IsCompleted, eligibility_reasons_iff,
}
use agent_task_orchestrator.Domain.Mutation.{invalid_input, parse_task_command}
use agent_task_orchestrator.Domain.Transition.{dispatch, transition_task, transition_from, is_legal}
use agent_task_orchestrator.Domain.Transition.Effect.{
  Step, target_of, Step-is_legal, IsMoved, apply_simple_transition-IsMoved, mark_ready_parts,
  claim_accepted_parts, dependency_cancelled_parts, execution_wait_parts, completion_accepted_parts,
  continue_waiting_parts,
}

-- The events that cancel the Task, and with it may change its direct dependents.
abbrev pub is_cancelling : TransitionEvent → Bool
is_cancelling TransitionEvent.cancel = true
is_cancelling TransitionEvent.interruption_verified = true
is_cancelling _ = false

module _ ⦃u : Unicode⦄ (v : Value) (s : DomainSnapshot) (id : Text) (task : Task)
    (h : parse_snapshot v SnapshotValidationMode.complete ≡ ok s)
    (known : task_of s.tasks id ≡ some task) (r : DomainSuccess DomainMutation) where
  dispatch-IsMoved :
      (trigger : TransitionEvent) (p : Value)
      → is_cancelling trigger ≡ false
      → dispatch trigger s task p ≡ ok r
      → IsMoved task trigger r
  unfolding dispatch
  dispatch-IsMoved TransitionEvent.mark_ready p c k =
      let (_, _, _, _, k') = mark_ready_parts v s id task h known r p k in
      apply_simple_transition-IsMoved v s id task h known r _ _ refl refl k'
  dispatch-IsMoved TransitionEvent.claim_accepted p c k =
      let (_, k') = claim_accepted_parts v s id task h known r p k in
      apply_simple_transition-IsMoved v s id task h known r _ _ refl refl k'
  dispatch-IsMoved TransitionEvent.dependency_cancelled p c k =
      let (_, _, _, _, k', _) = dependency_cancelled_parts v s id task h known r p k in
      apply_simple_transition-IsMoved v s id task h known r _ _ refl refl k'
  dispatch-IsMoved TransitionEvent.execution_wait p c k =
      let (_, _, _, _, k') = execution_wait_parts v s id task h known r p k in
      apply_simple_transition-IsMoved v s id task h known r _ _ refl refl k'
  dispatch-IsMoved TransitionEvent.completion_accepted p c k =
      let (_, _, _, _, k') = completion_accepted_parts v s id task h known r p k in
      apply_simple_transition-IsMoved v s id task h known r _ _ refl refl k'
  dispatch-IsMoved TransitionEvent.resume_accepted p c k =
      apply_simple_transition-IsMoved v s id task h known r _ _ refl refl
        (continue_waiting_parts v s id task h known r ContinuationKind.resume _ p k)
  dispatch-IsMoved TransitionEvent.retry_accepted p c k =
      apply_simple_transition-IsMoved v s id task h known r _ _ refl refl
        (continue_waiting_parts v s id task h known r ContinuationKind.retry _ p k)
  dispatch-IsMoved TransitionEvent.cancel p c k = absurd (ground arith)
  dispatch-IsMoved TransitionEvent.interruption_verified p c k = absurd (ground arith)

-- The Task that the command names is in the snapshot and not terminal, and the event is one that
-- leads on from its state.
pub record IsTaken ⦃u : Unicode⦄ (s : DomainSnapshot) (id : Text) (trigger : TransitionEvent)
    (p : Value) (r : DomainSuccess DomainMutation) : Type 0 where
  pub task : Task
  pub known : task_of s.tasks id ≡ some task
  pub alive : is_terminal task.state ≡ false
  pub step : Step task.state trigger (target_of trigger)
  pub done : dispatch trigger s task p ≡ ok r

-- The snapshot and the command read, and the transition they ask for is taken.
pub record IsTransition ⦃u : Unicode⦄ (v command : Value) (r : DomainSuccess DomainMutation)
    : Type 0 where
  pub s : DomainSnapshot
  pub fields : Fields
  pub id : Text
  pub trigger : TransitionEvent
  pub read : parse_snapshot v SnapshotValidationMode.complete ≡ ok s
  pub given :
      parse_task_command command ("taskId" ∷ "event" ∷ "targetState" ∷ "payload" ∷ []) ≡ ok fields
  pub named : identifier (get fields "taskId") invalid_input ≡ ok id
  pub asked : transition_event (get fields "event") invalid_input ≡ ok trigger
  pub taken : IsTaken s id trigger (get fields "payload") r

module _ ⦃u : Unicode⦄ (s : DomainSnapshot) (v1 v2 v3 p : Value) (r : DomainSuccess DomainMutation)
    (k : transition_from s v1 v2 v3 p ≡ ok r) where
  fields_of_transition_from :
      (id : Text) × (trigger : TransitionEvent) × (target : TaskState) × (identifier v1
          invalid_input
        ≡ ok id)
      × (transition_event v2 invalid_input ≡ ok trigger)
      × (task_state v3 invalid_input ≡ ok target)
  unfolding transition_from
  fields_of_transition_from = ground arith

  guards_of_transition_from :
      (id : Text) (trigger : TransitionEvent) (target : TaskState)
      → identifier v1 invalid_input ≡ ok id
      → transition_event v2 invalid_input ≡ ok trigger
      → task_state v3 invalid_input ≡ ok target
      → (task : Task) × (task_of s.tasks id ≡ some task)
        × (is_terminal task.state ≡ false)
        × (is_legal task.state target trigger ≡ true)
        × (dispatch trigger s task p ≡ ok r)
  unfolding transition_from
  guards_of_transition_from id trigger target a b c = ground arith

module _ ⦃u : Unicode⦄ (v command_input : Value) (r : DomainSuccess DomainMutation)
    (k : transition_task v command_input ≡ ok r) where
  reads_of_transition_task :
      (s : DomainSnapshot) × (command : Fields) × (parse_snapshot v SnapshotValidationMode.complete
        ≡ ok s)
      × (parse_task_command command_input ("taskId" ∷ "event" ∷ "targetState" ∷ "payload" ∷ [])
          ≡ ok command)
      × (transition_from s
            (get command "taskId")
            (get command "event")
            (get command "targetState")
            (get command "payload")
          ≡ ok r)
  unfolding transition_task
  reads_of_transition_task = ground arith

  transition_from-IsTaken :
      (s : DomainSnapshot) (v1 v2 v3 p : Value)
      → transition_from s v1 v2 v3 p ≡ ok r
      → (id : Text) × (trigger : TransitionEvent) × (identifier v1 invalid_input ≡ ok id)
        × (transition_event v2 invalid_input ≡ ok trigger)
        × IsTaken s id trigger p r
  transition_from-IsTaken s v1 v2 v3 p q =
      let (id, trigger, target, a, b, c) = fields_of_transition_from s v1 v2 v3 p r q in
      let (task, known, alive, legal, d) =
        guards_of_transition_from s v1 v2 v3 p r q id trigger target a b c in
      (
        id,
        trigger,
        a,
        b,
        record {
          task = task;
          known = known;
          alive = alive;
          step = Step-is_legal task.state target trigger legal;
          done = d;
        },
      )

  -- A transition that is accepted reads its snapshot and its command; the Task that the command names is in the snapshot and not terminal; the step from its state by the event is one of the legal steps; and the result is what the event's handler returns.
  pub transition_task-IsTransition : IsTransition v command_input r
  transition_task-IsTransition =
      let (s, fields, read, given, q) = reads_of_transition_task in
      let (id, trigger, named, asked, taken) = transition_from-IsTaken s _ _ _ _ q in
      record {
        s = s;
        fields = fields;
        id = id;
        trigger = trigger;
        read = read;
        given = given;
        named = named;
        asked = asked;
        taken = taken;
      }

-- A transition that is accepted and whose event neither cancels nor reports an interruption leaves a well-formed snapshot in which the Task it names is in the state to which the event leads, at its next revision.
pub transition_task_effect :
    ⦃u : Unicode⦄ (v command : Value) (r : DomainSuccess DomainMutation)
    (k : IsTransition v command r)
    → is_cancelling k.trigger ≡ false
    → IsMoved k.taken.task k.trigger r
transition_task_effect v command r k e =
    dispatch-IsMoved v k.s k.id k.taken.task k.read k.taken.known r k.trigger _ e k.taken.done

-- A claim that is accepted is of a Task that is ready, whose Project is registered and enabled, and each of whose dependencies is registered and completed.
pub transition_task_claim :
    ⦃u : Unicode⦄ (v command : Value) (r : DomainSuccess DomainMutation)
    (k : IsTransition v command r)
    → k.trigger ≡ TransitionEvent.claim_accepted
    → (k.taken.task.state ≡ TaskState.ready)
      × IsEnabled (project_of k.s.projects k.taken.task.project_id)
      × All (λ d. IsCompleted (task_of k.s.tasks d)) k.taken.task.dependency_ids
unfolding dispatch
transition_task_claim v command r k e =
    let done =
      subst (λ t. dispatch t k.s k.taken.task (get k.fields "payload") ≡ ok r) e k.taken.done in
    let (eligible, _) =
      claim_accepted_parts v k.s k.id k.taken.task k.read k.taken.known r _ done in
    (eligibility_reasons_iff k.s k.taken.task).0 eligible
