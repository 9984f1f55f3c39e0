-- ===== src/Domain/ClaimWitnesses.antt =====
-- The accepted transition of a claim, at a concrete snapshot.
use agent_task_orchestrator.Base.{◌≡◌, refl, [], ◌∷◌, some, text, All}
use agent_task_orchestrator.Domain.States.{TaskState, TransitionEvent}
use agent_task_orchestrator.Domain.Errors.{
  ok, DomainSuccess, DomainEventType, DetailValue, DomainEvent, event,
}
use agent_task_orchestrator.Domain.Records.{Task, DomainMutation}
use agent_task_orchestrator.Domain.Value.{Value, Fields, end, field, identifier, transition_event}
use agent_task_orchestrator.Domain.Encode.{constant, natural}
use agent_task_orchestrator.Domain.Graph.{task_of}
use agent_task_orchestrator.Domain.Snapshot.{project_of}
use agent_task_orchestrator.Domain.Mutation.{commit, parse_task_command, invalid_input}
use agent_task_orchestrator.Domain.Mutation.Effect.{IsCommitted, commit-IsCommitted}
use agent_task_orchestrator.Domain.Eligibility.Decision.{IsEnabled, IsCompleted}
use agent_task_orchestrator.Domain.Transition.{dispatch, transition_task}
use agent_task_orchestrator.Domain.Transition.Effect.{Step, IsMoved}
use agent_task_orchestrator.Domain.Transition.Moves.{
  IsTransition, transition_task-IsTransition, transition_task_effect, transition_task_claim,
}
use agent_task_orchestrator.Domain.Samples.{
  ascii, task, projects, tasks, given, snapshot, program, parse-given,
}

abbrev task_d : Task
task_d = task "d" TaskState.ready 4 []

abbrev payload : Value
payload = Value.object (
    field "externalAcceptance"
      (Value.object (
        field "taskId" (constant "d") (
          field "taskRevision" (natural 4) (
            field "authorization" (constant "accepted")
              (field "reliability" (constant "accepted") end)))))
      end)

abbrev fields : Fields
fields = field "taskId" (constant "d") (
    field "event" (constant "claim_accepted")
      (field "targetState" (constant "running") (field "payload" payload end)))

abbrev claim : Value
claim = Value.object fields

abbrev claimed : DomainSuccess DomainMutation
claimed = record {
  value = record {
    snapshot = record {
      projects = projects;
      tasks =
          task "a" TaskState.idea 1 []
          ∷ task "b" TaskState.ready 2 (text "a" ∷ [])
          ∷ task "c" TaskState.running 3 (text "a" ∷ text "b" ∷ [])
          ∷ task "d" TaskState.running 5 []
          ∷ [];
    };
    changed_task_ids = text "d" ∷ [];
  };
  events =
      event DomainEventType.transitioned (text "d") (some 4) 5 (
        ("domainEvent", DetailValue.trigger TransitionEvent.claim_accepted)
        ∷ ("fromState", DetailValue.state TaskState.ready)
        ∷ ("toState", DetailValue.state TaskState.running)
        ∷ [])
      ∷ [];
}

claim_accepted : transition_task given claim ≡ ok claimed
unfolding program
claim_accepted = refl

transition_task-IsTransition_example : IsTransition given claim claimed
transition_task-IsTransition_example =
    transition_task-IsTransition given claim claimed claim_accepted

claim_reads :
    parse_task_command claim ("taskId" ∷ "event" ∷ "targetState" ∷ "payload" ∷ []) ≡ ok fields
unfolding program
claim_reads = refl

claim_names : identifier (constant "d") invalid_input ≡ ok (text "d")
unfolding program
claim_names = refl

claim_asks :
    transition_event (constant "claim_accepted") invalid_input ≡ ok TransitionEvent.claim_accepted
unfolding program
claim_asks = refl

d_of_tasks : task_of tasks (text "d") ≡ some task_d
unfolding program
d_of_tasks = refl

claim_done : dispatch TransitionEvent.claim_accepted snapshot task_d payload ≡ ok claimed
unfolding program
claim_done = refl

abbrev transition : IsTransition given claim claimed
transition = record {
  s = snapshot;
  fields = fields;
  id = text "d";
  trigger = TransitionEvent.claim_accepted;
  read = parse-given;
  given = claim_reads;
  named = claim_names;
  asked = claim_asks;
  taken = record {
    task = task_d;
    known = d_of_tasks;
    alive = refl;
    step = Step.claim;
    done = claim_done;
  };
}

transition_task_effect_example : IsMoved task_d TransitionEvent.claim_accepted claimed
transition_task_effect_example = transition_task_effect given claim claimed transition refl

transition_task_claim_example :
    (TaskState.ready ≡ TaskState.ready)
    × IsEnabled (project_of projects (text "p"))
    × All (λ d. IsCompleted (task_of tasks d)) []
transition_task_claim_example = transition_task_claim given claim claimed transition refl

abbrev running_d : Task
running_d = task "d" TaskState.running 4 []

abbrev announce : Task → DomainEvent
announce c = event DomainEventType.transitioned c.id (some 4) c.revision (
    ("domainEvent", DetailValue.trigger TransitionEvent.claim_accepted)
    ∷ ("fromState", DetailValue.state TaskState.ready)
    ∷ ("toState", DetailValue.state TaskState.running)
    ∷ [])

d_committed : commit snapshot task_d running_d announce ≡ ok claimed
unfolding program
d_committed = refl

commit-IsCommitted_example : IsCommitted snapshot task_d running_d announce claimed
commit-IsCommitted_example =
    commit-IsCommitted given snapshot (text "d") task_d running_d announce claimed parse-given
      d_of_tasks refl d_committed
