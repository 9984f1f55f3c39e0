-- ===== src/Domain/States.antt =====
-- src/domain.ts: Task states, waiting reasons, transition events with their names,
-- and the table of legal transitions.
use agent_task_orchestrator.Base.{
  Text, String, Bool, true, false, List, [], ◌∷◌, Option, none, some, if◌then◌else◌, text, same,
}

pub data TaskState : Type 0 where
  idea ready running waiting completed cancelled : TaskState

pub data WaitingReason : Type 0 where
  human_input authorization_required execution_failed policy_gate_failed : WaitingReason
  resource_exhausted rate_limited disk_full workspace_conflict : WaitingReason
  dependency_cancelled stale_lease ambiguous_external_state backend_incompatible : WaitingReason

pub data TransitionEvent : Type 0 where
  mark_ready cancel claim_accepted dependency_cancelled execution_wait : TransitionEvent
  completion_accepted interruption_verified resume_accepted retry_accepted : TransitionEvent

abbrev pub state_name : TaskState → String
state_name TaskState.idea = "idea"
state_name TaskState.ready = "ready"
state_name TaskState.running = "running"
state_name TaskState.waiting = "waiting"
state_name TaskState.completed = "completed"
state_name TaskState.cancelled = "cancelled"

abbrev pub reason_name : WaitingReason → String
reason_name WaitingReason.human_input = "human_input"
reason_name WaitingReason.authorization_required = "authorization_required"
reason_name WaitingReason.execution_failed = "execution_failed"
reason_name WaitingReason.policy_gate_failed = "policy_gate_failed"
reason_name WaitingReason.resource_exhausted = "resource_exhausted"
reason_name WaitingReason.rate_limited = "rate_limited"
reason_name WaitingReason.disk_full = "disk_full"
reason_name WaitingReason.workspace_conflict = "workspace_conflict"
reason_name WaitingReason.dependency_cancelled = "dependency_cancelled"
reason_name WaitingReason.stale_lease = "stale_lease"
reason_name WaitingReason.ambiguous_external_state = "ambiguous_external_state"
reason_name WaitingReason.backend_incompatible = "backend_incompatible"

abbrev pub event_name : TransitionEvent → String
event_name TransitionEvent.mark_ready = "mark_ready"
event_name TransitionEvent.cancel = "cancel"
event_name TransitionEvent.claim_accepted = "claim_accepted"
event_name TransitionEvent.dependency_cancelled = "dependency_cancelled"
event_name TransitionEvent.execution_wait = "execution_wait"
event_name TransitionEvent.completion_accepted = "completion_accepted"
event_name TransitionEvent.interruption_verified = "interruption_verified"
event_name TransitionEvent.resume_accepted = "resume_accepted"
event_name TransitionEvent.retry_accepted = "retry_accepted"

-- `TASK_STATES`
abbrev pub task_states : List TaskState
task_states =
    TaskState.idea ∷ TaskState.ready ∷ TaskState.running ∷ TaskState.waiting ∷ TaskState.completed
    ∷ TaskState.cancelled ∷ []

-- `WAITING_REASONS`
abbrev pub waiting_reasons : List WaitingReason
waiting_reasons =
    WaitingReason.human_input ∷ WaitingReason.authorization_required
    ∷ WaitingReason.execution_failed ∷ WaitingReason.policy_gate_failed
    ∷ WaitingReason.resource_exhausted ∷ WaitingReason.rate_limited ∷ WaitingReason.disk_full
    ∷ WaitingReason.workspace_conflict ∷ WaitingReason.dependency_cancelled
    ∷ WaitingReason.stale_lease ∷ WaitingReason.ambiguous_external_state
    ∷ WaitingReason.backend_incompatible ∷ []

pub record TaskTransition : Type 0 where
  pub source : TaskState
  pub target : TaskState
  pub trigger : TransitionEvent

abbrev edge : TaskState → TaskState → TransitionEvent → TaskTransition
edge source target trigger = record { source = source; target = target; trigger = trigger }

-- `TASK_TRANSITIONS`
abbrev pub task_transitions : List TaskTransition
task_transitions =
    edge TaskState.idea TaskState.ready TransitionEvent.mark_ready
    ∷ edge TaskState.idea TaskState.cancelled TransitionEvent.cancel
    ∷ edge TaskState.ready TaskState.running TransitionEvent.claim_accepted
    ∷ edge TaskState.ready TaskState.waiting TransitionEvent.dependency_cancelled
    ∷ edge TaskState.ready TaskState.cancelled TransitionEvent.cancel
    ∷ edge TaskState.running TaskState.waiting TransitionEvent.execution_wait
    ∷ edge TaskState.running TaskState.completed TransitionEvent.completion_accepted
    ∷ edge TaskState.running TaskState.cancelled TransitionEvent.interruption_verified
    ∷ edge TaskState.waiting TaskState.running TransitionEvent.resume_accepted
    ∷ edge TaskState.waiting TaskState.running TransitionEvent.retry_accepted
    ∷ edge TaskState.waiting TaskState.cancelled TransitionEvent.cancel
    ∷ []

-- The item of a list of constants that is spelled like a text.
unfoldable pub spelled : {A : Type 0} → (A → String) → List A → Text → Option A
spelled name [] t = none
spelled name (a ∷ as_) t = if same (text (name a)) t then some a else spelled name as_ t

-- Equality of states and of events, `===` on the strings of the source.
abbrev pub same_state : TaskState → TaskState → Bool
same_state TaskState.idea TaskState.idea = true
same_state TaskState.ready TaskState.ready = true
same_state TaskState.running TaskState.running = true
same_state TaskState.waiting TaskState.waiting = true
same_state TaskState.completed TaskState.completed = true
same_state TaskState.cancelled TaskState.cancelled = true
same_state _ _ = false

abbrev pub same_event : TransitionEvent → TransitionEvent → Bool
same_event TransitionEvent.mark_ready TransitionEvent.mark_ready = true
same_event TransitionEvent.cancel TransitionEvent.cancel = true
same_event TransitionEvent.claim_accepted TransitionEvent.claim_accepted = true
same_event TransitionEvent.dependency_cancelled TransitionEvent.dependency_cancelled = true
same_event TransitionEvent.execution_wait TransitionEvent.execution_wait = true
same_event TransitionEvent.completion_accepted TransitionEvent.completion_accepted = true
same_event TransitionEvent.interruption_verified TransitionEvent.interruption_verified = true
same_event TransitionEvent.resume_accepted TransitionEvent.resume_accepted = true
same_event TransitionEvent.retry_accepted TransitionEvent.retry_accepted = true
same_event _ _ = false

-- `TERMINAL_STATES`
abbrev pub is_terminal : TaskState → Bool
is_terminal TaskState.completed = true
is_terminal TaskState.cancelled = true
is_terminal _ = false

-- `GRAPH_MUTABLE_STATES`
abbrev pub is_graph_mutable : TaskState → Bool
is_graph_mutable TaskState.idea = true
is_graph_mutable TaskState.ready = true
is_graph_mutable TaskState.waiting = true
is_graph_mutable _ = false
