-- ===== src/Domain/Records.antt =====
-- src/domain.ts: Projects, Tasks and the facts they carry, snapshots, and the
-- inputs and outputs of the domain operations, with the source's fields. `null` is `none`.
use agent_task_orchestrator.Base.{Text, ℕ, ℤ, Bool, List, Option}
use agent_task_orchestrator.Domain.States.{TaskState, WaitingReason}
use agent_task_orchestrator.Domain.Errors.{EligibilityReason, ContinuationReason}

pub record Project : Type 0 where
  pub id : Text
  pub enabled : Bool

pub record WaitingMetadataInput : Type 0 where
  pub reason : WaitingReason
  pub phase : Text
  pub required_action : Text
  pub last_error_code : Text
  pub last_error_summary : Option Text
  pub retryable : Bool
  pub retry_count : ℕ
  pub retry_after : Option ℤ
  pub execution_id : Option Text
  pub workspace_revision : Option Text
  pub backend_thread_id : Option Text

-- The interface extends the input by one field.
pub record WaitingMetadata : Type 0 where
  pub input : WaitingMetadataInput
  pub open input use *
  pub waiting_task_revision : ℕ

pub record CompletionFact : Type 0 where
  pub decision_id : Text
  pub accepted_task_revision : ℕ

-- The two events that a cancellation fact may name.
pub data CancellationEvent : Type 0 where
  cancel interruption_verified : CancellationEvent

pub record CancellationFact : Type 0 where
  pub trigger : CancellationEvent
  pub reason : Text
  pub verification_id : Option Text
  pub accepted_task_revision : ℕ

pub record Task : Type 0 where
  pub id : Text
  pub project_id : Text
  pub state : TaskState
  pub revision : ℕ
  pub body : Text
  pub parent_id : Option Text
  pub dependency_ids : List Text
  pub waiting : Option WaitingMetadata
  pub completion : Option CompletionFact
  pub cancellation : Option CancellationFact
  pub supersedes_task_id : Option Text

pub record DomainSnapshot : Type 0 where
  pub projects : List Project
  pub tasks : List Task

pub record DomainMutation : Type 0 where
  pub snapshot : DomainSnapshot
  pub changed_task_ids : List Text

pub record ProjectDomainMutation : Type 0 where
  pub snapshot : DomainSnapshot
  pub changed_project_ids : List Text

pub record ExternalAcceptance : Type 0 where
  pub task_id : Text
  pub task_revision : ℕ

pub record CompletionDecision : Type 0 where
  pub decision_id : Text
  pub task_id : Text
  pub task_revision : ℕ

pub data DispositionStatus : Type 0 where
  absent stopped : DispositionStatus

pub record ExecutionDisposition : Type 0 where
  pub receipt_id : Text
  pub task_id : Text
  pub task_revision : ℕ
  pub execution_id : Option Text
  pub status : DispositionStatus

-- The one value of `status` is "accepted".
pub record RequiredActionReceipt : Type 0 where
  pub receipt_id : Text
  pub task_id : Text
  pub task_revision : ℕ
  pub required_action : Text

pub data ContinuationKind : Type 0 where
  resume retry : ContinuationKind

pub record WaitingContinuationCommand : Type 0 where
  pub task_id : Text
  pub expected_task_revision : ℕ
  pub read_revision : Text
  pub kind : ContinuationKind
  pub required_action_receipt : RequiredActionReceipt
  pub target_execution_id : Option Text
  pub target_workspace_revision : Option Text
  pub target_backend_thread_id : Option Text
  pub trusted_time : ℤ

pub record TaskEligibilityDecision : Type 0 where
  pub task_id : Text
  pub read_revision : Text
  pub eligible : Bool
  pub reasons : List EligibilityReason

pub record WaitingContinuationDecision : Type 0 where
  pub task_id : Text
  pub read_revision : Text
  pub kind : ContinuationKind
  pub eligible : Bool
  pub reasons : List ContinuationReason

pub record DependentWaitingInput : Type 0 where
  pub task_id : Text
  pub waiting : WaitingMetadataInput
