-- ===== src/Domain/Errors.antt =====
-- src/domain.ts: the error codes, errors and events with their details, and the result type. The
-- English message of an error is not modelled; its code and its details are.
use agent_task_orchestrator.Base.{
  Text, String, ℕ, ◌≡◌, refl, Bool, true, false, List, Option, none, some,
}
use agent_task_orchestrator.Domain.States.{TaskState, WaitingReason, TransitionEvent}

-- `DOMAIN_ERROR_CODES`
pub data DomainErrorCode : Type 0 where
  invalid_input invalid_snapshot task_not_found project_not_found : DomainErrorCode
  project_already_exists task_already_exists illegal_transition : DomainErrorCode
  terminal_immutable mutation_not_allowed no_op revision_exhausted : DomainErrorCode
  project_disabled task_not_eligible dependency_not_found dependency_cancelled : DomainErrorCode
  dependency_self dependency_duplicate dependency_cycle parent_not_found : DomainErrorCode
  parent_self parent_project_mismatch parent_cycle supersession_not_found : DomainErrorCode
  supersession_self external_precondition_failed continuation_not_eligible : DomainErrorCode

pub data ContinuationReason : Type 0 where
  state_not_waiting task_revision_stale project_not_registered : ContinuationReason
  project_disabled dependency_not_registered dependency_not_completed : ContinuationReason
  required_action_receipt_stale identity_mismatch execution_id_required : ContinuationReason
  not_retryable retry_too_early : ContinuationReason

pub data EligibilityReason : Type 0 where
  state_not_ready project_not_registered project_disabled : EligibilityReason
  dependency_not_registered dependency_not_completed : EligibilityReason

-- The template texts by which a parse error names the place of a value.
pub data Place : Type 0 where
  projects_at tasks_at dependents_at : ℕ → Place
  task_named dependent_named : Text → Place
  waiting_of completion_of cancellation_of : Place → Place

-- A value of `details`: a text, `null`, or a text that is one of the constants or templates.
pub data DetailValue : Type 0 where
  null : DetailValue
  text : Text → DetailValue
  state : TaskState → DetailValue
  trigger : TransitionEvent → DetailValue
  waiting_reason : WaitingReason → DetailValue
  continuation_reason : ContinuationReason → DetailValue
  place : Place → DetailValue

-- `?? null`, and a field that may be `null`.
abbrev pub or_null : Option Text → DetailValue
or_null none = DetailValue.null
or_null (some t) = DetailValue.text t

pub record DomainError : Type 0 where
  pub code : DomainErrorCode
  pub details : List (String × DetailValue)

-- `domainError`
abbrev pub domain_error : DomainErrorCode → List (String × DetailValue) → DomainError
domain_error code details = record { code = code; details = details }

pub data DomainEventType : Type 0 where
  created transitioned body_changed waiting_changed parent_changed : DomainEventType
  dependency_added dependency_removed supersession_changed : DomainEventType

pub record DomainEvent : Type 0 where
  pub type : DomainEventType
  pub task_id : Text
  pub task_revision_before : Option ℕ
  pub task_revision_after : ℕ
  pub details : List (String × DetailValue)

-- `event`
abbrev pub event : DomainEventType → Text → Option ℕ → ℕ → List (String × DetailValue) → DomainEvent
event type task_id earlier later details = record {
  type = type;
  task_id = task_id;
  task_revision_before = earlier;
  task_revision_after = later;
  details = details;
}

-- `Parsed`: `err` is `{ ok: false, error }`.
pub data Parsed {ℓ} (A : Type ℓ) : Type ℓ where
  ok : A → Parsed A
  err : DomainError → Parsed A

-- `if (!result.ok) return result`, and the use of its value.
infixl 5 ◌>>=◌ ◌>>◌
abbrev pub ◌>>=◌ {ℓ κ} : {T : Type ℓ} {S : Type κ} → Parsed T → (T → Parsed S) → Parsed S
err failed >>= next = err failed
ok value >>= next = next value

abbrev pub ◌>>◌ {ℓ} : {S : Type ℓ} → Parsed (Unit {0}) → Parsed S → Parsed S
checked >> rest = checked >>= λ _. rest

-- `if (test) return failure(e)`
abbrev pub fail_if : Bool → DomainError → Parsed (Unit {0})
fail_if true e = err e
fail_if false e = ok tt

-- `if (value === undefined) return failure(e)`
abbrev pub require {ℓ} : {A : Type ℓ} → Option A → DomainError → Parsed A
require none e = err e
require (some a) e = ok a

-- `DomainSuccess`; a `DomainResult` is a `Parsed` of it.
pub record DomainSuccess (A : Type 0) : Type 0 where
  pub value : A
  pub events : List DomainEvent

abbrev pub DomainResult : Type 0 → Type 0
DomainResult A = Parsed (DomainSuccess A)

abbrev pub success : {A : Type 0} → A → List DomainEvent → DomainResult A
success value events = ok (record { value = value; events = events })

-- A step that succeeds reads a value, from which the rest goes on.
pub >>=-eq-ok {ℓ κ} :
    {T : Type ℓ} {S : Type κ} (step : Parsed T) (next : T → Parsed S) {out : S}
    → (step >>= next) ≡ ok out
    → (value : T) × (step ≡ ok value) × (next value ≡ ok out)
>>=-eq-ok (err failed) next h = cc
>>=-eq-ok (ok value) next h = (value, refl, h)
