-- ===== src/Scheduler/Port.antt =====
-- src/scheduler-port.ts: receipts and failures, and the semantics of a receipt.
use agent_task_orchestrator.Base.{
  Text, String, ℕ, Bool, true, false, not, ◌&&◌, List, [], ◌∷◌, Option, none, some,
}
use agent_task_orchestrator.Ports.{FailureCategory}
use agent_task_orchestrator.Scheduler.Requests.{SchedulerOperation}

pub data SchedulerExternalState : Type 0 where
  present absent ambiguous : SchedulerExternalState

abbrev pub external_state_name : SchedulerExternalState → String
external_state_name SchedulerExternalState.present = "present"
external_state_name SchedulerExternalState.absent = "absent"
external_state_name SchedulerExternalState.ambiguous = "ambiguous"

abbrev pub scheduler_external_states : List SchedulerExternalState
scheduler_external_states =
    SchedulerExternalState.present ∷ SchedulerExternalState.absent
    ∷ SchedulerExternalState.ambiguous ∷ []

pub data SchedulerReceiptCode : Type 0 where
  registered already_registered inspected_present inspected_absent : SchedulerReceiptCode
  removed already_absent still_present refused ambiguous : SchedulerReceiptCode

abbrev pub receipt_code_name : SchedulerReceiptCode → String
receipt_code_name SchedulerReceiptCode.registered = "registered"
receipt_code_name SchedulerReceiptCode.already_registered = "already_registered"
receipt_code_name SchedulerReceiptCode.inspected_present = "inspected_present"
receipt_code_name SchedulerReceiptCode.inspected_absent = "inspected_absent"
receipt_code_name SchedulerReceiptCode.removed = "removed"
receipt_code_name SchedulerReceiptCode.already_absent = "already_absent"
receipt_code_name SchedulerReceiptCode.still_present = "still_present"
receipt_code_name SchedulerReceiptCode.refused = "refused"
receipt_code_name SchedulerReceiptCode.ambiguous = "ambiguous"

abbrev pub scheduler_receipt_codes : List SchedulerReceiptCode
scheduler_receipt_codes =
    SchedulerReceiptCode.registered ∷ SchedulerReceiptCode.already_registered
    ∷ SchedulerReceiptCode.inspected_present ∷ SchedulerReceiptCode.inspected_absent
    ∷ SchedulerReceiptCode.removed ∷ SchedulerReceiptCode.already_absent
    ∷ SchedulerReceiptCode.still_present ∷ SchedulerReceiptCode.refused
    ∷ SchedulerReceiptCode.ambiguous ∷ []

pub data SchedulerReceiptOutcome : Type 0 where
  succeeded refused ambiguous : SchedulerReceiptOutcome

abbrev pub outcome_name : SchedulerReceiptOutcome → String
outcome_name SchedulerReceiptOutcome.succeeded = "succeeded"
outcome_name SchedulerReceiptOutcome.refused = "refused"
outcome_name SchedulerReceiptOutcome.ambiguous = "ambiguous"

abbrev pub outcomes : List SchedulerReceiptOutcome
outcomes =
    SchedulerReceiptOutcome.succeeded ∷ SchedulerReceiptOutcome.refused
    ∷ SchedulerReceiptOutcome.ambiguous ∷ []

pub record SchedulerBackendReceipt : Type 0 where
  pub receipt_id : Text
  pub operation : SchedulerOperation
  pub operation_id : Text
  pub schedule_id : Text
  pub config_revision : ℕ
  pub external_registration_id : Option Text
  pub external_state : SchedulerExternalState
  pub outcome : SchedulerReceiptOutcome
  pub code : SchedulerReceiptCode
  pub enabled : Option Bool
  pub next_trigger_at : Option Text
  pub evidence_reference : Option Text
  pub observed_at : Text

pub record SchedulerBackendFailure : Type 0 where
  pub category : FailureCategory
  pub code : Text
  pub retryable : Bool
  pub ambiguous : Bool
  pub retry_after : Option Text
  pub evidence_reference : Option Text

pub data SchedulerBackendResult : Type 0 where
  received : SchedulerBackendReceipt → SchedulerBackendResult
  failed : SchedulerBackendFailure → SchedulerBackendResult

-- `===` on the texts of the constants.
abbrev pub equal_operation : SchedulerOperation → SchedulerOperation → Bool
equal_operation SchedulerOperation.register SchedulerOperation.register = true
equal_operation SchedulerOperation.inspect SchedulerOperation.inspect = true
equal_operation SchedulerOperation.remove SchedulerOperation.remove = true
equal_operation _ _ = false

abbrev is_outcome : SchedulerReceiptOutcome → SchedulerReceiptOutcome → Bool
is_outcome SchedulerReceiptOutcome.succeeded SchedulerReceiptOutcome.succeeded = true
is_outcome SchedulerReceiptOutcome.refused SchedulerReceiptOutcome.refused = true
is_outcome SchedulerReceiptOutcome.ambiguous SchedulerReceiptOutcome.ambiguous = true
is_outcome _ _ = false

abbrev is_state : SchedulerExternalState → SchedulerExternalState → Bool
is_state SchedulerExternalState.present SchedulerExternalState.present = true
is_state SchedulerExternalState.absent SchedulerExternalState.absent = true
is_state SchedulerExternalState.ambiguous SchedulerExternalState.ambiguous = true
is_state _ _ = false

abbrev pub is_set {ℓ} : {A : Type ℓ} → Option A → Bool
is_set none = false
is_set (some a) = true

abbrev is_enabled : Option Bool → Bool
is_enabled (some b) = b
is_enabled none = false

-- The tests that the branches of `schedulerReceiptSemanticsAreValid` share.
abbrev tells_presence : SchedulerReceiptOutcome → SchedulerBackendReceipt → Bool
tells_presence outcome r =
    is_outcome r.outcome outcome
    && is_state r.external_state SchedulerExternalState.present
    && is_set r.external_registration_id

abbrev tells_absence : SchedulerReceiptOutcome → SchedulerBackendReceipt → Bool
tells_absence outcome r =
    is_outcome r.outcome outcome
    && is_state r.external_state SchedulerExternalState.absent
    && not (is_set r.external_registration_id)
    && not (is_set r.enabled)
    && not (is_set r.next_trigger_at)

abbrev tells_ambiguity : SchedulerBackendReceipt → Bool
tells_ambiguity r =
    is_outcome r.outcome SchedulerReceiptOutcome.ambiguous
    && is_state r.external_state SchedulerExternalState.ambiguous

abbrev pub is_meant : SchedulerOperation → SchedulerReceiptCode → SchedulerBackendReceipt → Bool
is_meant SchedulerOperation.register SchedulerReceiptCode.registered r =
    tells_presence SchedulerReceiptOutcome.succeeded r && is_enabled r.enabled
is_meant SchedulerOperation.register SchedulerReceiptCode.already_registered r =
    tells_presence SchedulerReceiptOutcome.succeeded r && is_enabled r.enabled
is_meant SchedulerOperation.register SchedulerReceiptCode.refused r =
    tells_absence SchedulerReceiptOutcome.refused r
is_meant SchedulerOperation.inspect SchedulerReceiptCode.inspected_present r =
    tells_presence SchedulerReceiptOutcome.succeeded r && is_set r.enabled
is_meant SchedulerOperation.inspect SchedulerReceiptCode.inspected_absent r =
    tells_absence SchedulerReceiptOutcome.succeeded r
is_meant SchedulerOperation.remove SchedulerReceiptCode.removed r =
    tells_absence SchedulerReceiptOutcome.succeeded r
is_meant SchedulerOperation.remove SchedulerReceiptCode.already_absent r =
    tells_absence SchedulerReceiptOutcome.succeeded r
is_meant SchedulerOperation.remove SchedulerReceiptCode.still_present r =
    tells_presence SchedulerReceiptOutcome.refused r && is_set r.enabled
is_meant SchedulerOperation.remove SchedulerReceiptCode.refused r =
    tells_presence SchedulerReceiptOutcome.refused r && is_set r.enabled
is_meant _ SchedulerReceiptCode.ambiguous r = tells_ambiguity r
is_meant _ _ r = false

-- `schedulerReceiptSemanticsAreValid`
unfoldable pub scheduler_receipt_semantics_are_valid : SchedulerBackendReceipt → Bool
scheduler_receipt_semantics_are_valid r = is_meant r.operation r.code r
