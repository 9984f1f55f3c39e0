-- ===== src/Scheduler/Meaning.antt =====
-- src/scheduler-port.ts: what the codes of a receipt mean, as a table.
use agent_task_orchestrator.Base.{◌≡◌, ◌≢◌, subst, refl, true, Option, none, some, arith}
use agent_task_orchestrator.Scheduler.Requests.{SchedulerOperation}
use agent_task_orchestrator.Scheduler.Port.{
  SchedulerBackendReceipt, SchedulerExternalState, SchedulerReceiptOutcome, SchedulerReceiptCode,
  is_set, is_meant,
}

-- What each code means: the operation that it answers, its outcome and the state that it reports.
pub data IsMeaning
    : SchedulerOperation
      → SchedulerReceiptCode
      → SchedulerReceiptOutcome
      → SchedulerExternalState
      → Type 0 where
  registered :
      IsMeaning SchedulerOperation.register SchedulerReceiptCode.registered
        SchedulerReceiptOutcome.succeeded SchedulerExternalState.present
  already_registered :
      IsMeaning SchedulerOperation.register SchedulerReceiptCode.already_registered
        SchedulerReceiptOutcome.succeeded SchedulerExternalState.present
  unregistered :
      IsMeaning SchedulerOperation.register SchedulerReceiptCode.refused
        SchedulerReceiptOutcome.refused SchedulerExternalState.absent
  inspected_present :
      IsMeaning SchedulerOperation.inspect SchedulerReceiptCode.inspected_present
        SchedulerReceiptOutcome.succeeded SchedulerExternalState.present
  inspected_absent :
      IsMeaning SchedulerOperation.inspect SchedulerReceiptCode.inspected_absent
        SchedulerReceiptOutcome.succeeded SchedulerExternalState.absent
  removed :
      IsMeaning SchedulerOperation.remove SchedulerReceiptCode.removed
        SchedulerReceiptOutcome.succeeded SchedulerExternalState.absent
  already_absent :
      IsMeaning SchedulerOperation.remove SchedulerReceiptCode.already_absent
        SchedulerReceiptOutcome.succeeded SchedulerExternalState.absent
  still_present :
      IsMeaning SchedulerOperation.remove SchedulerReceiptCode.still_present
        SchedulerReceiptOutcome.refused SchedulerExternalState.present
  kept :
      IsMeaning SchedulerOperation.remove SchedulerReceiptCode.refused
        SchedulerReceiptOutcome.refused SchedulerExternalState.present
  unknown :
      {o : SchedulerOperation}
      → IsMeaning o SchedulerReceiptCode.ambiguous SchedulerReceiptOutcome.ambiguous
          SchedulerExternalState.ambiguous

-- A row, for an outcome and a state that are those of the row.
at_row :
    {o : SchedulerOperation} {c : SchedulerReceiptCode} {x : SchedulerReceiptOutcome}
    {y : SchedulerExternalState} (x' : SchedulerReceiptOutcome) (y' : SchedulerExternalState)
    → IsMeaning o c x' y'
    → x' ≡ x
    → y' ≡ y
    → IsMeaning o c x y
at_row {o} {c} {x} {y} x' y' m e f =
    subst (λ k. IsMeaning o c x k) f (subst (λ k. IsMeaning o c k y') e m)

-- The meaning of a code for which the tests of the source are met, row by row.
pub is_meant-IsMeaning :
    (o : SchedulerOperation) (c : SchedulerReceiptCode) (r : SchedulerBackendReceipt)
    → is_meant o c r ≡ true
    → IsMeaning o c r.outcome r.external_state
is_meant-IsMeaning SchedulerOperation.register SchedulerReceiptCode.registered r h =
    at_row SchedulerReceiptOutcome.succeeded SchedulerExternalState.present IsMeaning.registered
      (ground arith) (ground arith)
is_meant-IsMeaning SchedulerOperation.register SchedulerReceiptCode.already_registered r h =
    at_row SchedulerReceiptOutcome.succeeded SchedulerExternalState.present
      IsMeaning.already_registered (ground arith) (ground arith)
is_meant-IsMeaning SchedulerOperation.register SchedulerReceiptCode.refused r h =
    at_row SchedulerReceiptOutcome.refused SchedulerExternalState.absent IsMeaning.unregistered
      (ground arith) (ground arith)
is_meant-IsMeaning SchedulerOperation.inspect SchedulerReceiptCode.inspected_present r h =
    at_row SchedulerReceiptOutcome.succeeded SchedulerExternalState.present
      IsMeaning.inspected_present (ground arith) (ground arith)
is_meant-IsMeaning SchedulerOperation.inspect SchedulerReceiptCode.inspected_absent r h =
    at_row SchedulerReceiptOutcome.succeeded SchedulerExternalState.absent
      IsMeaning.inspected_absent (ground arith) (ground arith)
is_meant-IsMeaning SchedulerOperation.remove SchedulerReceiptCode.removed r h =
    at_row SchedulerReceiptOutcome.succeeded SchedulerExternalState.absent IsMeaning.removed
      (ground arith) (ground arith)
is_meant-IsMeaning SchedulerOperation.remove SchedulerReceiptCode.already_absent r h =
    at_row SchedulerReceiptOutcome.succeeded SchedulerExternalState.absent IsMeaning.already_absent
      (ground arith) (ground arith)
is_meant-IsMeaning SchedulerOperation.remove SchedulerReceiptCode.still_present r h =
    at_row SchedulerReceiptOutcome.refused SchedulerExternalState.present IsMeaning.still_present
      (ground arith) (ground arith)
is_meant-IsMeaning SchedulerOperation.remove SchedulerReceiptCode.refused r h =
    at_row SchedulerReceiptOutcome.refused SchedulerExternalState.present IsMeaning.kept
      (ground arith) (ground arith)
is_meant-IsMeaning SchedulerOperation.register SchedulerReceiptCode.ambiguous r h =
    at_row SchedulerReceiptOutcome.ambiguous SchedulerExternalState.ambiguous IsMeaning.unknown
      (ground arith) (ground arith)
is_meant-IsMeaning SchedulerOperation.inspect SchedulerReceiptCode.ambiguous r h =
    at_row SchedulerReceiptOutcome.ambiguous SchedulerExternalState.ambiguous IsMeaning.unknown
      (ground arith) (ground arith)
is_meant-IsMeaning SchedulerOperation.remove SchedulerReceiptCode.ambiguous r h =
    at_row SchedulerReceiptOutcome.ambiguous SchedulerExternalState.ambiguous IsMeaning.unknown
      (ground arith) (ground arith)
is_meant-IsMeaning _ _ r h = absurd (cc)

is_set-true {ℓ} : {A : Type ℓ} (o : Option A) → o ≢ none → is_set o ≡ true
is_set-true none h = absurd (h refl)
is_set-true (some a) h = refl

-- The other direction: a row of the table, and what it asks of the identifier and the rest, meet the
-- tests of the source.
pub IsMeaning-is_meant :
    {o : SchedulerOperation} {c : SchedulerReceiptCode} {x : SchedulerReceiptOutcome}
    {y : SchedulerExternalState} (r : SchedulerBackendReceipt)
    → IsMeaning o c x y
    → r.outcome ≡ x
    → r.external_state ≡ y
    → (y ≡ SchedulerExternalState.absent
        → (r.external_registration_id ≡ none) × (r.enabled ≡ none) × (r.next_trigger_at ≡ none))
    → (y ≡ SchedulerExternalState.present
        → (r.external_registration_id ≢ none) × (r.enabled ≢ none))
    → (o ≡ SchedulerOperation.register
        → x ≡ SchedulerReceiptOutcome.succeeded
        → r.enabled ≡ some true)
    → is_meant o c r ≡ true
IsMeaning-is_meant r IsMeaning.registered e f absent present enabled =
    rw (e, f, is_set-true r.external_registration_id (present refl).0, enabled refl refl) refl
IsMeaning-is_meant r IsMeaning.already_registered e f absent present enabled =
    rw (e, f, is_set-true r.external_registration_id (present refl).0, enabled refl refl) refl
IsMeaning-is_meant r IsMeaning.unregistered e f absent present enabled =
    let (i, j, k) = absent refl in rw (e, f, i, j, k) refl
IsMeaning-is_meant r IsMeaning.inspected_present e f absent present enabled =
    let (i, j) = present refl in
    rw (e, f, is_set-true r.external_registration_id i, is_set-true r.enabled j) refl
IsMeaning-is_meant r IsMeaning.inspected_absent e f absent present enabled =
    let (i, j, k) = absent refl in rw (e, f, i, j, k) refl
IsMeaning-is_meant r IsMeaning.removed e f absent present enabled =
    let (i, j, k) = absent refl in rw (e, f, i, j, k) refl
IsMeaning-is_meant r IsMeaning.already_absent e f absent present enabled =
    let (i, j, k) = absent refl in rw (e, f, i, j, k) refl
IsMeaning-is_meant r IsMeaning.still_present e f absent present enabled =
    let (i, j) = present refl in
    rw (e, f, is_set-true r.external_registration_id i, is_set-true r.enabled j) refl
IsMeaning-is_meant r IsMeaning.kept e f absent present enabled =
    let (i, j) = present refl in
    rw (e, f, is_set-true r.external_registration_id i, is_set-true r.enabled j) refl
IsMeaning-is_meant r (IsMeaning.unknown {o = SchedulerOperation.register}) e f absent present
      enabled =
    rw (e, f) refl
IsMeaning-is_meant r (IsMeaning.unknown {o = SchedulerOperation.inspect}) e f absent present
      enabled =
    rw (e, f) refl
IsMeaning-is_meant r (IsMeaning.unknown {o = SchedulerOperation.remove}) e f absent present
      enabled =
    rw (e, f) refl
