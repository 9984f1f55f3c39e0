-- ===== src/Scheduler/Receipts.antt =====
-- src/scheduler-port.ts: what an accepted result says.
use agent_task_orchestrator.Base.{
  Text, ℕ, ◌≡◌, ◌∙◌, ◌↔◌, ◌≢◌, refl, true, false, not, Option, none, some, arith, same→eq,
}
use agent_task_orchestrator.Domain.Value.{Value, Unicode, get, is_constant}
use agent_task_orchestrator.Reader.{
  or_null_by, timestamp, truth_value, Dates, exact_record, bind-some, check-some, equal_text,
  equal_number, equal_text-eq, equal_number-eq,
}
use agent_task_orchestrator.Ports.{
  bounded_text, failure_name, failure_categories, name, named, is_retryable, is_ambiguous,
}
use agent_task_orchestrator.Scheduler.Requests.{
  contract_id, operation_name, scheduler_operations, SchedulerOperation, SchedulerBackendRequest,
  operation_of, base_of,
}
use agent_task_orchestrator.Scheduler.Port.{
  SchedulerBackendReceipt, SchedulerBackendFailure, SchedulerBackendResult, SchedulerExternalState,
  SchedulerReceiptOutcome, SchedulerReceiptCode, equal_operation,
  scheduler_receipt_semantics_are_valid,
}
use agent_task_orchestrator.Scheduler.Meaning.{IsMeaning, is_meant-IsMeaning, IsMeaning-is_meant}
use agent_task_orchestrator.Scheduler.Results.{
  receipt_keys, failure_keys, is_truth, failure_from, parse_failure, receipt_from, receipt_of,
  parse_receipt, received_from, failed_from, requested_registration, differ,
}

-- What a receipt says fits together: its code means what it says, an absent registration has no identifier, no switch and no next
-- trigger, a present one has an identifier and a switch, outcome, code and state are ambiguous at
-- once, a registration that succeeded is present and enabled, and a removal that succeeded leaves none.
pub record IsCoherent (r : SchedulerBackendReceipt) : Type 0 where
  pub of_absent :
      r.external_state ≡ SchedulerExternalState.absent
      → (r.external_registration_id ≡ none) × (r.enabled ≡ none) × (r.next_trigger_at ≡ none)
  pub of_present :
      r.external_state ≡ SchedulerExternalState.present
      → (r.external_registration_id ≢ none) × (r.enabled ≢ none)
  pub of_outcome :
      (r.outcome ≡ SchedulerReceiptOutcome.ambiguous)
      ↔ (r.external_state ≡ SchedulerExternalState.ambiguous)
  pub of_code :
      (r.code ≡ SchedulerReceiptCode.ambiguous)
      ↔ (r.external_state ≡ SchedulerExternalState.ambiguous)
  pub of_registration :
      r.operation ≡ SchedulerOperation.register
      → r.outcome ≡ SchedulerReceiptOutcome.succeeded
      → (r.external_state ≡ SchedulerExternalState.present) × (r.enabled ≡ some true)
  pub of_removal :
      r.operation ≡ SchedulerOperation.remove
      → r.outcome ≡ SchedulerReceiptOutcome.succeeded
      → r.external_state ≡ SchedulerExternalState.absent
  pub meaning : IsMeaning r.operation r.code r.outcome r.external_state

-- The semantics of a receipt are valid for the source exactly when its operation, code, outcome and state are a row of the table, and its identifier, its switch and its next trigger are those of the state: none of the three where the registration is absent, the first two where it is present, and the switch on where a registration succeeded.
pub scheduler_receipt_semantics_are_valid-IsCoherent :
    (r : SchedulerBackendReceipt) → (scheduler_receipt_semantics_are_valid r ≡ true) ↔ IsCoherent r
unfolding scheduler_receipt_semantics_are_valid
scheduler_receipt_semantics_are_valid-IsCoherent r = (
  λ h. record {
    meaning = is_meant-IsMeaning r.operation r.code r h;
    of_absent = λ e. ground arith;
    of_present = λ e. ground arith;
    of_outcome = ground arith;
    of_code = ground arith;
    of_registration = λ e f. ground arith;
    of_removal = λ e f. ground arith;
  },
  λ k.
      IsMeaning-is_meant r k.meaning refl refl k.of_absent k.of_present
        (λ e f. (k.of_registration e f).1),
)

-- A receipt that answers a request: it repeats the request's identity, and names no other
-- registration than the one that the request asks for.
pub record IsReceiptFor (request : SchedulerBackendRequest) (r : SchedulerBackendReceipt)
    : Type 0 where
  pub operation : r.operation ≡ operation_of request
  pub operation_id : r.operation_id ≡ (base_of request).operation_id
  pub schedule_id : r.schedule_id ≡ (base_of request).schedule_id
  pub config_revision : r.config_revision ≡ (base_of request).config_revision
  pub registration :
      (asked told : Text)
      → requested_registration request ≡ some asked
      → r.external_registration_id ≡ some told
      → told ≡ asked
  pub coherent : IsCoherent r

told-asked :
    (o p : Option Text) (asked told : Text)
    → not (differ o p) ≡ true
    → o ≡ some asked
    → p ≡ some told
    → told ≡ asked
told-asked o p asked told h i j = ground (arith, same→eq told asked)

-- The identity alone.
abbrev IsIdentity : SchedulerBackendRequest → SchedulerBackendReceipt → Type 0
IsIdentity request r =
    (r.operation ≡ operation_of request)
    × (r.operation_id ≡ (base_of request).operation_id)
    × (r.schedule_id ≡ (base_of request).schedule_id)
    × (r.config_revision ≡ (base_of request).config_revision)

module _ ⦃u : Unicode⦄ ⦃d : Dates⦄ where
  receipt_of-parts :
      (id : Text) (operation : SchedulerOperation) (operation_id schedule_id : Text) (config : ℕ)
      (v6 v7 v8 v9 v10 v11 v12 v13 : Value) (r : SchedulerBackendReceipt)
      → receipt_of id operation operation_id schedule_id config v6 v7 v8 v9 v10 v11 v12 v13 ≡ some r
      → (r.operation ≡ operation)
        × (r.operation_id ≡ operation_id)
        × (r.schedule_id ≡ schedule_id)
        × (r.config_revision ≡ config)
  unfolding receipt_of
  receipt_of-parts id operation operation_id schedule_id config v6 v7 v8 v9 v10 v11 v12 v13 r h =
      ground arith

  receipt_from-IsIdentity :
      (request : SchedulerBackendRequest) (v1 v2 v3 v4 v5 v6 v7 v8 v9 v10 v11 v12 v13 : Value)
      (r : SchedulerBackendReceipt)
      → receipt_from request v1 v2 v3 v4 v5 v6 v7 v8 v9 v10 v11 v12 v13 ≡ some r
      → IsIdentity request r
  unfolding receipt_from
  receipt_from-IsIdentity request v1 v2 v3 v4 v5 v6 v7 v8 v9 v10 v11 v12 v13 r h =
      let (id, _, h1) = bind-some (name v1) _ r h in
      let (operation, _, h2) = bind-some (named operation_name scheduler_operations v2) _ r h1 in
      let (same_operation, h3) =
        check-some (equal_operation operation (operation_of request)) _ r h2 in
      let (operation_id, e, h4) = bind-some (equal_text (base_of request).operation_id v3) _ r h3 in
      let (schedule_id, f, h5) = bind-some (equal_text (base_of request).schedule_id v4) _ r h4 in
      let (config, g, h6) = bind-some (equal_number (base_of request).config_revision v5) _ r h5 in
      let (p, q, s, t) =
        receipt_of-parts id operation operation_id schedule_id config v6 v7 v8 v9 v10 v11 v12 v13 r
          h6 in
      (
        ground arith,
        q ∙ equal_text-eq (base_of request).operation_id v3 operation_id e,
        s ∙ equal_text-eq (base_of request).schedule_id v4 schedule_id f,
        t ∙ equal_number-eq (base_of request).config_revision v5 config g,
      )

  parse_receipt-IsIdentity :
      (request : SchedulerBackendRequest) (v : Value) (r : SchedulerBackendReceipt)
      → parse_receipt request v ≡ some r
      → IsIdentity request r
  unfolding parse_receipt
  parse_receipt-IsIdentity request v r h =
      let (f, _, h1) = bind-some (exact_record v receipt_keys) _ r h in
      let (_, h2) = check-some (is_constant (get f "contractId") contract_id) _ r h1 in
      receipt_from-IsIdentity request (get f "receiptId") (get f "operation") (get f "operationId")
        (get f "scheduleId") (get f "configRevision") (get f "externalRegistrationId")
        (get f "externalState") (get f "outcome") (get f "code") (get f "enabled")
        (get f "nextTriggerAt") (get f "evidenceReference") (get f "observedAt") r h2

  pub received_from-IsReceiptFor :
      (request : SchedulerBackendRequest) (v1 v2 : Value) (result : SchedulerBackendResult)
      → received_from request v1 v2 ≡ some result
      → (r : SchedulerBackendReceipt) × (result ≡ SchedulerBackendResult.received r)
        × IsReceiptFor request r
  unfolding received_from
  received_from-IsReceiptFor request v1 v2 result h =
      let (_, h1) = check-some (is_truth true v1) _ result h in
      let (r, e, h2) = bind-some (parse_receipt request v2) _ result h1 in
      let (valid, h3) = check-some (scheduler_receipt_semantics_are_valid r) _ result h2 in
      let (alike, h4) =
        check-some (not (differ (requested_registration request) r.external_registration_id)) _
          result h3 in
      let (operation, operation_id, schedule_id, config) =
        parse_receipt-IsIdentity request v2 r e in
      (
        r,
        ground arith,
        record {
          operation = operation;
          operation_id = operation_id;
          schedule_id = schedule_id;
          config_revision = config;
          registration = λ asked told i j.
              told-asked (requested_registration request) r.external_registration_id asked told
                alike i j;
          coherent = (scheduler_receipt_semantics_are_valid-IsCoherent r).0 valid;
        },
      )

  -- The flags of a failure are those of its category.
  abbrev pub IsFlagged : SchedulerBackendFailure → Type 0
  IsFlagged f = (f.retryable ≡ is_retryable f.category) × (f.ambiguous ≡ is_ambiguous f.category)

  parse_failure-IsFlagged :
      (v : Value) (f : SchedulerBackendFailure) → parse_failure v ≡ some f → IsFlagged f
  unfolding parse_failure failure_from
  parse_failure-IsFlagged v f h =
      let (r, _, h1) = bind-some (exact_record v failure_keys) _ f h in
      let (category, _, h2) =
        bind-some (named failure_name failure_categories (get r "category")) _ f h1 in
      let (code, _, h3) = bind-some (name (get r "code")) _ f h2 in
      let (retryable, _, h4) = bind-some (truth_value (get r "retryable")) _ f h3 in
      let (ambiguous, _, h5) = bind-some (truth_value (get r "ambiguous")) _ f h4 in
      let (after, _, h6) = bind-some (or_null_by timestamp (get r "retryAfter")) _ f h5 in
      let (evidence, _, h7) =
        bind-some (or_null_by (bounded_text 128) (get r "evidenceReference")) _ f h6 in
      ground arith

  pub failed_from-IsFlagged :
      (v1 v2 : Value) (result : SchedulerBackendResult)
      → failed_from v1 v2 ≡ some result
      → (f : SchedulerBackendFailure) × (result ≡ SchedulerBackendResult.failed f) × IsFlagged f
  unfolding failed_from
  failed_from-IsFlagged v1 v2 result h =
      let (_, h1) = check-some (is_truth false v1) _ result h in
      let (f, e, h2) = bind-some (parse_failure v2) _ result h1 in
      (f, ground arith, parse_failure-IsFlagged v2 f e)
