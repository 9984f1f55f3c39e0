-- ===== src/Scheduler/Invocation.antt =====
-- src/scheduler-port.ts: what a call of the backend returns.
use agent_task_orchestrator.Base.{
  ◌≡◌, refl, ◌⊎◌, inl, inr, [], ◌∷◌, Option, none, some, arith, subst, sym, ap, ◌∙◌,
}
use agent_task_orchestrator.Domain.Value.{Value, Fields, Unicode, get}
use agent_task_orchestrator.Reader.{Dates, exact_record}
use agent_task_orchestrator.Ports.{is_retryable, is_ambiguous}
use agent_task_orchestrator.Scheduler.Requests.{
  SchedulerBackendRequest, parse_scheduler_backend_request,
}
use agent_task_orchestrator.Scheduler.Port.{
  SchedulerBackendReceipt, SchedulerBackendFailure, SchedulerBackendResult,
}
use agent_task_orchestrator.Scheduler.Results.{
  result_by, parse_scheduler_backend_result, SchedulerBackend, answer, or_invalid, result_of_answer,
  invoke_for, invoke_scheduler_backend,
}
use agent_task_orchestrator.Scheduler.Again.{parse_scheduler_backend_request-again}
use agent_task_orchestrator.Scheduler.Receipts.{
  IsReceiptFor, IsFlagged, received_from-IsReceiptFor, failed_from-IsFlagged,
}

module _ ⦃u : Unicode⦄ ⦃d : Dates⦄ where
  -- A receipt for the request, or a failure with the flags of its category.
  abbrev IsResultFor : SchedulerBackendRequest → SchedulerBackendResult → Type 0
  IsResultFor request (SchedulerBackendResult.received r) = IsReceiptFor request r
  IsResultFor request (SchedulerBackendResult.failed f) = IsFlagged f

  result_by-IsResultFor :
      (o p : Option Fields) (request : SchedulerBackendRequest) (result : SchedulerBackendResult)
      → result_by o p request ≡ some result
      → IsResultFor request result
  result_by-IsResultFor (some f) p request result h =
      let (r, e, is_for) =
        received_from-IsReceiptFor request (get f "ok") (get f "receipt") result h in
      subst (IsResultFor request) (sym e) is_for
  result_by-IsResultFor none (some f) request result h =
      let (r, e, flagged) = failed_from-IsFlagged (get f "ok") (get f "error") result h in
      subst (IsResultFor request) (sym e) flagged
  result_by-IsResultFor none none request result h = absurd (cc)

  parse_scheduler_backend_result-IsResultFor :
      (v w : Value) (request : SchedulerBackendRequest) (result : SchedulerBackendResult)
      → parse_scheduler_backend_request w ≡ some request
      → parse_scheduler_backend_result v request ≡ some result
      → IsResultFor request result
  unfolding parse_scheduler_backend_result
  parse_scheduler_backend_result-IsResultFor v w request result read h =
      result_by-IsResultFor (exact_record v ("ok" ∷ "receipt" ∷ []))
        (exact_record v ("ok" ∷ "error" ∷ [])) request result
        (rw (parse_scheduler_backend_request-again w request read) at h)

  -- A failure that the port makes itself.
  abbrev IsOfPort : SchedulerBackendResult → Type 0
  IsOfPort result =
      (f : SchedulerBackendFailure) × (result ≡ SchedulerBackendResult.failed f) × IsFlagged f

  -- A result that the adapter's answer to the request reads as.
  abbrev pub IsOfAdapter :
      SchedulerBackend → SchedulerBackendRequest → SchedulerBackendResult → Type 0
  IsOfAdapter backend request result =
      (raw : Value) × (answer backend request ≡ some raw)
      × (parse_scheduler_backend_result raw request ≡ some result)

  or_invalid-cases :
      (o : Option SchedulerBackendResult) → IsOfPort (or_invalid o) ⊎ (o ≡ some (or_invalid o))
  unfolding is_retryable is_ambiguous
  or_invalid-cases none = inl (_, refl, (refl, refl))
  or_invalid-cases (some result) = inr refl

  result_of_answer-cases :
      (request : SchedulerBackendRequest) (o : Option Value)
      → IsOfPort (result_of_answer request o)
        ⊎ ((raw : Value) × (o ≡ some raw)
            × (parse_scheduler_backend_result raw request ≡ some (result_of_answer request o)))
  unfolding is_retryable is_ambiguous
  result_of_answer-cases request none = inl (_, refl, (refl, refl))
  result_of_answer-cases request (some raw) =
      elim (or_invalid-cases (parse_scheduler_backend_result raw request)) [
        | inl x ↦ inl x
        | inr e ↦ inr (raw, refl, e)
      ]

  invoke_for-cases :
      (backend : SchedulerBackend) (o : Option SchedulerBackendRequest)
      → IsOfPort (invoke_for backend o)
        ⊎ ((request : SchedulerBackendRequest) × (o ≡ some request)
            × IsOfAdapter backend request (invoke_for backend o))
  unfolding is_retryable is_ambiguous
  invoke_for-cases backend none = inl (_, refl, (refl, refl))
  invoke_for-cases backend (some request) =
      elim (result_of_answer-cases request (answer backend request)) [
        | inl x ↦ inl x
        | inr y ↦ inr (request, refl, y)
      ]

  -- Whatever the adapter does, a receipt that `invokeSchedulerBackend` returns is the adapter's answer to the request that the value reads as, repeats the identity of this request, names no other registration than the one asked for, and fits together.
  pub invoke_scheduler_backend_receipt :
      (backend : SchedulerBackend) (v : Value) (r : SchedulerBackendReceipt)
      → invoke_scheduler_backend backend v ≡ SchedulerBackendResult.received r
      → (request : SchedulerBackendRequest) × (parse_scheduler_backend_request v ≡ some request)
        × IsOfAdapter backend request (SchedulerBackendResult.received r)
        × IsReceiptFor request r
  unfolding invoke_scheduler_backend
  invoke_scheduler_backend_receipt backend v r h =
      elim (invoke_for-cases backend (parse_scheduler_backend_request v)) [
        | inl x ↦ let (f, e, _) = x in absurd (ground arith)
        | inr y ↦
            let (request, read, (raw, answered, e)) = y in
            let result : parse_scheduler_backend_result raw request
                ≡ some (SchedulerBackendResult.received r) =
              e ∙ ap some h in
            (
              request,
              read,
              (raw, answered, result),
              parse_scheduler_backend_result-IsResultFor raw v request
                  (SchedulerBackendResult.received r) read result,
            )
      ]

  -- Whatever the adapter does, a failure that `invokeSchedulerBackend` returns is retryable or ambiguous exactly as the table says for its category.
  pub invoke_scheduler_backend_failure :
      (backend : SchedulerBackend) (v : Value) (f : SchedulerBackendFailure)
      → invoke_scheduler_backend backend v ≡ SchedulerBackendResult.failed f
      → IsFlagged f
  unfolding invoke_scheduler_backend
  invoke_scheduler_backend_failure backend v f h =
      elim (invoke_for-cases backend (parse_scheduler_backend_request v)) [
        | inl x ↦
            let (g, e, flagged) = x in
            let same_failure : g ≡ f = ground arith in subst IsFlagged same_failure flagged
        | inr y ↦
            let (request, read, (raw, answered, e)) = y in
            parse_scheduler_backend_result-IsResultFor raw v request
              (SchedulerBackendResult.failed f) read (e ∙ ap some h)
      ]
