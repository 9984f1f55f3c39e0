-- ===== src/Scheduler/Witnesses.antt =====
-- The theorems on the scheduler's port, applied to the samples.
use agent_task_orchestrator.Base.{◌≡◌, ◌↔◌, refl, some, true}
use agent_task_orchestrator.Domain.Samples.{ascii}
use agent_task_orchestrator.Authorization.Samples.{any_date}
use agent_task_orchestrator.Scheduler.Requests.{
  SchedulerBackendRequest, parse_scheduler_backend_request, request_value,
}
use agent_task_orchestrator.Scheduler.Port.{
  SchedulerBackendResult, scheduler_receipt_semantics_are_valid,
}
use agent_task_orchestrator.Scheduler.Again.{parse_scheduler_backend_request-again}
use agent_task_orchestrator.Scheduler.Receipts.{
  IsCoherent, IsReceiptFor, IsFlagged, scheduler_receipt_semantics_are_valid-IsCoherent,
}
use agent_task_orchestrator.Scheduler.Invocation.{
  IsOfAdapter, invoke_scheduler_backend_receipt, invoke_scheduler_backend_failure,
}
use agent_task_orchestrator.Scheduler.Samples.{
  request, receipt, failure, willing, busy, request_accepted, receipt_returned, failure_returned,
}

parse_scheduler_backend_request-again_example :
    parse_scheduler_backend_request (request_value request) ≡ some request
parse_scheduler_backend_request-again_example =
    parse_scheduler_backend_request-again (request_value request) request request_accepted

receipt_valid : scheduler_receipt_semantics_are_valid receipt ≡ true
unfolding scheduler_receipt_semantics_are_valid
receipt_valid = refl

scheduler_receipt_semantics_are_valid-IsCoherent_example :
    (scheduler_receipt_semantics_are_valid receipt ≡ true) ↔ IsCoherent receipt
scheduler_receipt_semantics_are_valid-IsCoherent_example =
    scheduler_receipt_semantics_are_valid-IsCoherent receipt

invoke_scheduler_backend_receipt_example :
    (asked : SchedulerBackendRequest) × (parse_scheduler_backend_request (request_value request)
      ≡ some asked)
    × IsOfAdapter willing asked (SchedulerBackendResult.received receipt)
    × IsReceiptFor asked receipt
invoke_scheduler_backend_receipt_example =
    invoke_scheduler_backend_receipt willing (request_value request) receipt receipt_returned

invoke_scheduler_backend_failure_example : IsFlagged failure
invoke_scheduler_backend_failure_example =
    invoke_scheduler_backend_failure busy (request_value request) failure failure_returned
