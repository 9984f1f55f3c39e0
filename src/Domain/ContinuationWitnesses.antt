-- ===== src/Domain/ContinuationWitnesses.antt =====
-- A waiting Task and the command that resumes it.
use agent_task_orchestrator.Base.{◌≡◌, refl, true, ◌↔◌, [], none, some, text, is_empty, All, pos}
use agent_task_orchestrator.Domain.States.{TaskState, WaitingReason}
use agent_task_orchestrator.Domain.Records.{
  Task, WaitingMetadata, ContinuationKind, WaitingContinuationCommand,
}
use agent_task_orchestrator.Domain.Graph.{task_of}
use agent_task_orchestrator.Domain.Snapshot.{project_of}
use agent_task_orchestrator.Domain.Eligibility.Decision.{IsEnabled, IsCompleted}
use agent_task_orchestrator.Domain.Continuation.{continuation_reasons}
use agent_task_orchestrator.Domain.Continuation.Decision.{
  IsCurrent, IsContinuable, continuation_reasons_iff,
}
use agent_task_orchestrator.Domain.Samples.{task, projects, tasks, snapshot}

abbrev waiting : WaitingMetadata
waiting = record {
  input = record {
    reason = WaitingReason.human_input;
    phase = text "execute";
    required_action = text "approve";
    last_error_code = text "none";
    last_error_summary = none;
    retryable = true;
    retry_count = 0;
    retry_after = none;
    execution_id = some (text "e");
    workspace_revision = none;
    backend_thread_id = none;
  };
  waiting_task_revision = 6;
}

abbrev waiting_task : Task
waiting_task = record (task "w" TaskState.waiting 6 []) { waiting = some waiting }

abbrev resume : WaitingContinuationCommand
resume = record {
  task_id = text "w";
  expected_task_revision = 6;
  read_revision = text "r";
  kind = ContinuationKind.resume;
  required_action_receipt = record {
    receipt_id = text "receipt";
    task_id = text "w";
    task_revision = 6;
    required_action = text "approve";
  };
  target_execution_id = some (text "e");
  target_workspace_revision = none;
  target_backend_thread_id = none;
  trusted_time = pos 0;
}

continuation_reasons_iff_example :
    (is_empty (continuation_reasons snapshot waiting_task resume) ≡ true) ↔ (
      IsCurrent waiting_task waiting resume
      × IsEnabled (project_of projects (text "p"))
      × All (λ d. IsCompleted (task_of tasks d)) []
      × IsContinuable ContinuationKind.resume waiting (pos 0))
continuation_reasons_iff_example =
    continuation_reasons_iff snapshot waiting_task waiting resume refl
