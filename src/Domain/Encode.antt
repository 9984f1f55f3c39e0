-- ===== src/Domain/Encode.antt =====
-- The objects of the domain as the values that its own parsers read again: each record with its
-- fields under the source's names.
use agent_task_orchestrator.Base.{Text, String, ℕ, ℤ, pos, List, [], ◌∷◌, Option, none, some, text}
use agent_task_orchestrator.Domain.States.{state_name, reason_name}
use agent_task_orchestrator.Domain.Records.{
  Project, WaitingMetadataInput, WaitingMetadata, CompletionFact, CancellationFact,
  CancellationEvent, Task,
}
use agent_task_orchestrator.Domain.Value.{Value, Items, Fields, nil, item, end, field}

abbrev pub constant : String → Value
constant s = Value.string (text s)

abbrev pub nullable_text_value : Option Text → Value
nullable_text_value none = Value.null
nullable_text_value (some a) = Value.string a

abbrev pub nullable_integer_value : Option ℤ → Value
nullable_integer_value none = Value.null
nullable_integer_value (some a) = Value.number a

abbrev pub natural : ℕ → Value
natural n = Value.number (pos n)

abbrev pub text_items : List Text → Items
text_items [] = nil
text_items (x ∷ xs) = item (Value.string x) (text_items xs)

abbrev pub project_value : Project → Value
project_value p =
    Value.object (field "id" (Value.string p.id) (field "enabled" (Value.boolean p.enabled) end))

abbrev pub waiting_input_fields : WaitingMetadataInput → Fields → Fields
waiting_input_fields w rest = field "reason" (constant (reason_name w.reason)) (
    field "phase" (Value.string w.phase) (
      field "requiredAction" (Value.string w.required_action) (
        field "lastErrorCode" (Value.string w.last_error_code) (
          field "lastErrorSummary" (nullable_text_value w.last_error_summary) (
            field "retryable" (Value.boolean w.retryable) (
              field "retryCount" (natural w.retry_count) (
                field "retryAfter" (nullable_integer_value w.retry_after) (
                  field "executionId" (nullable_text_value w.execution_id) (
                    field "workspaceRevision" (nullable_text_value w.workspace_revision) (
                      field "backendThreadId" (nullable_text_value w.backend_thread_id)
                        rest))))))))))

abbrev pub waiting_input_value : WaitingMetadataInput → Value
waiting_input_value w = Value.object (waiting_input_fields w end)

abbrev pub waiting_value : WaitingMetadata → Value
waiting_value w = Value.object (
    waiting_input_fields w.input
      (field "waitingTaskRevision" (natural w.waiting_task_revision) end))

abbrev pub completion_value : CompletionFact → Value
completion_value c = Value.object (
    field "decisionId" (Value.string c.decision_id)
      (field "acceptedTaskRevision" (natural c.accepted_task_revision) end))

abbrev pub cancellation_event_name : CancellationEvent → String
cancellation_event_name CancellationEvent.cancel = "cancel"
cancellation_event_name CancellationEvent.interruption_verified = "interruption_verified"

abbrev pub cancellation_value : CancellationFact → Value
cancellation_value c = Value.object (
    field "event" (constant (cancellation_event_name c.trigger)) (
      field "reason" (Value.string c.reason) (
        field "verificationId" (nullable_text_value c.verification_id)
          (field "acceptedTaskRevision" (natural c.accepted_task_revision) end))))

abbrev pub nullable_waiting_value : Option WaitingMetadata → Value
nullable_waiting_value none = Value.null
nullable_waiting_value (some a) = waiting_value a

abbrev pub nullable_completion_value : Option CompletionFact → Value
nullable_completion_value none = Value.null
nullable_completion_value (some a) = completion_value a

abbrev pub nullable_cancellation_value : Option CancellationFact → Value
nullable_cancellation_value none = Value.null
nullable_cancellation_value (some a) = cancellation_value a

abbrev pub task_value : Task → Value
task_value t = Value.object (
    field "id" (Value.string t.id) (
      field "projectId" (Value.string t.project_id) (
        field "state" (constant (state_name t.state)) (
          field "revision" (natural t.revision) (
            field "body" (Value.string t.body) (
              field "parentId" (nullable_text_value t.parent_id) (
                field "dependencyIds" (Value.array (text_items t.dependency_ids)) (
                  field "waiting" (nullable_waiting_value t.waiting) (
                    field "completion" (nullable_completion_value t.completion) (
                      field "cancellation" (nullable_cancellation_value t.cancellation) (
                        field "supersedesTaskId" (nullable_text_value t.supersedes_task_id)
                          end)))))))))))

abbrev pub project_items : List Project → Items
project_items [] = nil
project_items (p ∷ ps) = item (project_value p) (project_items ps)

abbrev pub task_items : List Task → Items
task_items [] = nil
task_items (t ∷ ts) = item (task_value t) (task_items ts)

unfoldable pub snapshot_value : List Project → List Task → Value
snapshot_value projects tasks = Value.object (
    field "projects" (Value.array (project_items projects))
      (field "tasks" (Value.array (task_items tasks)) end))
