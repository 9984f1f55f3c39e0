-- ===== src/Domain/Commands.antt =====
-- src/domain.ts: the commands as the callers of the domain write them.
use agent_task_orchestrator.Base.{Text, Option}
use agent_task_orchestrator.Domain.Value.{Value, end, field}
use agent_task_orchestrator.Domain.Encode.{nullable_text_value}

-- `CreateTaskCommand`
abbrev pub create_task_command : Text → Text → Text → Option Text → Value
create_task_command id project_id body supersedes = Value.object (
    field "id" (Value.string id) (
      field "projectId" (Value.string project_id) (
        field "body" (Value.string body)
          (field "supersedesTaskId" (nullable_text_value supersedes) end))))

-- `UpdateTaskBodyCommand`
abbrev pub update_task_body_command : Text → Text → Value
update_task_body_command task_id body =
    Value.object (field "taskId" (Value.string task_id) (field "body" (Value.string body) end))

-- `SetTaskParentCommand`
abbrev pub set_task_parent_command : Text → Option Text → Value
set_task_parent_command task_id parent_id =
    Value.object
      (field "taskId" (Value.string task_id) (field "parentId" (nullable_text_value parent_id) end))

-- `TaskDependencyCommand`
abbrev pub task_dependency_command : Text → Text → Value
task_dependency_command task_id dependency_id =
    Value.object (
      field "taskId" (Value.string task_id) (field "dependencyId" (Value.string dependency_id) end))

-- `SetTaskSupersessionCommand`
abbrev pub set_task_supersession_command : Text → Option Text → Value
set_task_supersession_command task_id supersedes = Value.object (
    field "taskId" (Value.string task_id)
      (field "supersedesTaskId" (nullable_text_value supersedes) end))
