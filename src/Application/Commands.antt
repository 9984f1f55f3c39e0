-- ===== src/Application/Commands.antt =====
-- src/application-domain.ts: the commands on Tasks and Projects.
use agent_task_orchestrator.Base.{
  Text, String, Bool, true, false, not, ◌&&◌, ◌||◌, List, [], ◌∷◌, Option, none, some, text, same,
  if◌then◌else◌, ◌==◌, any, keep, includes, sort,
}
use agent_task_orchestrator.Domain.States.{TaskState, WaitingReason, same_state}
use agent_task_orchestrator.Domain.Errors.{Parsed, ok, err, DomainErrorCode, DomainResult}
use agent_task_orchestrator.Domain.Records.{
  Task, Project, DomainSnapshot, DomainMutation, ProjectDomainMutation, WaitingMetadataInput,
}
use agent_task_orchestrator.Domain.Value.{Value, Items, Fields, Unicode}
use agent_task_orchestrator.Domain.Encode.{constant, snapshot_value, waiting_input_value}
use agent_task_orchestrator.Domain.Commands.{
  create_task_command, update_task_body_command, set_task_parent_command, task_dependency_command,
}
use agent_task_orchestrator.Domain.Graph.{task_of}
use agent_task_orchestrator.Domain.Snapshot.{project_of}
use agent_task_orchestrator.Domain.Projects.{register_project, set_project_enabled}
use agent_task_orchestrator.Domain.Tasks.{create_task, update_task_body}
use agent_task_orchestrator.Domain.Links.{
  set_task_parent, add_task_dependency, remove_task_dependency,
}
use agent_task_orchestrator.Domain.Transition.{transition_task}
use agent_task_orchestrator.Application.Model.{
  ApplicationErrorCode, ApplicationDetail, ApplicationFailure, TaskTarget, TaskChange,
  DependencyTarget, ApplicationCommand, ExecutionStatus, ExecutionAttempt, ApplicationState,
  Outcome,
}

abbrev pub failed : ApplicationErrorCode → String → ApplicationDetail → ApplicationFailure
failed code key detail = record { code = code; details = (key, detail) ∷ [] }

abbrev pub rejected : DomainErrorCode → ApplicationFailure
rejected code =
    failed ApplicationErrorCode.domain_rejected "domainCode" (ApplicationDetail.domain_code code)

-- The end of each operation: the mutation, or the code of the domain's error.
abbrev pub outcome : {M : Type 0} → DomainResult M → Outcome M
outcome (ok r) = Outcome.mutated r.value
outcome (err e) = Outcome.refused (rejected e.code)

abbrev pub domain_value : ApplicationState → Value
domain_value state = snapshot_value state.domain.projects state.domain.tasks

-- The first test of `domainMutation`: the Task, its Project and its revision.
abbrev pub if_current : {M : Type 0} → TaskTarget → Option Task → Outcome M → Outcome M
if_current target none next =
    Outcome.refused
      (failed ApplicationErrorCode.task_not_found "taskId" (ApplicationDetail.id target.task_id))
if_current target (some task) next =
    if not (same task.project_id target.project_id)
      || not (task.revision == target.expected_task_revision)
    then Outcome.refused
        (failed ApplicationErrorCode.stale_revision "taskId" (ApplicationDetail.id target.task_id))
    else next

-- The waiting metadata that `task.cancel` gives to each dependent.
abbrev pub review_dependency : WaitingMetadataInput
review_dependency = record {
  reason = WaitingReason.dependency_cancelled;
  phase = text "task_management";
  required_action = text "review_dependency";
  last_error_code = text "DEPENDENCY_CANCELLED";
  last_error_summary = none;
  retryable = false;
  retry_count = 0;
  retry_after = none;
  execution_id = none;
  workspace_revision = none;
  backend_thread_id = none;
}

abbrev pub is_dependent : Text → Task → Bool
is_dependent id t = same_state t.state TaskState.ready && includes t.dependency_ids id

abbrev pub dependent_value : Task → Value
dependent_value t = Value.object (
    Fields.field "taskId" (Value.string t.id)
      (Fields.field "waiting" (waiting_input_value review_dependency) Fields.end))

abbrev pub dependent_items : List Task → Items
dependent_items [] = Items.nil
dependent_items (t ∷ ts) = Items.item (dependent_value t) (dependent_items ts)

-- `dependentWaiting`
abbrev pub dependent_waiting : DomainSnapshot → Text → Value
dependent_waiting s id = Value.array (dependent_items (keep (is_dependent id) s.tasks))

-- The commands of `transitionTask`.
abbrev pub transition_command : Text → String → String → Value → Value
transition_command id trigger target payload = Value.object (
    Fields.field "taskId" (Value.string id) (
      Fields.field "event" (constant trigger)
        (Fields.field "targetState" (constant target) (Fields.field "payload" payload Fields.end))))

abbrev pub mark_ready_command : Text → Value
mark_ready_command id = transition_command id "mark_ready" "ready" (Value.object Fields.end)

abbrev pub cancel_command : DomainSnapshot → Text → Text → Value
cancel_command s id reason = transition_command id "cancel" "cancelled" (
    Value.object (
      Fields.field "reason" (Value.string reason) (
        Fields.field "executionDisposition" Value.null
          (Fields.field "dependentWaiting" (dependent_waiting s id) Fields.end))))

abbrev is_active : ExecutionStatus → Bool
is_active ExecutionStatus.active = true
is_active ExecutionStatus.superseded = false

-- `execution.taskId === command.taskId && execution.status === "active"`
abbrev pub is_claim_of : Text → ExecutionAttempt → Bool
is_claim_of id x = same x.task_id id && is_active x.status

-- The test of `dependency.add` and `dependency.remove`.
abbrev pub if_dependency_current :
    {M : Type 0} → DependencyTarget → Option Task → Outcome M → Outcome M
if_dependency_current target none next = Outcome.refused (
    failed ApplicationErrorCode.stale_revision "dependencyId"
      (ApplicationDetail.id target.dependency_id))
if_dependency_current target (some task) next =
    if not (task.revision == target.expected_dependency_revision)
    then Outcome.refused (
        failed ApplicationErrorCode.stale_revision "dependencyId"
          (ApplicationDetail.id target.dependency_id))
    else next

module _ ⦃u : Unicode⦄ where
  abbrev pub change_task : ApplicationState → Text → TaskChange → DomainResult DomainMutation
  change_task state id (TaskChange.body b) =
      update_task_body (domain_value state) (update_task_body_command id b)
  change_task state id (TaskChange.parent p) =
      set_task_parent (domain_value state) (set_task_parent_command id p)

  -- A command on a registered Task, behind the tests on the Task.
  abbrev pub on_task : ApplicationCommand → ApplicationState → TaskTarget → Outcome DomainMutation
  on_task (ApplicationCommand.task_update t change) state target =
      outcome (change_task state target.task_id change)
  on_task (ApplicationCommand.task_mark_ready t) state target =
      outcome (transition_task (domain_value state) (mark_ready_command target.task_id))
  on_task (ApplicationCommand.task_cancel t reason) state target =
      if any (is_claim_of target.task_id) state.executions
      then Outcome.refused (rejected DomainErrorCode.external_precondition_failed)
      else outcome
          (transition_task (domain_value state) (cancel_command state.domain target.task_id reason))
  on_task (ApplicationCommand.dependency_add t d) state target =
      if_dependency_current d (task_of state.domain.tasks d.dependency_id) (
        outcome (
          add_task_dependency (domain_value state)
            (task_dependency_command target.task_id d.dependency_id)))
  on_task (ApplicationCommand.dependency_remove t d) state target =
      if_dependency_current d (task_of state.domain.tasks d.dependency_id) (
        outcome (
          remove_task_dependency (domain_value state)
            (task_dependency_command target.task_id d.dependency_id)))
  on_task _ state target = Outcome.not_applicable

  abbrev pub target_of_command : ApplicationCommand → Option TaskTarget
  target_of_command (ApplicationCommand.task_update t change) = some t
  target_of_command (ApplicationCommand.task_mark_ready t) = some t
  target_of_command (ApplicationCommand.task_cancel t reason) = some t
  target_of_command (ApplicationCommand.task_inspect t) = some t
  target_of_command (ApplicationCommand.dependency_add t d) = some t
  target_of_command (ApplicationCommand.dependency_remove t d) = some t
  target_of_command _ = none

  abbrev pub without_target : ApplicationCommand → ApplicationState → Outcome DomainMutation
  without_target (ApplicationCommand.task_create project resource id b supersedes) state =
      outcome (create_task (domain_value state) (create_task_command id project b supersedes))
  without_target _ state = Outcome.not_applicable

  abbrev pub at_target :
      Option TaskTarget → ApplicationCommand → ApplicationState → Outcome DomainMutation
  at_target none command state = without_target command state
  at_target (some target) command state =
      if_current target (task_of state.domain.tasks target.task_id) (on_task command state target)

  -- `domainMutation`
  unfoldable pub domain_mutation : ApplicationCommand → ApplicationState → Outcome DomainMutation
  domain_mutation command state = at_target (target_of_command command) command state

  -- `projectDomainMutation` for `project.update` and `project.disable`; `enabled` is the new value.
  abbrev pub set_enabled : ApplicationState → Text → Bool → DomainResult ProjectDomainMutation
  set_enabled state id enabled = set_project_enabled (domain_value state) (
      Value.object (
        Fields.field "projectId" (Value.string id)
          (Fields.field "enabled" (Value.boolean enabled) Fields.end)))

  abbrev pub disable_project :
      ApplicationState → Text → Option Project → Outcome ProjectDomainMutation
  disable_project state id none =
      Outcome.refused
        (failed ApplicationErrorCode.project_not_found "projectId" (ApplicationDetail.id id))
  disable_project state id (some p) =
      if p.enabled
      then outcome (set_enabled state id false)
      else Outcome.refused (rejected DomainErrorCode.no_op)

  abbrev pub update_project :
      ApplicationState → Text → Option Project → Outcome ProjectDomainMutation
  update_project state id none =
      Outcome.refused
        (failed ApplicationErrorCode.project_not_found "projectId" (ApplicationDetail.id id))
  update_project state id (some p) =
      if p.enabled then Outcome.not_applicable else outcome (set_enabled state id true)

  unfoldable pub project_domain_mutation :
      ApplicationCommand → ApplicationState → Outcome ProjectDomainMutation
  project_domain_mutation (ApplicationCommand.project_disable t) state =
      disable_project state t.project_id (project_of state.domain.projects t.project_id)
  project_domain_mutation (ApplicationCommand.project_update t) state =
      update_project state t.project_id (project_of state.domain.projects t.project_id)
  project_domain_mutation _ state = Outcome.not_applicable

  -- The value of a success; the error is the exception that the source throws.
  abbrev registered : DomainResult ProjectDomainMutation → Parsed (Option ProjectDomainMutation)
  registered (ok r) = ok (some r.value)
  registered (err e) = err e

  abbrev register_unless :
      ApplicationState → Text → Option Project → Parsed (Option ProjectDomainMutation)
  register_unless state id (some p) = ok none
  register_unless state id none = registered (
      register_project (domain_value state)
        (Value.object (Fields.field "projectId" (Value.string id) Fields.end)))

  -- `projectRegistrationMutation`
  unfoldable pub project_registration_mutation :
      ApplicationState → Text → Parsed (Option ProjectDomainMutation)
  project_registration_mutation state id =
      register_unless state id (project_of state.domain.projects id)

-- `projectIds.add`
abbrev add_id : Text → List Text → List Text
add_id id ids = if includes ids id then ids else id ∷ ids

-- The loop of `affectedProjectIds`, which throws (`none`) at a Task that is absent.
abbrev project_ids_of : List Task → List Text → List Text → Option (List Text)
project_ids_of tasks [] found = some found
project_ids_of tasks (id ∷ rest) found = elim (task_of tasks id) [
  | none ↦ none
  | some t ↦ project_ids_of tasks rest (add_id t.project_id found)
]

abbrev in_text_order : Option (List Text) → Option (List Text)
in_text_order none = none
in_text_order (some l) = some (sort (λ (i : Text). i) l)

-- `affectedProjectIds`
unfoldable pub affected_project_ids : DomainMutation → Option (List Text)
affected_project_ids m = in_text_order (project_ids_of m.snapshot.tasks m.changed_task_ids [])

-- `sameProjectIds`
unfoldable pub same_project_ids : List Text → List Text → Bool
same_project_ids [] [] = true
same_project_ids (a ∷ as_) (b ∷ bs) = same a b && same_project_ids as_ bs
same_project_ids _ _ = false
