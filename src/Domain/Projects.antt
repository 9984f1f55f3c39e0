-- ===== src/Domain/Projects.antt =====
-- src/domain.ts: registering a Project and enabling or disabling it.
use agent_task_orchestrator.Base.{
  Text, Bool, true, false, not, List, [], ◌∷◌, ◌++◌, if◌then◌else◌, same,
}
use agent_task_orchestrator.Domain.Errors.{
  ◌>>=◌, ◌>>◌, fail_if, require, domain_error, DomainErrorCode, DetailValue, DomainError,
  DomainResult,
}
use agent_task_orchestrator.Domain.Records.{Project, ProjectDomainMutation}
use agent_task_orchestrator.Domain.Value.{Value, get, identifier, truth, Unicode}
use agent_task_orchestrator.Domain.Encode.{snapshot_value}
use agent_task_orchestrator.Domain.Snapshot.{
  parse_snapshot, SnapshotValidationMode, project_of, is_defined,
}
use agent_task_orchestrator.Domain.Mutation.{invalid_input, project_mutation, parse_task_command}

abbrev pub about_project : DomainErrorCode → Text → DomainError
about_project code id = domain_error code (("projectId", DetailValue.text id) ∷ [])

-- `registerProjectUnchecked`
unfoldable pub register_project : ⦃u : Unicode⦄ → Value → Value → DomainResult ProjectDomainMutation
register_project snapshot_input command_input = do
  snapshot ← parse_snapshot snapshot_input SnapshotValidationMode.complete
  command ← parse_task_command command_input ("projectId" ∷ [])
  id ← identifier (get command "projectId") invalid_input
  fail_if (is_defined (project_of snapshot.projects id))
      (about_project DomainErrorCode.project_already_exists id)
  next ←
      parse_snapshot
        (snapshot_value (snapshot.projects ++ record { id = id; enabled = true } ∷ [])
          snapshot.tasks)
        SnapshotValidationMode.complete
  project_mutation next id

abbrev pub same_bool : Bool → Bool → Bool
same_bool true b = b
same_bool false b = not b

abbrev pub enable_in : Text → Bool → List Project → List Project
enable_in id enabled [] = []
enable_in id enabled (p ∷ ps) =
    (if same p.id id then record { id = id; enabled = enabled } else p) ∷ enable_in id enabled ps

-- `setProjectEnabledUnchecked`
unfoldable pub set_project_enabled :
    ⦃u : Unicode⦄ → Value → Value → DomainResult ProjectDomainMutation
set_project_enabled snapshot_input command_input = do
  snapshot ← parse_snapshot snapshot_input SnapshotValidationMode.complete
  command ← parse_task_command command_input ("projectId" ∷ "enabled" ∷ [])
  id ← identifier (get command "projectId") invalid_input
  enabled ← truth (get command "enabled") invalid_input
  project ←
      require (project_of snapshot.projects id) (about_project DomainErrorCode.project_not_found id)
  fail_if (same_bool project.enabled enabled) (about_project DomainErrorCode.no_op project.id)
  next ←
      parse_snapshot
        (snapshot_value (enable_in project.id enabled snapshot.projects) snapshot.tasks)
        SnapshotValidationMode.complete
  project_mutation next project.id
