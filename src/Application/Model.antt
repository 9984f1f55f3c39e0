-- ===== src/Application/Model.antt =====
-- src/application-model.ts and src/persistence/application-repository-model.ts: the commands, the
-- failures and the part of the state that src/application-domain.ts reads.
use agent_task_orchestrator.Base.{Text, String, ℕ, List, Option}
use agent_task_orchestrator.Domain.Errors.{DomainErrorCode}
use agent_task_orchestrator.Domain.Records.{DomainSnapshot}
use agent_task_orchestrator.Authorization.Grants.{AuthorizationGrant, AuthorizationScope}

pub data ApplicationErrorCode : Type 0 where
  invalid_input bootstrap_already_consumed bootstrap_required authorization_denied :
      ApplicationErrorCode
  project_not_found project_already_registered project_registry_rejected : ApplicationErrorCode
  task_not_found grant_not_found stale_revision domain_rejected : ApplicationErrorCode
  scope_expansion_denied capability_renewal_not_due capability_upgrade_not_eligible :
      ApplicationErrorCode

pub data ApplicationDetail : Type 0 where
  id : Text → ApplicationDetail
  domain_code : DomainErrorCode → ApplicationDetail

pub record ApplicationFailure : Type 0 where
  pub code : ApplicationErrorCode
  pub details : List (String × ApplicationDetail)

-- The identities and revisions that a command on a Task names, and those of a command on a Project.
pub record TaskTarget : Type 0 where
  pub project_id : Text
  pub expected_project_resource_revision : ℕ
  pub task_id : Text
  pub expected_task_revision : ℕ

pub record ProjectTarget : Type 0 where
  pub project_id : Text
  pub expected_resource_revision : ℕ
  pub expected_config_revision : ℕ

pub record GrantRequest : Type 0 where
  pub actor_id : Text
  pub action : Text
  pub scope : AuthorizationScope
  pub not_before : Text
  pub expires_at : Text

pub data TaskChange : Type 0 where
  body : Text → TaskChange
  parent : Option Text → TaskChange

-- `dependency` and its expected revision.
pub record DependencyTarget : Type 0 where
  pub dependency_id : Text
  pub expected_dependency_revision : ℕ

pub data ApplicationCommand : Type 0 where
  grant_issue : GrantRequest → ApplicationCommand
  grant_inspect grant_revoke : Text → ℕ → ApplicationCommand
  policy_evaluate : ProjectTarget → Text → ApplicationCommand
  project_register : Text → Text → ApplicationCommand
  project_update project_disable : ProjectTarget → ApplicationCommand
  project_inspect : Text → ℕ → ApplicationCommand
  task_create : Text → ℕ → Text → Text → Option Text → ApplicationCommand
  task_update : TaskTarget → TaskChange → ApplicationCommand
  task_mark_ready : TaskTarget → ApplicationCommand
  task_cancel : TaskTarget → Text → ApplicationCommand
  task_inspect : TaskTarget → ApplicationCommand
  dependency_add dependency_remove : TaskTarget → DependencyTarget → ApplicationCommand
  grant_list : ℕ → Option Text → ApplicationCommand
  runtime_status : ApplicationCommand
  runtime_backup runtime_restore : Text → ApplicationCommand

pub data ExecutionStatus : Type 0 where
  active superseded : ExecutionStatus

pub record ExecutionAttempt : Type 0 where
  pub execution_id : Text
  pub task_id : Text
  pub status : ExecutionStatus

pub record ApplicationState : Type 0 where
  pub domain : DomainSnapshot
  pub grants : List AuthorizationGrant
  pub identity_actor : Option Text
  pub bootstrap_actor : Option Text
  pub executions : List ExecutionAttempt

-- `Mutation | ApplicationFailure | null`
pub data Outcome (M : Type 0) : Type 0 where
  mutated : M → Outcome M
  refused : ApplicationFailure → Outcome M
  not_applicable : Outcome M
