-- ===== src/Authorization/Actions.antt =====
-- src/authorization.ts: the actions, as their texts, and the vocabularies that grew by them.
use agent_task_orchestrator.Base.{
  Text, ℕ, Bool, List, [], ◌∷◌, ◌++◌, map, text, if◌then◌else◌, ◌==◌, includes,
}

unfoldable pub base_authorization_actions : List Text
base_authorization_actions = map text (
    "authorization.grant.issue" ∷ "authorization.grant.inspect" ∷ "authorization.grant.revoke"
    ∷ "policy.evaluate" ∷ "project.register" ∷ "project.update" ∷ "project.disable"
    ∷ "project.inspect" ∷ "task.create" ∷ "task.update" ∷ "task.mark_ready" ∷ "task.cancel"
    ∷ "task.inspect" ∷ "dependency.add" ∷ "dependency.remove" ∷ "authorization.grant.list"
    ∷ "runtime.status" ∷ "runtime.backup" ∷ "runtime.restore" ∷ [])

unfoldable pub execution_authorization_actions : List Text
execution_authorization_actions = map text (
    "execution.claim" ∷ "execution.claim.inspect" ∷ "execution.lease.renew"
    ∷ "execution.lease.takeover" ∷ [])

unfoldable pub claim_authorization_actions : List Text
unfolding base_authorization_actions execution_authorization_actions
claim_authorization_actions = base_authorization_actions ++ execution_authorization_actions

unfoldable pub manual_execution_authorization_actions : List Text
manual_execution_authorization_actions = map text (
    "execution.start" ∷ "execution.inspect" ∷ "execution.resume" ∷ "execution.retry"
    ∷ "execution.cancel" ∷ "execution.completion.accept" ∷ [])

unfoldable pub manual_authorization_actions : List Text
unfolding claim_authorization_actions manual_execution_authorization_actions
manual_authorization_actions = claim_authorization_actions ++ manual_execution_authorization_actions

unfoldable pub dispatch_authorization_actions : List Text
dispatch_authorization_actions = map text ("dispatch.run" ∷ [])

unfoldable pub dispatcher_authorization_actions : List Text
unfolding manual_authorization_actions dispatch_authorization_actions
dispatcher_authorization_actions = manual_authorization_actions ++ dispatch_authorization_actions

unfoldable pub workspace_authorization_actions : List Text
workspace_authorization_actions = map text (
    "workspace.reserve" ∷ "workspace.create" ∷ "workspace.inspect" ∷ "workspace.recover"
    ∷ "workspace.cleanup" ∷ [])

unfoldable pub completion_integration_authorization_actions : List Text
completion_integration_authorization_actions = map text (
    "completion.gate.run" ∷ "completion.gate.inspect" ∷ "completion.gate.cancel"
    ∷ "completion.accept" ∷ "integration.reserve" ∷ "integration.inspect"
    ∷ "integration.lease.renew" ∷ "integration.lease.takeover" ∷ "integration.apply"
    ∷ "integration.push" ∷ "integration.recover" ∷ "integration.release" ∷ [])

unfoldable pub workspace_stage_authorization_actions : List Text
unfolding dispatcher_authorization_actions workspace_authorization_actions
workspace_stage_authorization_actions =
    dispatcher_authorization_actions ++ workspace_authorization_actions

unfoldable pub phase3_authorization_actions : List Text
unfolding workspace_stage_authorization_actions completion_integration_authorization_actions
phase3_authorization_actions =
    workspace_stage_authorization_actions ++ completion_integration_authorization_actions

unfoldable pub scheduler_authorization_actions : List Text
scheduler_authorization_actions =
    map text ("scheduler.register" ∷ "scheduler.inspect" ∷ "scheduler.remove" ∷ [])

unfoldable pub scheduler_stage_authorization_actions : List Text
unfolding phase3_authorization_actions scheduler_authorization_actions
scheduler_stage_authorization_actions =
    phase3_authorization_actions ++ scheduler_authorization_actions

unfoldable pub codex_authorization_actions : List Text
codex_authorization_actions = map text (
    "codex.profile.activate" ∷ "codex.profile.inspect" ∷ "codex.profile.deactivate"
    ∷ "codex.execution.invoke" ∷ "codex.execution.cancel" ∷ [])

unfoldable pub authorization_actions : List Text
unfolding scheduler_stage_authorization_actions codex_authorization_actions
authorization_actions = scheduler_stage_authorization_actions ++ codex_authorization_actions

unfoldable pub high_risk_actions : List Text
high_risk_actions = map text (
    "authorization.grant.issue" ∷ "authorization.grant.revoke" ∷ "project.register"
    ∷ "project.update" ∷ "project.disable" ∷ "runtime.restore" ∷ "execution.completion.accept"
    ∷ "completion.accept" ∷ "integration.apply" ∷ "integration.push" ∷ "workspace.cleanup"
    ∷ "scheduler.register" ∷ "scheduler.remove" ∷ "codex.profile.activate"
    ∷ "codex.profile.deactivate" ∷ "codex.execution.invoke" ∷ [])

-- `actionsForVocabulary`, for a version from 1 to 8.
unfoldable pub actions_for_vocabulary : ℕ → List Text
actions_for_vocabulary version =
    if version == 1
    then base_authorization_actions
    else if version == 2
    then claim_authorization_actions
    else if version == 3
    then manual_authorization_actions
    else if version == 4
    then dispatcher_authorization_actions
    else if version == 5
    then workspace_stage_authorization_actions
    else if version == 6
    then phase3_authorization_actions
    else if version == 7
    then scheduler_stage_authorization_actions
    else authorization_actions

-- `isHighRiskAction`
unfoldable pub is_high_risk_action : Text → Bool
unfolding high_risk_actions includes
is_high_risk_action action = includes high_risk_actions action
