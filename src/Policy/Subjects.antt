-- ===== src/Policy/Subjects.antt =====
-- src/project-policy-port.ts: the subjects of the four operations. A subject is the copied record of its
-- checked fields.
use agent_task_orchestrator.Base.{
  String, Bool, true, false, not, ◌&&◌, ◌||◌, List, [], ◌∷◌, ◌++◌, Option, none, some, ◌==◌, same,
  text,
}
use agent_task_orchestrator.Domain.Value.{
  Value, Fields, Unicode, get, count_fields, is_constant, is_null,
}
use agent_task_orchestrator.Reader.{◌>>=◌, ◌>>◌, check, Dates, exact_record, timestamp}
use agent_task_orchestrator.Policy.Values.{is_text, is_revision, is_sha256, is_sha1, equal_value}

pub data ProjectPolicyOperation : Type 0 where
  evaluate_mutation completion_requirements evaluate_integration : ProjectPolicyOperation
  evaluate_cleanup : ProjectPolicyOperation

abbrev pub policy_operation_name : ProjectPolicyOperation → String
policy_operation_name ProjectPolicyOperation.evaluate_mutation = "evaluate_mutation"
policy_operation_name ProjectPolicyOperation.completion_requirements = "completion_requirements"
policy_operation_name ProjectPolicyOperation.evaluate_integration = "evaluate_integration"
policy_operation_name ProjectPolicyOperation.evaluate_cleanup = "evaluate_cleanup"

abbrev pub project_policy_operations : List ProjectPolicyOperation
project_policy_operations =
    ProjectPolicyOperation.evaluate_mutation ∷ ProjectPolicyOperation.completion_requirements
    ∷ ProjectPolicyOperation.evaluate_integration ∷ ProjectPolicyOperation.evaluate_cleanup ∷ []

abbrev completion_keys : List String
completion_keys =
    "projectId" ∷ "projectResourceRevision" ∷ "projectConfigRevision" ∷ "projectRootKey"
    ∷ "repositoryIdentity" ∷ "taskId" ∷ "taskRevision" ∷ "executionId" ∷ "executionRevision"
    ∷ "attemptNumber" ∷ "fencingToken" ∷ "workspaceId" ∷ "generation" ∷ "workspaceRevision"
    ∷ "ownershipBindingSha256" ∷ "headObjectId" ∷ []

abbrev is_set {ℓ} : {A : Type ℓ} → Option A → Bool
is_set none = false
is_set (some a) = true

abbrev equal_truth : Bool → Bool → Bool
equal_truth true b = b
equal_truth false b = not b

module _ ⦃u : Unicode⦄ where
  -- `parseSubjectBase`
  unfoldable pub parse_subject_base : Fields → Bool
  parse_subject_base r =
      is_text 128 (get r "projectId")
      && is_revision (get r "projectResourceRevision")
      && is_revision (get r "projectConfigRevision")
      && is_text 128 (get r "projectRootKey")
      && is_text 128 (get r "repositoryIdentity")

  -- `parseMutationSubject`
  unfoldable pub parse_mutation_subject : Value → Option Fields
  parse_mutation_subject v = do
    r ← exact_record v (
        "projectId" ∷ "projectResourceRevision" ∷ "projectConfigRevision" ∷ "projectRootKey"
        ∷ "repositoryIdentity" ∷ "subjectKind" ∷ "subjectId" ∷ "currentRevision"
        ∷ "proposedChangeSha256" ∷ "externalTargetSha256" ∷ [])
    check (parse_subject_base r)
    check (
        is_constant (get r "subjectKind") "project"
        || (is_constant (get r "subjectKind") "task"
            || (is_constant (get r "subjectKind") "dependency"
                || is_constant (get r "subjectKind") "workspace")))
    check (
        is_text 128 (get r "subjectId")
        && is_revision (get r "currentRevision")
        && is_sha256 (get r "proposedChangeSha256")
        && (is_null (get r "externalTargetSha256") || is_sha256 (get r "externalTargetSha256")))
    some r

  -- `completionRecord`
  unfoldable pub completion_record : Value → List String → Option Fields
  unfolding parse_subject_base
  completion_record v extra = do
    r ← exact_record v (completion_keys ++ extra)
    check (parse_subject_base r)
    check (
        is_text 128 (get r "taskId")
        && is_revision (get r "taskRevision")
        && is_text 128 (get r "executionId")
        && is_revision (get r "executionRevision")
        && is_revision (get r "attemptNumber")
        && is_revision (get r "fencingToken")
        && is_text 128 (get r "workspaceId")
        && is_revision (get r "generation")
        && is_revision (get r "workspaceRevision")
        && is_sha256 (get r "ownershipBindingSha256")
        && is_sha1 (get r "headObjectId"))
    some r

  -- `parseIntegrationSubject`
  unfoldable pub parse_integration_subject : Value → Option Fields
  unfolding completion_record
  parse_integration_subject v = do
    r ← completion_record v (
        "targetReference" ∷ "expectedTargetObjectId" ∷ "sourceHeadObjectId" ∷ "destinationIdentity"
        ∷ "expectedRemoteHead" ∷ [])
    check (
        is_text 255 (get r "targetReference")
        && is_sha1 (get r "expectedTargetObjectId")
        && is_sha1 (get r "sourceHeadObjectId")
        && not (equal_value (get r "expectedTargetObjectId") (get r "sourceHeadObjectId"))
        && is_text 128 (get r "destinationIdentity")
        && (is_null (get r "expectedRemoteHead") || is_sha1 (get r "expectedRemoteHead")))
    some r

  module _ ⦃d : Dates⦄ where
    -- `parseCleanupSubject`
    unfoldable pub parse_cleanup_subject : Value → Option Fields
    unfolding completion_record
    parse_cleanup_subject v = do
      r ← completion_record v (
          "completionDecisionId" ∷ "executionTerminalCreatedAt" ∷ "gateSetSha256"
          ∷ "preservationStateSha256" ∷ "integrationDisposition" ∷ "integrationReservationId"
          ∷ "observedInventorySha256" ∷ [])
      check (
          is_text 128 (get r "completionDecisionId")
          && is_set (timestamp (get r "executionTerminalCreatedAt"))
          && is_sha256 (get r "gateSetSha256")
          && is_sha256 (get r "preservationStateSha256"))
      check (
          is_constant (get r "integrationDisposition") "not_required"
          || (is_constant (get r "integrationDisposition") "released"
              || is_constant (get r "integrationDisposition") "expired"))
      check (
          (is_null (get r "integrationReservationId")
            || is_text 128 (get r "integrationReservationId"))
          && equal_truth (is_constant (get r "integrationDisposition") "not_required")
              (is_null (get r "integrationReservationId"))
          && is_sha256 (get r "observedInventorySha256"))
      some r

    -- `parseSubject`
    unfoldable pub parse_subject : ProjectPolicyOperation → Value → Option Fields
    unfolding parse_mutation_subject parse_integration_subject parse_cleanup_subject
    parse_subject ProjectPolicyOperation.evaluate_mutation v = parse_mutation_subject v
    parse_subject ProjectPolicyOperation.completion_requirements v = completion_record v []
    parse_subject ProjectPolicyOperation.evaluate_integration v = parse_integration_subject v
    parse_subject ProjectPolicyOperation.evaluate_cleanup v = parse_cleanup_subject v

-- `hasOwnProperty`; a record that is copied holds no `undefined` of its own here.
abbrev pub has : Fields → String → Bool
has Fields.end k = false
has (Fields.field j v r) k = same (text j) (text k) || has r k

-- The `every` of `sameSubject`.
unfoldable pub agrees : Fields → Fields → Bool
agrees Fields.end right = true
agrees (Fields.field k v r) right = has right k && equal_value v (get right k) && agrees r right

-- `sameSubject`
unfoldable pub same_subject : Fields → Fields → Bool
unfolding agrees
same_subject left right = count_fields left == count_fields right && agrees left right
