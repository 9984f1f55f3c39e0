-- ===== src/Policy/Facts.antt =====
-- src/project-policy-port.ts: the facts of a policy and the gates that it requires.
use agent_task_orchestrator.Base.{
  Text, String, ℕ, Bool, true, false, List, [], ◌∷◌, ◌++◌, Option, none, some, map, leb, is_unique,
  if◌then◌else◌,
}
use agent_task_orchestrator.Domain.Value.{Value, Unicode, get}
use agent_task_orchestrator.Reader.{◌>>=◌, ◌>>◌, check, exact_record, revision, or_null_by}
use agent_task_orchestrator.Ports.{named}
use agent_task_orchestrator.Policy.Values.{plain_text, is_sha256_text, exact_array}

pub record PolicyGateRequirement : Type 0 where
  pub gate_id : Text
  pub gate_version : Text
  pub command_key : Text
  pub command_identity_sha256 : Text
  pub tool_environment_sha256 : Text
  pub valid_for_seconds : Option ℕ

pub data Requirement : Type 0 where
  required not_required : Requirement

abbrev pub requirement_name : Requirement → String
requirement_name Requirement.required = "required"
requirement_name Requirement.not_required = "not_required"

abbrev pub requirements : List Requirement
requirements = Requirement.required ∷ Requirement.not_required ∷ []

pub data CleanupRule : Type 0 where
  allowed_after_completion prohibited : CleanupRule

abbrev pub cleanup_name : CleanupRule → String
cleanup_name CleanupRule.allowed_after_completion = "allowed_after_completion"
cleanup_name CleanupRule.prohibited = "prohibited"

abbrev pub cleanup_rules : List CleanupRule
cleanup_rules = CleanupRule.allowed_after_completion ∷ CleanupRule.prohibited ∷ []

pub record ProjectPolicyFacts : Type 0 where
  pub required_gates : List PolicyGateRequirement
  pub integration : Requirement
  pub preservation : Requirement
  pub cleanup : CleanupRule

abbrev pub gate_keys : List String
gate_keys =
    "gateId" ∷ "gateVersion" ∷ "commandKey" ∷ "commandIdentitySha256" ∷ "toolEnvironmentSha256"
    ∷ "validForSeconds" ∷ []

-- `sha256`, with the text.
unfoldable pub digest : Value → Option Text
digest (Value.string s) = if is_sha256_text s then some s else none
digest _ = none

-- `revision(value) && value <= 86_400`
unfoldable pub seconds : Value → Option ℕ
seconds v = do n ← revision v; check (leb n 86400); some n

-- `${gate.gateId}\u0000${gate.gateVersion}`
abbrev pub gate_key : PolicyGateRequirement → Text
gate_key g = g.gate_id ++ 0 ∷ g.gate_version

-- Where preservation is required, integration must be.
abbrev pub fits : Requirement → Requirement → Bool
fits Requirement.required Requirement.not_required = false
fits _ _ = true

module _ ⦃u : Unicode⦄ where
  -- `parseGateRequirement` over the values of the fields.
  unfoldable pub gate_from :
      Value → Value → Value → Value → Value → Value → Option PolicyGateRequirement
  gate_from v1 v2 v3 v4 v5 v6 = do
    gate_id ← plain_text 128 v1
    gate_version ← plain_text 128 v2
    command_key ← plain_text 128 v3
    command ← digest v4
    environment ← digest v5
    valid ← or_null_by seconds v6
    some (record {
      gate_id = gate_id;
      gate_version = gate_version;
      command_key = command_key;
      command_identity_sha256 = command;
      tool_environment_sha256 = environment;
      valid_for_seconds = valid;
    })

  -- `parseGateRequirement`
  unfoldable pub parse_gate_requirement : Value → Option PolicyGateRequirement
  unfolding gate_from
  parse_gate_requirement v = do
    r ← exact_record v gate_keys
    gate_from (get r "gateId") (get r "gateVersion") (get r "commandKey")
        (get r "commandIdentitySha256") (get r "toolEnvironmentSha256") (get r "validForSeconds")

  -- `gates.map(parseGateRequirement)`, which must hold no `null`.
  unfoldable pub parse_gates : List Value → Option (List PolicyGateRequirement)
  unfolding parse_gate_requirement
  parse_gates [] = some []
  parse_gates (v ∷ vs) = do g ← parse_gate_requirement v; gs ← parse_gates vs; some (g ∷ gs)

  -- `parseProjectPolicyFacts` over the values of the fields.
  unfoldable pub facts_from : Value → Value → Value → Value → Option ProjectPolicyFacts
  unfolding parse_gates
  facts_from v1 v2 v3 v4 = do
    gates ← exact_array v1 32
    integration ← named requirement_name requirements v2
    preservation ← named requirement_name requirements v3
    cleanup ← named cleanup_name cleanup_rules v4
    check (fits preservation integration)
    typed ← parse_gates gates
    check (is_unique (map gate_key typed))
    some (record {
      required_gates = typed;
      integration = integration;
      preservation = preservation;
      cleanup = cleanup;
    })

  -- `parseProjectPolicyFacts`
  unfoldable pub parse_project_policy_facts : Value → Option ProjectPolicyFacts
  unfolding facts_from
  parse_project_policy_facts v = do
    r ← exact_record v ("requiredGates" ∷ "integration" ∷ "preservation" ∷ "cleanup" ∷ [])
    facts_from (get r "requiredGates") (get r "integration") (get r "preservation")
        (get r "cleanup")
