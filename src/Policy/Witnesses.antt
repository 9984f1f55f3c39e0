-- ===== src/Policy/Witnesses.antt =====
-- The theorems on the policy's port, applied to the samples.
use agent_task_orchestrator.Base.{◌≡◌, ◌↔◌, true, [], ◌∷◌, map, is_unique}
use agent_task_orchestrator.Domain.Samples.{ascii}
use agent_task_orchestrator.Authorization.Samples.{any_date}
use agent_task_orchestrator.Policy.Facts.{gate_key}
use agent_task_orchestrator.Policy.Results.{ProjectPolicyResult}
use agent_task_orchestrator.Policy.Gates.{AreDistinct, parse_gates-AreDistinct}
use agent_task_orchestrator.Policy.Bounds.{IsFacts, parse_project_policy_facts-IsFacts}
use agent_task_orchestrator.Policy.Receipts.{IsResultFor, parse_project_policy_result-IsResultFor}
use agent_task_orchestrator.Policy.Samples.{
  request, gate, gate_value, facts, facts_value, receipt, result_value, gates_read, facts_read,
  receipt_read,
}

parse_gates-AreDistinct_example :
    (is_unique (map gate_key (gate ∷ [])) ≡ true) ↔ AreDistinct (gate ∷ [])
parse_gates-AreDistinct_example = parse_gates-AreDistinct (gate_value ∷ []) (gate ∷ []) gates_read

parse_project_policy_facts-IsFacts_example : IsFacts facts
parse_project_policy_facts-IsFacts_example =
    parse_project_policy_facts-IsFacts facts_value facts facts_read

parse_project_policy_result-IsResultFor_example :
    IsResultFor request (ProjectPolicyResult.received receipt)
parse_project_policy_result-IsResultFor_example =
    parse_project_policy_result-IsResultFor result_value request
      (ProjectPolicyResult.received receipt) receipt_read
