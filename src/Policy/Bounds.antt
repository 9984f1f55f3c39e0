-- ===== src/Policy/Bounds.antt =====
-- src/project-policy-port.ts: the bounds of accepted facts.
use agent_task_orchestrator.Base.{
  ℕ, suc, ◌<◌, ◌≤◌, length, ◌≡◌, refl, ap, subst, ◌∙◌, true, List, [], ◌∷◌, some, map, arith,
  is_unique, All,
}
use agent_task_orchestrator.Domain.Value.{Value, Unicode, get}
use agent_task_orchestrator.Reader.{
  exact_record, or_null_by, bind-some, check-some, some-eq, revision,
}
use agent_task_orchestrator.Ports.{named}
use agent_task_orchestrator.Policy.Values.{exact_array, plain_text}
use agent_task_orchestrator.Policy.Facts.{
  ProjectPolicyFacts, Requirement, requirement_name, requirements, cleanup_name, cleanup_rules,
  fits, facts_from, parse_project_policy_facts, gate_keys, PolicyGateRequirement, gate_key, digest,
  seconds, gate_from, parse_gate_requirement, parse_gates,
}
use agent_task_orchestrator.Policy.Gates.{AreDistinct, parse_gates-AreDistinct}

module _ ⦃u : Unicode⦄ where
  -- A time of validity is of at least a second and at most a day.
  abbrev pub IsTimely : PolicyGateRequirement → Type 0
  IsTimely g = (n : ℕ) → g.valid_for_seconds ≡ some n → (0 < n) × (n ≤ 86400)

  seconds_bounds : (v : Value) (n : ℕ) → seconds v ≡ some n → (0 < n) × (n ≤ 86400)
  unfolding seconds revision
  seconds_bounds v n h = ground arith

  valid_bounds : (v : Value) (n : ℕ) → or_null_by seconds v ≡ some (some n) → (0 < n) × (n ≤ 86400)
  unfolding or_null_by
  valid_bounds v n h = ground (arith, seconds_bounds v n)

  gate_from-IsTimely :
      (v1 v2 v3 v4 v5 v6 : Value) (g : PolicyGateRequirement)
      → gate_from v1 v2 v3 v4 v5 v6 ≡ some g
      → IsTimely g
  unfolding gate_from
  gate_from-IsTimely v1 v2 v3 v4 v5 v6 g h n k =
      let (id, _, h1) = bind-some (plain_text 128 v1) _ g h in
      let (version, _, h2) = bind-some (plain_text 128 v2) _ g h1 in
      let (command_key, _, h3) = bind-some (plain_text 128 v3) _ g h2 in
      let (command, _, h4) = bind-some (digest v4) _ g h3 in
      let (environment, _, h5) = bind-some (digest v5) _ g h4 in
      let (valid, e, h6) = bind-some (or_null_by seconds v6) _ g h5 in
      let given : valid ≡ some n = ground arith in valid_bounds v6 n (e ∙ ap some given)

  parse_gates-IsTimely :
      (vs : List Value) (gs : List PolicyGateRequirement)
      → parse_gates vs ≡ some gs
      → All IsTimely gs × (length gs ≡ length vs)
  unfolding parse_gates parse_gate_requirement
  parse_gates-IsTimely [] gs h =
      let none_read : [] ≡ gs = ground arith in
      subst (λ (l : List PolicyGateRequirement). All IsTimely l × (length l ≡ 0)) none_read
        (tt, refl)
  parse_gates-IsTimely (v ∷ vs) gs h =
      let (g, e, h1) = bind-some (parse_gate_requirement v) _ gs h in
      let (rest, f, h2) = bind-some (parse_gates vs) _ gs h1 in
      let (r, _, made) = bind-some (exact_record v gate_keys) _ g e in
      let all_read : (g ∷ rest) ≡ gs = ground arith in
      let (timely, count) = parse_gates-IsTimely vs rest f in
      subst (λ (l : List PolicyGateRequirement). All IsTimely l × (length l ≡ suc (length vs)))
        all_read
        (
          (
            gate_from-IsTimely (get r "gateId") (get r "gateVersion") (get r "commandKey")
                (get r "commandIdentitySha256") (get r "toolEnvironmentSha256")
                (get r "validForSeconds") g made,
            timely,
          ),
          ap suc count,
        )

  -- What holds of accepted facts.
  pub record IsFacts (f : ProjectPolicyFacts) : Type 0 where
    pub few : length f.required_gates ≤ 32
    pub timely : All IsTimely f.required_gates
    pub distinct : AreDistinct f.required_gates
    pub preserved : f.preservation ≡ Requirement.required → f.integration ≡ Requirement.required

  fits_required :
      (p i : Requirement) → fits p i ≡ true → p ≡ Requirement.required → i ≡ Requirement.required
  fits_required p i h e = ground arith

  array_bound : (v : Value) (n : ℕ) (l : List Value) → exact_array v n ≡ some l → length l ≤ n
  unfolding exact_array
  array_bound v n l h = ground arith

  facts_from-IsFacts :
      (v1 v2 v3 v4 : Value) (f : ProjectPolicyFacts) → facts_from v1 v2 v3 v4 ≡ some f → IsFacts f
  unfolding facts_from
  facts_from-IsFacts v1 v2 v3 v4 f h =
      let (gates, e, h1) = bind-some (exact_array v1 32) _ f h in
      let (integration, _, h2) = bind-some (named requirement_name requirements v2) _ f h1 in
      let (preservation, _, h3) = bind-some (named requirement_name requirements v3) _ f h2 in
      let (cleanup, _, h4) = bind-some (named cleanup_name cleanup_rules v4) _ f h3 in
      let (fitting, h5) = check-some (fits preservation integration) _ f h4 in
      let (typed, k, h6) = bind-some (parse_gates gates) _ f h5 in
      let (unique, h7) = check-some (is_unique (map gate_key typed)) _ f h6 in
      let (timely, count) = parse_gates-IsTimely gates typed k in
      let bound = array_bound v1 32 gates e in
      subst IsFacts (some-eq h7) (record {
        few = omega arith;
        timely = timely;
        distinct = (parse_gates-AreDistinct gates typed k).0 unique;
        preserved = fits_required preservation integration fitting;
      })

  -- Facts that are accepted require at most 32 gates, no two of one identifier and one version, each valid for a day at most, and integration where they require preservation.
  pub parse_project_policy_facts-IsFacts :
      (v : Value) (f : ProjectPolicyFacts) → parse_project_policy_facts v ≡ some f → IsFacts f
  unfolding parse_project_policy_facts
  parse_project_policy_facts-IsFacts v f h =
      let (r, _, h1) =
        bind-some
          (exact_record v ("requiredGates" ∷ "integration" ∷ "preservation" ∷ "cleanup" ∷ [])) _ f
          h in
      facts_from-IsFacts (get r "requiredGates") (get r "integration") (get r "preservation")
        (get r "cleanup") f h1
