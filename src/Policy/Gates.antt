-- ===== src/Policy/Gates.antt =====
-- src/project-policy-port.ts: the gates that are told apart by their joined key.
use agent_task_orchestrator.Base.{
  Text, ℕ, ◌≡◌, refl, sym, subst, ◌↔◌, true, false, List, [], ◌∷◌, ◌++◌, some, map, arith, same,
  same→eq, eq→same, any, includes, is_unique, All, Bool-cases, inl, inr,
}
use agent_task_orchestrator.Domain.Value.{Value, Unicode, get}
use agent_task_orchestrator.Reader.{exact_record, or_null_by, bind-some}
use agent_task_orchestrator.Policy.Values.{plain_text, is_control}
use agent_task_orchestrator.Policy.Facts.{
  gate_keys, PolicyGateRequirement, gate_key, digest, seconds, gate_from, parse_gate_requirement,
  parse_gates,
}

-- Two gates of one identifier and one version.
abbrev pub AreTwins : PolicyGateRequirement → PolicyGateRequirement → Type 0
AreTwins g h = (g.gate_id ≡ h.gate_id) × (g.gate_version ≡ h.gate_version)

abbrev pub AreDistinct : List PolicyGateRequirement → Type 0
AreDistinct [] = Unit
AreDistinct (g ∷ gs) = All (λ h. ¬ AreTwins g h) gs × AreDistinct gs

-- A text without a control character, and a gate with such an identifier.
abbrev IsFree : Text → Type 0
IsFree s = any is_control s ≡ false

abbrev IsPlain : PolicyGateRequirement → Type 0
IsPlain g = IsFree g.gate_id

-- What stands before the first NUL, and what behind it.
split_at_nul :
    (s s' t t' : Text) → IsFree s → IsFree s' → (s ++ 0 ∷ t) ≡ (s' ++ 0 ∷ t') → (s ≡ s') × (t ≡ t')
split_at_nul [] [] t t' h h' e = (refl, ground arith)
split_at_nul [] (c ∷ s') t t' h h' e = absurd (ground arith)
split_at_nul (c ∷ s) [] t t' h h' e = absurd (ground arith)
split_at_nul (c ∷ s) (c' ∷ s') t t' h h' e =
    let (i, j) = split_at_nul s s' t t' (ground arith) (ground arith) (ground arith) in
    (ground arith, j)

gate_key-AreTwins :
    (g h : PolicyGateRequirement) → IsPlain g → IsPlain h → gate_key g ≡ gate_key h → AreTwins g h
gate_key-AreTwins g h p q e = split_at_nul g.gate_id h.gate_id g.gate_version h.gate_version p q e

key_of_twins : (g h : PolicyGateRequirement) → AreTwins g h → gate_key g ≡ gate_key h
key_of_twins g h e = rw (e.0, e.1) refl

-- No key of the list is the gate's, and no gate is its twin.
includes-AreTwins :
    (g : PolicyGateRequirement) (gs : List PolicyGateRequirement)
    → IsPlain g
    → All IsPlain gs
    → (includes (map gate_key gs) (gate_key g) ≡ false) ↔ All (λ h. ¬ AreTwins g h) gs
unfolding includes
includes-AreTwins g [] p ps = (λ h. tt, λ h. refl)
includes-AreTwins g (h ∷ gs) p ps =
    let rest = includes-AreTwins g gs p ps.1 in
    let twins = λ (e : same (gate_key h) (gate_key g) ≡ true).
      gate_key-AreTwins g h p ps.0 (sym (same→eq (gate_key h) (gate_key g) e)) in
    let same_key =
      λ (t : AreTwins g h). eq→same (gate_key h) (gate_key g) (sym (key_of_twins g h t)) in
    (
      λ e. ((λ t. ground (arith, same_key t, e)), rest.0 (ground arith)),
      λ x. elim (Bool-cases (same (gate_key h) (gate_key g))) [
        | inl e ↦ absurd (x.0 (twins e))
        | inr e ↦ rw e (rest.1 x.1)
      ],
    )

-- The joined keys are unique exactly when no two gates are twins.
unique_keys_iff :
    (gs : List PolicyGateRequirement)
    → All IsPlain gs
    → (is_unique (map gate_key gs) ≡ true) ↔ AreDistinct gs
unfolding is_unique
unique_keys_iff [] ps = (λ h. tt, λ h. refl)
unique_keys_iff (g ∷ gs) ps =
    let head = includes-AreTwins g gs ps.0 ps.1 in
    let tail = unique_keys_iff gs ps.1 in
    (λ e. (head.0 (ground arith), tail.0 (ground arith)), λ x. rw (head.1 x.0) (tail.1 x.1))

module _ ⦃u : Unicode⦄ where
  plain_text-IsFree : (n : ℕ) (v : Value) (s : Text) → plain_text n v ≡ some s → IsFree s
  unfolding plain_text
  plain_text-IsFree n v s h = ground arith

  gate_from-IsPlain :
      (v1 v2 v3 v4 v5 v6 : Value) (g : PolicyGateRequirement)
      → gate_from v1 v2 v3 v4 v5 v6 ≡ some g
      → IsPlain g
  unfolding gate_from
  gate_from-IsPlain v1 v2 v3 v4 v5 v6 g h =
      let (id, e, h1) = bind-some (plain_text 128 v1) _ g h in
      let (version, _, h2) = bind-some (plain_text 128 v2) _ g h1 in
      let (command_key, _, h3) = bind-some (plain_text 128 v3) _ g h2 in
      let (command, _, h4) = bind-some (digest v4) _ g h3 in
      let (environment, _, h5) = bind-some (digest v5) _ g h4 in
      let (valid, _, h6) = bind-some (or_null_by seconds v6) _ g h5 in
      let named : id ≡ g.gate_id = ground arith in
      subst IsFree named (plain_text-IsFree 128 v1 id e)

  parse_gate_requirement-IsPlain :
      (v : Value) (g : PolicyGateRequirement) → parse_gate_requirement v ≡ some g → IsPlain g
  unfolding parse_gate_requirement
  parse_gate_requirement-IsPlain v g h =
      let (r, _, h1) = bind-some (exact_record v gate_keys) _ g h in
      gate_from-IsPlain (get r "gateId") (get r "gateVersion") (get r "commandKey")
        (get r "commandIdentitySha256") (get r "toolEnvironmentSha256") (get r "validForSeconds") g
        h1

  parse_gates-IsPlain :
      (vs : List Value) (gs : List PolicyGateRequirement)
      → parse_gates vs ≡ some gs
      → All IsPlain gs
  unfolding parse_gates
  parse_gates-IsPlain [] gs h =
      let none_read : [] ≡ gs = ground arith in subst (All IsPlain) none_read tt
  parse_gates-IsPlain (v ∷ vs) gs h =
      let (g, e, h1) = bind-some (parse_gate_requirement v) _ gs h in
      let (rest, f, h2) = bind-some (parse_gates vs) _ gs h1 in
      let all_read : (g ∷ rest) ≡ gs = ground arith in
      subst (All IsPlain) all_read
        (parse_gate_requirement-IsPlain v g e, parse_gates-IsPlain vs rest f)

  -- For gates as they are read, the joined keys that the source compares are without a repetition exactly when no two gates have the same identifier and the same version.
  pub parse_gates-AreDistinct :
      (vs : List Value) (gs : List PolicyGateRequirement)
      → parse_gates vs ≡ some gs
      → (is_unique (map gate_key gs) ≡ true) ↔ AreDistinct gs
  parse_gates-AreDistinct vs gs h = unique_keys_iff gs (parse_gates-IsPlain vs gs h)
