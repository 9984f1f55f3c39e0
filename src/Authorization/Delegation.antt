-- ===== src/Authorization/Delegation.antt =====
-- When a grant may be issued, and what it may hold.
use agent_task_orchestrator.Base.{
  Text, ℕ, ◌≡◌, refl, ap, ◌∙◌, ◌↔◌, ◌⊎◌, inl, inr, true, false, List, [], ◌∷◌, none, some, arith,
  same, same→eq, eq→same, before, before_trans, before_total, keep, In, In-keep, keep-In,
  Bool-cases, Option-cases, All, All-In,
}
use agent_task_orchestrator.Reader.{Dates}
use agent_task_orchestrator.Authorization.Grants.{
  AuthorizationGrant, AuthorizationTarget, AuthorizationScope, runtime_scope, project_scope,
}
use agent_task_orchestrator.Authorization.Decision.{IsInScope, scope_matches_iff}
use agent_task_orchestrator.Authorization.Issue.{
  GrantIssueCandidate, GrantIssueProof, target_of_scope, is_issuable, supports, pair_with,
  find_pair, held_for, issue_action, can_issue_grant,
}

-- A grant of the issuer for the action that covers the candidate's time and scope.
pub record IsAuthority (issuer action : Text) (c : GrantIssueCandidate) (now : Text)
    (g : AuthorizationGrant) : Type 0 where
  pub actor : g.actor_id ≡ issuer
  pub for_action : g.action ≡ action
  pub unrevoked : g.revoked_at ≡ none
  pub begun : before now g.not_before ≡ false
  pub lasting : before g.expires_at c.expires_at ≡ false
  pub in_scope : IsInScope g.scope (target_of_scope c.scope)

supports-IsAuthority :
    (issuer action : Text) (c : GrantIssueCandidate) (now : Text) (g : AuthorizationGrant)
    → held_for issuer action g ≡ true
    → supports g c now ≡ true
    → IsAuthority issuer action c now g
unfolding supports
supports-IsAuthority issuer action c now g h k = ground (
  arith,
  same→eq g.actor_id issuer,
  same→eq g.action action,
  scope_matches_iff g.scope (target_of_scope c.scope),
)

supports_of_authority :
    (issuer action : Text) (c : GrantIssueCandidate) (now : Text) (g : AuthorizationGrant)
    → IsAuthority issuer action c now g
    → (held_for issuer action g ≡ true) × (supports g c now ≡ true)
unfolding supports
supports_of_authority issuer action c now g h = ground (
  arith,
  eq→same g.actor_id issuer,
  eq→same g.action action,
  scope_matches_iff g.scope (target_of_scope c.scope),
)

-- What the loops find.
pair_with_found :
    (a : AuthorizationGrant) (l : List AuthorizationGrant) (c : GrantIssueCandidate) (now : Text)
    (p : GrantIssueProof)
    → pair_with a l c now ≡ some p
    → (supports a c now ≡ true)
      × ((s : AuthorizationGrant) × In s l
          × (supports s c now ≡ true)
          × (p.source_grant_id ≡ s.grant_id)
          × (p.administrative_grant_id ≡ a.grant_id))
unfolding pair_with
pair_with_found a [] c now p h = absurd (cc)
pair_with_found a (s ∷ rest) c now p h = elim (Bool-cases (supports a c now)) [
  | inl x ↦ elim (Bool-cases (supports s c now)) [
    | inl y ↦ (x, (s, In.here, y, ground arith, ground arith))
    | inr y ↦
        let (z, (s', j, w, e, f)) = pair_with_found a rest c now p (ground arith) in
        (z, (s', In.there j, w, e, f))
  ]
  | inr x ↦ let (z, _) = pair_with_found a rest c now p (ground arith) in absurd (ground arith)
]

pair_with_complete :
    (a : AuthorizationGrant) (l : List AuthorizationGrant) (c : GrantIssueCandidate) (now : Text)
    (s : AuthorizationGrant)
    → supports a c now ≡ true
    → In s l
    → supports s c now ≡ true
    → (p : GrantIssueProof) × (pair_with a l c now ≡ some p)
unfolding pair_with
pair_with_complete a [] c now s x j y = elim j [ ]
pair_with_complete a (s ∷ rest) c now s' x In.here y =
    (record { administrative_grant_id = a.grant_id; source_grant_id = s'.grant_id }, rw (x, y) refl)
pair_with_complete a (t ∷ rest) c now s x (In.there j) y = elim (Bool-cases (supports t c now)) [
  | inl z ↦ (
    record { administrative_grant_id = a.grant_id; source_grant_id = t.grant_id },
    rw (x, z) refl,
  )
  | inr z ↦ let (p, e) = pair_with_complete a rest c now s x j y in (p, rw (x, z) e)
]

find_pair_found :
    (admins l : List AuthorizationGrant) (c : GrantIssueCandidate) (now : Text)
    (p : GrantIssueProof)
    → find_pair admins l c now ≡ some p
    → (a : AuthorizationGrant) × (s : AuthorizationGrant) × In a admins
      × In s l
      × (supports a c now ≡ true)
      × (supports s c now ≡ true)
      × (p.source_grant_id ≡ s.grant_id)
      × (p.administrative_grant_id ≡ a.grant_id)
unfolding find_pair
find_pair_found [] l c now p h = absurd (cc)
find_pair_found (a ∷ rest) l c now p h = elim (Option-cases (pair_with a l c now)) [
  | inl e ↦
      let (a', s, j, k, x, y, i, f) = find_pair_found rest l c now p (rw e at h) in
      (a', s, In.there j, k, x, y, i, f)
  | inr q ↦
      let (p', e) = q in
      let same_proof : p' ≡ p = ground arith in
      let (x, (s, k, y, i, f)) = pair_with_found a l c now p (e ∙ ap some same_proof) in
      (a, s, In.here, k, x, y, i, f)
]

find_pair_complete :
    (admins l : List AuthorizationGrant) (c : GrantIssueCandidate) (now : Text)
    (a s : AuthorizationGrant)
    → In a admins
    → In s l
    → supports a c now ≡ true
    → supports s c now ≡ true
    → (p : GrantIssueProof) × (find_pair admins l c now ≡ some p)
unfolding find_pair
find_pair_complete [] l c now a s j k x y = elim j [ ]
find_pair_complete (a ∷ rest) l c now _ s In.here k x y =
    let (p, e) = pair_with_complete a l c now s x k y in (p, rw e refl)
find_pair_complete (b ∷ rest) l c now a s (In.there j) k x y =
    elim (Option-cases (pair_with b l c now)) [
      | inl e ↦ let (p, f) = find_pair_complete rest l c now a s j k x y in (p, rw e f)
      | inr q ↦ let (p, e) = q in (p, rw e refl)
    ]

-- A proof comes with the tests passed and the two grants.
can_issue_grant_found :
    ⦃d : Dates⦄ (issuer : Text) (grants : List AuthorizationGrant) (c : GrantIssueCandidate)
    (now : Text) (p : GrantIssueProof)
    → can_issue_grant issuer grants c now ≡ some p
    → (is_issuable issuer c now ≡ true)
      × ((a : AuthorizationGrant) × In a grants × IsAuthority issuer issue_action c now a)
      × ((s : AuthorizationGrant) × In s grants
          × IsAuthority issuer c.action c now s
          × (p.source_grant_id ≡ s.grant_id))
unfolding can_issue_grant
can_issue_grant_found issuer grants c now p h =
    let passed : is_issuable issuer c now ≡ true = ground arith in
    let admins = keep (held_for issuer issue_action) grants in
    let sources = keep (held_for issuer c.action) grants in
    let found : find_pair admins sources c now ≡ some p = rw passed at h in
    let (a, s, j, k, x, y, i, f) = find_pair_found admins sources c now p found in
    let (j', held) = keep-In (held_for issuer issue_action) grants j in
    let (k', held') = keep-In (held_for issuer c.action) grants k in
    (
      passed,
      (a, j', supports-IsAuthority issuer issue_action c now a held x),
      (s, k', supports-IsAuthority issuer c.action c now s held' y, i),
    )

-- `canIssueGrant` finds a proof exactly when the identifiers and times pass its tests and the issuer has, among the grants, an authority to issue grants and an authority for the candidate's action that cover the candidate's time and scope.
pub can_issue_grant_iff :
    ⦃d : Dates⦄ (issuer : Text) (grants : List AuthorizationGrant) (c : GrantIssueCandidate)
    (now : Text)
    → ((p : GrantIssueProof) × (can_issue_grant issuer grants c now ≡ some p)) ↔ (
        (is_issuable issuer c now ≡ true)
        × ((a : AuthorizationGrant) × In a grants × IsAuthority issuer issue_action c now a)
        × ((s : AuthorizationGrant) × In s grants × IsAuthority issuer c.action c now s))
unfolding can_issue_grant
can_issue_grant_iff issuer grants c now = (
  λ h.
      let (passed, admin, (s, k, source, _)) = can_issue_grant_found issuer grants c now h.0 h.1 in
      (passed, admin, (s, k, source)),
  λ h.
      let (passed, (a, j, admin), (s, k, source)) = h in
      let (held, x) = supports_of_authority issuer issue_action c now a admin in
      let (held', y) = supports_of_authority issuer c.action c now s source in
      let (p, e) =
        find_pair_complete (keep (held_for issuer issue_action) grants)
          (keep (held_for issuer c.action) grants) c now a s
          (In-keep (held_for issuer issue_action) j held)
          (In-keep (held_for issuer c.action) k held') x y in
      (p, rw (passed, e) refl),
)

-- The scopes that `parseScope` makes.
abbrev pub IsScope : AuthorizationScope → Type 0
IsScope scope =
    (scope ≡ runtime_scope)
    ⊎ ((id : Text) × (resource : ℕ) × (config : ℕ) × (scope ≡ project_scope id resource config))

-- `≤` of texts, as two tests, is transitive.
no_earlier : (a b c : Text) → before b c ≡ false → before a b ≡ false → before a c ≡ false
no_earlier a b c h k = elim (Bool-cases (before a c)) [
  | inl e ↦ elim (Bool-cases (same a b)) [
    | inl s ↦ rw (same→eq a b s) h
    | inr n ↦ absurd (ground (arith, before_total a b, before_trans b a c))
  ]
  | inr e ↦ e
]

source-IsInScope :
    (scope source : AuthorizationScope) (target : AuthorizationTarget)
    → IsScope source
    → IsScope scope
    → IsInScope source (target_of_scope scope)
    → IsInScope scope target
    → IsInScope source target
source-IsInScope scope source target x y h k = ground arith

-- What may be issued is no more than the issuer has: for grants and a candidate whose scopes are as they are read, the grant that the proof names as its source is one of the grants, is for the candidate's action, begins no later and ends no earlier than the candidate, and holds every target that the candidate's scope holds.
pub can_issue_grant_within :
    ⦃d : Dates⦄ (issuer : Text) (grants : List AuthorizationGrant) (c : GrantIssueCandidate)
    (now : Text) (p : GrantIssueProof) (target : AuthorizationTarget)
    → All (λ (g : AuthorizationGrant). IsScope g.scope) grants
    → IsScope c.scope
    → can_issue_grant issuer grants c now ≡ some p
    → IsInScope c.scope target
    → (s : AuthorizationGrant) × In s grants
      × (p.source_grant_id ≡ s.grant_id)
      × (s.actor_id ≡ issuer)
      × (s.action ≡ c.action)
      × (before c.not_before s.not_before ≡ false)
      × (before s.expires_at c.expires_at ≡ false)
      × IsInScope s.scope target
unfolding is_issuable
can_issue_grant_within issuer grants c now p target scopes scope h k =
    let (passed, _, (s, j, source, named)) = can_issue_grant_found issuer grants c now p h in
    (
      s,
      j,
      named,
      source.actor,
      source.for_action,
      no_earlier c.not_before now s.not_before source.begun (ground arith),
      source.lasting,
      source-IsInScope c.scope s.scope target
          (All-In (λ (g : AuthorizationGrant). IsScope g.scope) scopes j) scope source.in_scope k,
    )
