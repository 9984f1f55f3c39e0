-- ===== src/Domain/Graph/Search.antt =====
-- The search of `dependency_reaches` and the paths of dependencies.
use agent_task_orchestrator.Base.{
  Text, ℕ, zero, suc, ◌+◌, ◌≤◌, ◌≡◌, refl, ◌⊎◌, ◌↔◌, inl, inr, true, false, ◌||◌, List, [], ◌∷◌,
  same, same→eq, eq→same, includes, In, In→includes, length, arith, Bool-cases, if◌then◌else◌, ◌∙◌,
}
use agent_task_orchestrator.Domain.Records.{Task}
use agent_task_orchestrator.Domain.Graph.{
  task_of, dependencies, dependencies_of, push_all, reaches_from, edges, dependency_reaches,
}
use agent_task_orchestrator.Domain.Graph.Reach.{Reaches}

-- The same Task, or one that it depends on.
abbrev pub Leads : List Task → Text → Text → Type 0
Leads tasks a b = (a ≡ b) ⊎ Reaches tasks a b

In-push_all :
    (ds pending : List Text) {a : Text} → In a (push_all ds pending) → In a ds ⊎ In a pending
In-push_all [] pending i = inr i
In-push_all (d ∷ ds) pending i = elim (In-push_all ds (d ∷ pending) i) [
  | inl j ↦ inl (In.there j)
  | inr j ↦ head_or_tail j
]
  where
    head_or_tail : {a : Text} → In a (d ∷ pending) → In a (d ∷ ds) ⊎ In a pending
    head_or_tail In.here = inl In.here
    head_or_tail (In.there j) = inr j

includes-push_all :
    (ds pending : List Text) (a : Text)
    → includes (push_all ds pending) a ≡ (includes ds a || includes pending a)
unfolding includes
includes-push_all [] pending a = refl
includes-push_all (d ∷ ds) pending a = includes-push_all ds (d ∷ pending) a ∙ ground arith

length-push_all :
    (ds pending : List Text) → length (push_all ds pending) ≡ length ds + length pending
length-push_all [] pending = omega arith
length-push_all (d ∷ ds) pending = omega (arith, length-push_all ds (d ∷ pending))

module _ (tasks : List Task) (target : Text) where
  prepend : {a d : Text} → In d (dependencies tasks a) → Leads tasks d target → Leads tasks a target
  prepend i (inl e) = inr (rw (← e) (Reaches.step i))
  prepend i (inr r) = inr (Reaches.onward i r)

  -- Some pending identifier leads to the target.
  reaches_from-Leads :
      (fuel : ℕ) (seen pending : List Text)
      → reaches_from fuel tasks target seen pending ≡ true
      → (a : Text) × In a pending × Leads tasks a target
  unfolding reaches_from
  reaches_from-Leads fuel seen [] h = absurd (ground arith)
  reaches_from-Leads zero seen (c ∷ pending) h = absurd (ground arith)
  reaches_from-Leads (suc fuel) seen (c ∷ pending) h = elim (Bool-cases (same c target)) [
    | inl e ↦ (c, In.here, inl (same→eq c target e))
    | inr n ↦ elim (Bool-cases (includes seen c)) [
      | inl old ↦
          let (a, i, l) = reaches_from-Leads fuel seen pending (ground arith) in (a, In.there i, l)
      | inr new ↦
          let (a, i, l) =
            reaches_from-Leads fuel (c ∷ seen) (push_all (dependencies tasks c) pending)
              (ground arith) in
          elim (In-push_all (dependencies tasks c) pending i) [
            | inl j ↦ (c, In.here, prepend j l)
            | inr j ↦ (a, In.there j, l)
          ]
    ]
  ]

  -- The edges of the Tasks that were not seen.
  unseen : List Text → List Task → ℕ
  unseen seen [] = 0
  unseen seen (t ∷ ts) =
      (if includes seen t.id then 0 else length t.dependency_ids) + unseen seen ts

  unseen_mono : (c : Text) (seen : List Text) (l : List Task) → unseen (c ∷ seen) l ≤ unseen seen l
  unfolding unseen includes
  unseen_mono c seen [] = omega arith
  unseen_mono c seen (t ∷ ts) = ground (arith, unseen_mono c seen ts)

  unseen_drop :
      (c : Text) (seen : List Text) (l : List Task)
      → includes seen c ≡ false
      → unseen (c ∷ seen) l + length (dependencies_of (task_of l c)) ≤ unseen seen l
  unfolding unseen includes
  unseen_drop c seen [] h = omega arith
  unseen_drop c seen (t ∷ ts) h = elim (Bool-cases (same t.id c)) [
    | inl e ↦ ground (arith, same→eq t.id c e, eq→same c t.id, unseen_mono c seen ts)
    | inr n ↦ ground (arith, unseen_drop c seen ts h, same→eq c t.id, eq→same t.id c)
  ]

  unseen-edges : (l : List Task) → unseen [] l ≡ edges l
  unfolding unseen includes
  unseen-edges [] = refl
  unseen-edges (t ∷ ts) = omega (arith, unseen-edges ts)

  -- A set that holds what was seen and what is pending, is closed under dependencies, and does
  -- not hold the target.
  record IsBarrier (seen pending members : List Text) : Type 0 where
    holds_seen : (a : Text) → includes seen a ≡ true → includes members a ≡ true
    holds_pending : (a : Text) → includes pending a ≡ true → includes members a ≡ true
    closed :
        (a : Text)
        → includes members a ≡ true
        → (d : Text) → In d (dependencies tasks a)
        → includes members d ≡ true
    excludes : includes members target ≡ false

  record IsFrontier (seen pending : List Text) : Type 0 where
    covered :
        (a : Text)
        → includes seen a ≡ true
        → (d : Text) → In d (dependencies tasks a)
        → (includes seen d ≡ true) ⊎ (includes pending d ≡ true)
    not_target : includes seen target ≡ false

  includes_cases :
      (c : Text) (xs : List Text) (a : Text)
      → includes (c ∷ xs) a ≡ true
      → (c ≡ a) ⊎ (includes xs a ≡ true)
  unfolding includes
  includes_cases c xs a h = elim (Bool-cases (same c a)) [
    | inl e ↦ inl (same→eq c a e)
    | inr n ↦ inr (ground arith)
  ]

  includes_here : (c : Text) (xs : List Text) → includes (c ∷ xs) c ≡ true
  includes_here c xs = In→includes In.here

  includes_later :
      (c : Text) (xs : List Text) (a : Text) → includes xs a ≡ true → includes (c ∷ xs) a ≡ true
  unfolding includes
  includes_later c xs a h = ground arith

  module _ (seen pending : List Text) (c : Text) (f : IsFrontier seen (c ∷ pending)) where
    skip-IsFrontier : includes seen c ≡ true → IsFrontier seen pending
    skip-IsFrontier old = record {
      covered = λ a h d i. elim (f.covered a h d i) [
        | inl k ↦ inl k
        | inr k ↦ elim (includes_cases c pending d k) [ inl e ↦ inl (rw (← e) old) | inr q ↦ inr q ]
      ];
      not_target = f.not_target;
    }

    pushed :
        (d : Text)
        → (In d (dependencies tasks c)) ⊎ (includes pending d ≡ true)
        → includes (push_all (dependencies tasks c) pending) d ≡ true
    pushed d (inl i) =
        ground (arith, includes-push_all (dependencies tasks c) pending d, In→includes i)
    pushed d (inr k) = ground (arith, includes-push_all (dependencies tasks c) pending d)

    expand-IsFrontier :
        same c target ≡ false → IsFrontier (c ∷ seen) (push_all (dependencies tasks c) pending)
    unfolding includes
    expand-IsFrontier other = record {
      covered = λ a h d i. elim (includes_cases c seen a h) [
        | inl e ↦ inr (pushed d (inl (rw e i)))
        | inr k ↦ elim (f.covered a k d i) [
          | inl old ↦ inl (includes_later c seen d old)
          | inr q ↦ elim (includes_cases c pending d q) [
            | inl e ↦ inl (rw (← e) (includes_here c seen))
            | inr p ↦ inr (pushed d (inr p))
          ]
        ]
      ];
      not_target = ground (arith, f.not_target);
    }

  skip-IsBarrier :
      (seen pending members : List Text) (c : Text)
      → includes seen c ≡ true
      → IsBarrier seen pending members
      → IsBarrier seen (c ∷ pending) members
  skip-IsBarrier seen pending members c old b = record {
    holds_seen = b.holds_seen;
    holds_pending = λ a h. elim (includes_cases c pending a h) [
      | inl e ↦ b.holds_seen a (rw (← e) old)
      | inr k ↦ b.holds_pending a k
    ];
    closed = b.closed;
    excludes = b.excludes;
  }

  expand-IsBarrier :
      (seen pending members : List Text) (c : Text)
      → IsBarrier (c ∷ seen) (push_all (dependencies tasks c) pending) members
      → IsBarrier seen (c ∷ pending) members
  expand-IsBarrier seen pending members c b = record {
    holds_seen = λ a h. b.holds_seen a (includes_later c seen a h);
    holds_pending = λ a h. elim (includes_cases c pending a h) [
      | inl e ↦ b.holds_seen a (rw (← e) (includes_here c seen))
      | inr k ↦
          b.holds_pending a (ground (arith, includes-push_all (dependencies tasks c) pending a))
    ];
    closed = b.closed;
    excludes = b.excludes;
  }

  barrier :
      (fuel : ℕ) (seen pending : List Text)
      → length pending + unseen seen tasks ≤ fuel
      → IsFrontier seen pending
      → reaches_from fuel tasks target seen pending ≡ false
      → (members : List Text) × IsBarrier seen pending members
  unfolding reaches_from includes
  barrier fuel seen [] h f no_path = (
    seen,
    record {
      holds_seen = λ a k. k;
      holds_pending = λ a k. absurd (ground arith);
      closed = λ a k d i. elim (f.covered a k d i) [ inl q ↦ q | inr q ↦ absurd (ground arith) ];
      excludes = f.not_target;
    },
  )
  barrier zero seen (c ∷ pending) h f no_path = absurd (omega arith)
  barrier (suc fuel) seen (c ∷ pending) h f no_path = elim (Bool-cases (includes seen c)) [
    | inl old ↦
        let (members, b) =
          barrier fuel seen pending (omega arith) (skip-IsFrontier seen pending c f old)
            (ground arith) in
        (members, skip-IsBarrier seen pending members c old b)
    | inr new ↦
        let (members, b) =
          barrier fuel (c ∷ seen) (push_all (dependencies tasks c) pending)
            (omega
              (arith, unseen_drop c seen tasks new, length-push_all (dependencies tasks c) pending))
            (expand-IsFrontier seen pending c f (ground arith)) (ground arith) in
        (members, expand-IsBarrier seen pending members c b)
  ]

  -- No path from a member of a barrier leads to the target.
  inside :
      (members : List Text)
      → ((a : Text)
          → includes members a ≡ true
          → (d : Text) → In d (dependencies tasks a)
          → includes members d ≡ true)
      → {a b : Text} → includes members a ≡ true
      → Reaches tasks a b
      → includes members b ≡ true
  inside members closed h (Reaches.step i) = closed _ h _ i
  inside members closed h (Reaches.onward i r) = inside members closed (closed _ h _ i) r

  no_path_of_false :
      (start : Text) → dependency_reaches tasks start target ≡ false → ¬ Leads tasks start target
  unfolding dependency_reaches includes
  no_path_of_false start h l =
      let (members, b) =
        barrier (suc (edges tasks)) [] (start ∷ []) (omega (arith, unseen-edges tasks))
          (record { covered = λ a k. absurd (ground arith); not_target = refl }) h in
      let inner = b.holds_pending start (includes_here start []) in
      elim l [
        | inl e ↦ ground (arith, b.excludes, inner)
        | inr r ↦ ground (arith, b.excludes, inside members b.closed inner r)
      ]

  path_of_true :
      (start : Text) → dependency_reaches tasks start target ≡ true → Leads tasks start target
  unfolding dependency_reaches
  path_of_true start h =
      let (a, i, l) = reaches_from-Leads (suc (edges tasks)) [] (start ∷ []) h in only a i l
    where
      only : (a : Text) → In a (start ∷ []) → Leads tasks a target → Leads tasks start target
      only a In.here l = l
      only a (In.there i) l = elim i [ ]

-- The worklist search answers `true` exactly when the start is the target or depends on it, through
-- any number of Tasks. The fuel of the model is enough for every list of Tasks.
pub dependency_reaches_iff :
    (tasks : List Task) (start target : Text)
    → (dependency_reaches tasks start target ≡ true) ↔ Leads tasks start target
dependency_reaches_iff tasks start target = (
  path_of_true tasks target start,
  λ l. elim (Bool-cases (dependency_reaches tasks start target)) [
    | inl e ↦ e
    | inr e ↦ absurd (no_path_of_false tasks target start e l)
  ],
)
