-- ===== src/Domain/Graph/Parents.antt =====
-- The search of `parent_cycle` and the relation of ancestors.
use agent_task_orchestrator.Base.{
  Text, ℕ, zero, suc, ◌+◌, ◌≤◌, ◌≡◌, refl, ◌↔◌, inl, inr, true, false, List, [], ◌∷◌, Option, none,
  some, same, same→eq, eq→same, includes, is_unique, length, arith, Bool-cases, Option-cases, In,
  ◌∙◌,
}
use agent_task_orchestrator.Domain.Records.{Task}
use agent_task_orchestrator.Domain.Graph.{
  task_of, parent, parent_of, ids, climbs_back, climb_from, parent_cycle,
}
use agent_task_orchestrator.Domain.Graph.Reach.{length-le_of_unique}

-- One Task stands above another in the hierarchy, by one or more links.
pub data IsBelow (tasks : List Task) : Text → Text → Type 0 where
  link : {a b : Text} → parent tasks a ≡ some b → IsBelow tasks a b
  higher : {a b c : Text} → parent tasks a ≡ some b → IsBelow tasks b c → IsBelow tasks a c

abbrev pub IsHierarchy : List Task → Type 0
IsHierarchy tasks = (a : Text) → ¬ IsBelow tasks a a

-- The chain of parents from an identifier ends.
data Ends (tasks : List Task) : Text → Type 0 where
  top : {a : Text} → parent tasks a ≡ none → Ends tasks a
  below : {a b : Text} → parent tasks a ≡ some b → Ends tasks b → Ends tasks a

includes-ids_of_parent :
    (l : List Task) (a : Text) {b : Text}
    → parent_of (task_of l a) ≡ some b
    → includes (ids l) a ≡ true
unfolding includes
includes-ids_of_parent [] a h = absurd (cc)
includes-ids_of_parent (t ∷ ts) a {b} h = ground (arith, includes-ids_of_parent ts a {b = b})

module _ (tasks : List Task) where
  pub snoc : {a b c : Text} → IsBelow tasks a b → parent tasks b ≡ some c → IsBelow tasks a c
  snoc (IsBelow.link h) k = IsBelow.higher h (IsBelow.link k)
  snoc (IsBelow.higher h r) k = IsBelow.higher h (snoc r k)

  -- The chain has one way up.
  rotate : {a b : Text} → parent tasks a ≡ some b → IsBelow tasks a a → IsBelow tasks b b
  rotate {a} {b} h (IsBelow.link k) = let e : a ≡ b = cc in rw (← e) (IsBelow.link k)
  rotate {a} {b} h (IsBelow.higher {b = c} k r) = let e : c ≡ b = cc in rw (← e) (snoc r k)

  Ends-not-IsBelow : {a : Text} → Ends tasks a → ¬ IsBelow tasks a a
  Ends-not-IsBelow (Ends.top h) (IsBelow.link k) = cc
  Ends-not-IsBelow (Ends.top h) (IsBelow.higher k r) = cc
  Ends-not-IsBelow (Ends.below h e) r = Ends-not-IsBelow e (rotate h r)

  climbs_back-Ends :
      (fuel : ℕ) (seen : List Text) (id : Text)
      → climbs_back fuel tasks seen (some id) ≡ false
      → Ends tasks id
  unfolding climbs_back
  climbs_back-Ends zero seen id h = absurd (cc)
  climbs_back-Ends (suc fuel) seen id h = elim (Option-cases (parent tasks id)) [
    | inl e ↦ Ends.top e
    | inr (b, e) ↦
        let further : climbs_back fuel tasks (id ∷ seen) (some b) ≡ false = ground arith in
        Ends.below e (climbs_back-Ends fuel (id ∷ seen) b further)
  ]

  pub record IsChain (seen : List Text) (id : Text) : Type 0 where
    pub unique : is_unique seen ≡ true
    pub registered : (a : Text) → includes seen a ≡ true → includes (ids tasks) a ≡ true
    pub leads : (a : Text) → includes seen a ≡ true → IsBelow tasks a id

  pub length-ids : (l : List Task) → length (ids l) ≡ length l
  length-ids [] = refl
  length-ids (t ∷ ts) = omega (arith, length-ids ts)

  pub IsChain-push :
      (seen : List Text) (id b : Text)
      → includes seen id ≡ false
      → IsChain seen id
      → parent tasks id ≡ some b
      → IsChain (id ∷ seen) b
  unfolding is_unique includes
  IsChain-push seen id b fresh s p = record {
    unique = ground (arith, s.unique);
    registered = λ a h. elim (Bool-cases (same id a)) [
      | inl e ↦ rw (← same→eq id a e) (includes-ids_of_parent tasks id p)
      | inr e ↦ s.registered a (ground arith)
    ];
    leads = λ a h. elim (Bool-cases (same id a)) [
      | inl e ↦ rw (← same→eq id a e) (IsBelow.link p)
      | inr e ↦ snoc (s.leads a (ground arith)) p
    ];
  }

  climbs_back-hierarchy :
      IsHierarchy tasks
      → (fuel : ℕ) (seen : List Text) (id : Text) → IsChain seen id
      → suc (suc (length tasks)) ≤ fuel + length seen
      → climbs_back fuel tasks seen (some id) ≡ false
  unfolding climbs_back
  climbs_back-hierarchy tree zero seen id s h =
      absurd (
        omega (arith, length-ids tasks, length-le_of_unique seen (ids tasks) s.unique s.registered))
  climbs_back-hierarchy tree (suc fuel) seen id s h = elim (Bool-cases (includes seen id)) [
    | inl e ↦ absurd (tree id (s.leads id e))
    | inr fresh ↦ elim (Option-cases (parent tasks id)) [
      | inl e ↦ rw (fresh, e) refl
      | inr (b, e) ↦
          rw (fresh, e)
            (climbs_back-hierarchy tree fuel (id ∷ seen) b (IsChain-push seen id b fresh s e)
              (omega arith))
    ]
  ]

  -- The Tasks of a list whose identifiers are unique are those that their identifiers look up.
  abbrev AreFound : List Task → Type 0
  AreFound [] = Unit
  AreFound (t ∷ ts) = (task_of tasks t.id ≡ some t) × AreFound ts

  pub empty-IsChain : (id : Text) → IsChain [] id
  unfolding is_unique includes
  empty-IsChain id = record {
    unique = refl;
    registered = λ a h. absurd (cc);
    leads = λ a h. absurd (cc);
  }

  start-hierarchy :
      IsHierarchy tasks
      → (id : Text) (p : Option Text) → parent tasks id ≡ p
      → climbs_back (suc (length tasks)) tasks (id ∷ []) p ≡ false
  unfolding climbs_back includes
  start-hierarchy tree id none h = refl
  start-hierarchy tree id (some b) h =
      climbs_back-hierarchy tree (suc (length tasks)) (id ∷ []) b
        (IsChain-push [] id b refl (empty-IsChain id) h) (omega arith)

  parent_of_found : (t : Task) → task_of tasks t.id ≡ some t → parent tasks t.id ≡ t.parent_id
  parent_of_found t h = rw h refl

  climb_from-hierarchy :
      IsHierarchy tasks → (l : List Task) → AreFound l → climb_from tasks l ≡ none
  climb_from-hierarchy tree [] f = refl
  climb_from-hierarchy tree (t ∷ ts) f =
      rw (start-hierarchy tree t.id t.parent_id (parent_of_found t f.0))
        (climb_from-hierarchy tree ts f.1)

  start-Ends :
      (id : Text) (p : Option Text)
      → parent tasks id ≡ p
      → climbs_back (suc (length tasks)) tasks (id ∷ []) p ≡ false
      → Ends tasks id
  start-Ends id none h k = Ends.top h
  start-Ends id (some b) h k = Ends.below h (climbs_back-Ends (suc (length tasks)) (id ∷ []) b k)

  Ends-climb_from :
      (l : List Task)
      → AreFound l
      → climb_from tasks l ≡ none
      → (a : Text) → includes (ids l) a ≡ true
      → Ends tasks a
  unfolding includes
  Ends-climb_from [] f h a m = absurd (cc)
  Ends-climb_from (t ∷ ts) f h a m = elim (Bool-cases (same t.id a)) [
    | inl e ↦
        let stops : climbs_back (suc (length tasks)) tasks (t.id ∷ []) t.parent_id ≡ false =
          ground arith in
        rw (← same→eq t.id a e) (start-Ends t.id t.parent_id (parent_of_found t f.0) stops)
    | inr n ↦ Ends-climb_from ts f.1 (ground arith) a (ground arith)
  ]

  registered_of_IsBelow : {a b : Text} → IsBelow tasks a b → includes (ids tasks) a ≡ true
  registered_of_IsBelow {a} (IsBelow.link h) = includes-ids_of_parent tasks a h
  registered_of_IsBelow {a} (IsBelow.higher h r) = includes-ids_of_parent tasks a h

-- A list whose identifiers are unique is found by them.
find_later :
    (x : Task) (l : List Task) (id : Text)
    → includes (ids l) x.id ≡ false
    → includes (ids l) id ≡ true
    → task_of (x ∷ l) id ≡ task_of l id
find_later x l id fresh m = elim (Bool-cases (same x.id id)) [
  | inr e ↦ rw e refl
  | inl e ↦ ground (arith, same→eq x.id id e)
]

AreFound-cons :
    (x : Task) (l rest : List Task)
    → includes (ids l) x.id ≡ false
    → ((t : Task) → In t rest → includes (ids l) t.id ≡ true)
    → AreFound l rest
    → AreFound (x ∷ l) rest
AreFound-cons x l [] fresh m f = tt
AreFound-cons x l (t ∷ ts) fresh m f = (
  find_later x l t.id fresh (m t In.here) ∙ f.0,
  AreFound-cons x l ts fresh (λ y i. m y (In.there i)) f.1,
)

includes-ids_of_In : (t : Task) (l : List Task) → In t l → includes (ids l) t.id ≡ true
unfolding includes
includes-ids_of_In t _ (In.here {xs = xs}) = ground (arith, eq→same t.id t.id refl)
includes-ids_of_In t _ (In.there {xs = xs} i) = ground (arith, includes-ids_of_In t xs i)

pub AreFound-is_unique : (l : List Task) → is_unique (ids l) ≡ true → AreFound l l
unfolding is_unique
AreFound-is_unique [] u = tt
AreFound-is_unique (t ∷ ts) u = (
  rw (eq→same t.id t.id refl) refl,
  AreFound-cons t ts ts (ground arith) (λ x. includes-ids_of_In x ts)
      (AreFound-is_unique ts (ground arith)),
)

-- For Tasks with unique identifiers, the search over the parents reports no cycle exactly when no
-- Task is its own ancestor. The fuel of the model is enough for every such list.
pub parent_cycle_iff :
    (tasks : List Task)
    → is_unique (ids tasks) ≡ true
    → (parent_cycle tasks ≡ none) ↔ IsHierarchy tasks
unfolding parent_cycle
parent_cycle_iff tasks u = (
  λ h a r.
      Ends-not-IsBelow tasks
        (Ends-climb_from tasks tasks (AreFound-is_unique tasks u) h a
          (registered_of_IsBelow tasks r))
        r,
  λ tree. climb_from-hierarchy tasks tree tasks (AreFound-is_unique tasks u),
)
