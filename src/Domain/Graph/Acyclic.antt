-- ===== src/Domain/Graph/Acyclic.antt =====
-- The depth-first search of `dependency_cycle` and the relation of dependencies.
use agent_task_orchestrator.Base.{
  Text, ℕ, zero, suc, ◌+◌, ◌≤◌, ◌≡◌, refl, ◌⊎◌, ◌↔◌, inl, inr, true, false, not, List, [], ◌∷◌,
  none, same, same→eq, eq→same, includes, In, In→includes, includes→In, is_unique, length, arith,
  Bool-cases, keep, subst,
}
use agent_task_orchestrator.Domain.Records.{Task}
use agent_task_orchestrator.Domain.Graph.{
  dependencies, ids, Marks, Walk, clear, visit, visit_each, leave, dependency_cycle, found_id,
}
use agent_task_orchestrator.Domain.Graph.Reach.{
  Reaches, Grounded, IsAcyclic, Reaches-snoc, Grounded-not-Reaches, includes-ids_of_task,
  length-le_of_unique,
}

visit_each_cons :
    (v : Text → Marks → Walk) (d : Text) (ds : List Text) (m m' : Marks)
    → visit_each v (d ∷ ds) m ≡ clear m'
    → (n : Marks) × (v d m ≡ clear n) × (visit_each v ds n ≡ clear m')
unfolding visit_each
visit_each_cons v d ds m m' h = ground arith

-- The marks when `id` is left.
abbrev left : Text → Marks → Marks
left id m = record { visiting = keep (λ v. not (same v id)) m.visiting; visited = id ∷ m.visited }

clear_of_leave :
    (id : Text) (w : Walk) (m' : Marks)
    → leave id w ≡ clear m'
    → (n : Marks) × (w ≡ clear n) × (m' ≡ left id n)
clear_of_leave id (Walk.found c) m' h = absurd (cc)
clear_of_leave id (Walk.clear n) m' h = (n, refl, cc)

abbrev blank : Marks
blank = record { visiting = []; visited = [] }

abbrev entered : Text → Marks → Marks
entered id m = record { visiting = id ∷ m.visiting; visited = m.visited }

module _ (tasks : List Task) where
  -- Every path from a visited identifier ends.
  abbrev AreGrounded : Marks → Type 0
  AreGrounded m = (a : Text) → includes m.visited a ≡ true → Grounded tasks a

  -- What visiting the identifiers `ds` does, when it finds no cycle.
  record IsTour (ds : List Text) (m m' : Marks) : Type 0 where
    sound : AreGrounded m → AreGrounded m'
    grows : (a : Text) → includes m.visited a ≡ true → includes m'.visited a ≡ true
    marks : (d : Text) → In d ds → includes m'.visited d ≡ true

  stay : (m : Marks) → IsTour [] m m
  stay m = record { sound = λ s. s; grows = λ a h. h; marks = λ d i. elim i [ ] }

  IsTour-cons :
      (d : Text) (ds : List Text) (m n m' : Marks)
      → IsTour (d ∷ []) m n
      → IsTour ds n m'
      → IsTour (d ∷ ds) m m'
  IsTour-cons d ds m n m' f g = record {
    sound = λ s. g.sound (f.sound s);
    grows = λ a h. g.grows a (f.grows a h);
    marks = either;
  }
    where
      either : (a : Text) → In a (d ∷ ds) → includes m'.visited a ≡ true
      either a In.here = g.grows d (f.marks d In.here)
      either a (In.there i) = g.marks a i

  visit_each-IsTour :
      (v : Text → Marks → Walk)
      → ((id : Text) (m m' : Marks) → v id m ≡ clear m' → IsTour (id ∷ []) m m')
      → (ds : List Text) (m m' : Marks) → visit_each v ds m ≡ clear m'
      → IsTour ds m m'
  unfolding visit_each
  visit_each-IsTour v ok [] m m' h = let e : m ≡ m' = cc in rw (← e) (stay m)
  visit_each-IsTour v ok (d ∷ ds) m m' h =
      let (n, first, rest) = visit_each_cons v d ds m m' h in
      IsTour-cons d ds m n m' (ok d m n first) (visit_each-IsTour v ok ds n m' rest)

  left-includes :
      (id : Text) (n : Marks) (a : Text)
      → includes (id ∷ n.visited) a ≡ true
      → (id ≡ a) ⊎ (includes n.visited a ≡ true)
  unfolding includes
  left-includes id n a h = elim (Bool-cases (same id a)) [
    | inl e ↦ inl (same→eq id a e)
    | inr e ↦ inr (ground arith)
  ]

  includes_cons :
      (id : Text) (xs : List Text) (a : Text) → includes xs a ≡ true → includes (id ∷ xs) a ≡ true
  unfolding includes
  includes_cons id xs a h = ground arith

  -- Leaving `id` after a tour of its dependencies.
  left-IsTour :
      (id : Text) (m n : Marks)
      → IsTour (dependencies tasks id) (entered id m) n
      → IsTour (id ∷ []) m (left id n)
  left-IsTour id m n t = record {
    sound = λ s a h. elim (left-includes id n a h) [
      | inl e ↦ rw (← e) (Grounded.all_grounded λ d i. t.sound s d (t.marks d i))
      | inr old ↦ t.sound s a old
    ];
    grows = λ a h. includes_cons id n.visited a (t.grows a h);
    marks = λ d i. In→includes (same_place d i);
  }
    where
      same_place : (d : Text) → In d (id ∷ []) → In d (id ∷ n.visited)
      same_place d In.here = In.here
      same_place d (In.there i) = elim i [ ]

  already-IsTour : (id : Text) (m : Marks) → includes m.visited id ≡ true → IsTour (id ∷ []) m m
  already-IsTour id m h = record { sound = λ s. s; grows = λ a k. k; marks = only }
    where
      only : (d : Text) → In d (id ∷ []) → includes m.visited d ≡ true
      only d In.here = h
      only d (In.there i) = elim i [ ]

  visit-IsTour :
      (n : ℕ) (id : Text) (m m' : Marks) → visit n tasks id m ≡ clear m' → IsTour (id ∷ []) m m'
  unfolding visit
  visit-IsTour zero id m m' h = absurd (cc)
  visit-IsTour (suc n) id m m' h = elim (Bool-cases (includes m.visited id)) [
    | inl e ↦ let same_marks : m ≡ m' = ground arith in rw (← same_marks) (already-IsTour id m e)
    | inr e ↦
        let (inner, tour, out) =
          clear_of_leave id (visit_each (visit n tasks) (dependencies tasks id) (entered id m)) m'
            (ground arith) in
        rw out (
          left-IsTour id m inner (
            visit_each-IsTour (visit n tasks) (visit-IsTour n) (dependencies tasks id)
              (entered id m) inner tour))
  ]

  -- The stack of identifiers being visited, where `id` comes next.
  record IsStack (visiting : List Text) (id : Text) : Type 0 where
    unique : is_unique visiting ≡ true
    registered : (a : Text) → includes visiting a ≡ true → includes (ids tasks) a ≡ true
    leads : (a : Text) → includes visiting a ≡ true → Reaches tasks a id

  -- Enough fuel is left for the identifiers that are not on the stack.
  abbrev HasFuel : ℕ → List Text → Type 0
  HasFuel n visiting = suc (length tasks) ≤ n + length visiting

  length-ids : (l : List Task) → length (ids l) ≡ length l
  length-ids [] = refl
  length-ids (t ∷ ts) = omega (arith, length-ids ts)

  fuel_left : (visiting : List Text) (id : Text) → IsStack visiting id → ¬ HasFuel zero visiting
  fuel_left visiting id s h =
      omega
        (arith, length-ids tasks, length-le_of_unique visiting (ids tasks) s.unique s.registered)

  IsStack-push :
      (visiting : List Text) (id d : Text)
      → includes visiting id ≡ false
      → IsStack visiting id
      → In d (dependencies tasks id)
      → IsStack (id ∷ visiting) d
  unfolding is_unique includes
  IsStack-push visiting id d fresh s i = record {
    unique = ground (arith, s.unique);
    registered = λ a h. elim (Bool-cases (same id a)) [
      | inl e ↦ rw (← same→eq id a e) (includes-ids_of_task tasks id i)
      | inr e ↦ s.registered a (ground arith)
    ];
    leads = λ a h. elim (Bool-cases (same id a)) [
      | inl e ↦ rw (← same→eq id a e) (Reaches.step i)
      | inr e ↦ Reaches-snoc (s.leads a (ground arith)) i
    ];
  }

  -- A walk that ends clear, and leaves the stack as it was.
  abbrev EndsClear : Walk → List Text → Type 0
  EndsClear w visiting = (m : Marks) × (w ≡ clear m) × (m.visiting ≡ visiting)

  keep-fresh :
      (id : Text) (xs : List Text) → includes xs id ≡ false → keep (λ v. not (same v id)) xs ≡ xs
  unfolding includes
  keep-fresh id [] h = refl
  keep-fresh id (x ∷ xs) h = ground (arith, keep-fresh id xs)

  leave-EndsClear :
      (id : Text) (w : Walk) (visiting : List Text)
      → includes visiting id ≡ false
      → EndsClear w (id ∷ visiting)
      → EndsClear (leave id w) visiting
  leave-EndsClear id w visiting fresh (n, e, same_stack) = (
    left id n,
    rw e refl,
    rw same_stack (ground (arith, keep-fresh id visiting fresh, eq→same id id refl)),
  )

  visit_each-EndsClear :
      (v : Text → Marks → Walk) (visiting : List Text)
      → (ds : List Text)
      → ((d : Text) (m : Marks) → In d ds → m.visiting ≡ visiting → EndsClear (v d m) visiting)
      → (m : Marks) → m.visiting ≡ visiting
      → EndsClear (visit_each v ds m) visiting
  unfolding visit_each
  visit_each-EndsClear v visiting [] ok m e = (m, refl, e)
  visit_each-EndsClear v visiting (d ∷ ds) ok m e =
      let (n, first, e') = ok d m In.here e in
      rw (first, visit_each)
        (visit_each-EndsClear v visiting ds (λ a k i. ok a k (In.there i)) n e')

  visit-EndsClear :
      IsAcyclic tasks
      → (n : ℕ) (id : Text) (m : Marks) → IsStack m.visiting id
      → HasFuel n m.visiting
      → EndsClear (visit n tasks id m) m.visiting
  unfolding visit
  visit-EndsClear acyclic zero id m s h = absurd (fuel_left m.visiting id s h)
  visit-EndsClear acyclic (suc n) id m s h = elim (Bool-cases (includes m.visiting id)) [
    | inl e ↦ absurd (acyclic id (s.leads id e))
    | inr fresh ↦ elim (Bool-cases (includes m.visited id)) [
      | inl e ↦ (m, ground arith, refl)
      | inr e ↦
          rw (fresh, e)
            (leave-EndsClear id (visit_each (visit n tasks) (dependencies tasks id) (entered id m))
              m.visiting fresh
              (visit_each-EndsClear (visit n tasks) (id ∷ m.visiting) (dependencies tasks id)
                (λ d k i same_stack. subst (EndsClear (visit n tasks d k)) same_stack (
                  visit-EndsClear acyclic n d k
                    (rw same_stack (IsStack-push m.visiting id d fresh s i))
                    (rw same_stack (omega arith))))
                (entered id m) refl))
    ]
  ]

  roots_clear : IsAcyclic tasks → dependency_cycle tasks ≡ none
  unfolding dependency_cycle is_unique includes
  roots_clear acyclic =
      let (m, e, stack) =
        visit_each-EndsClear (visit (suc (suc (length tasks))) tasks) [] (ids tasks)
          (λ d k i empty. subst (EndsClear (visit (suc (suc (length tasks))) tasks d k)) empty (
            visit-EndsClear acyclic (suc (suc (length tasks))) d k (rw empty (nothing d))
              (rw empty (omega arith))))
          blank refl in
      rw e refl
    where
      nothing : (d : Text) → IsStack [] d
      nothing d = record {
        unique = refl;
        registered = λ a h. absurd (cc);
        leads = λ a h. absurd (cc);
      }

  clear_of_none : (w : Walk) → found_id w ≡ none → (m : Marks) × (w ≡ clear m)
  clear_of_none (Walk.found c) h = absurd (cc)
  clear_of_none (Walk.clear m) h = (m, refl)

  registered_of_Reaches : {a b : Text} → Reaches tasks a b → includes (ids tasks) a ≡ true
  registered_of_Reaches {a} (Reaches.step i) = includes-ids_of_task tasks a i
  registered_of_Reaches {a} (Reaches.onward i r) = includes-ids_of_task tasks a i

  IsAcyclic-of_none : dependency_cycle tasks ≡ none → IsAcyclic tasks
  unfolding dependency_cycle is_unique includes
  IsAcyclic-of_none h a r =
      let walk = visit (suc (suc (length tasks))) tasks in
      let (m, e) = clear_of_none (visit_each walk (ids tasks) blank) h in
      let tour =
        visit_each-IsTour walk (visit-IsTour (suc (suc (length tasks)))) (ids tasks) blank m e in
      Grounded-not-Reaches
        (tour.sound (λ x h'. absurd (cc)) a
          (tour.marks a (includes→In (ids tasks) a (registered_of_Reaches r))))
        r

-- The depth-first search reports no cycle exactly when no Task depends on itself, directly or
-- through other Tasks. The fuel of the model is enough for every list of Tasks.
pub dependency_cycle_iff : (tasks : List Task) → (dependency_cycle tasks ≡ none) ↔ IsAcyclic tasks
dependency_cycle_iff tasks = (IsAcyclic-of_none tasks, roots_clear tasks)
