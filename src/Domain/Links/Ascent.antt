-- ===== src/Domain/Links/Ascent.antt =====
-- The loop of `setTaskParentUnchecked` over the Tasks above a proposed parent.
use agent_task_orchestrator.Base.{
  Text, ℕ, zero, suc, ◌+◌, ◌≤◌, ◌≡◌, ◌≢◌, ◌⊎◌, ◌↔◌, refl, sym, subst, true, false, List, [], ◌∷◌,
  Option, none, some, arith, same, same→eq, eq→same, includes, length, Bool-cases, Option-cases,
  inl, inr,
}
use agent_task_orchestrator.Domain.Errors.{ok}
use agent_task_orchestrator.Domain.Records.{Task}
use agent_task_orchestrator.Domain.Graph.{task_of, parent, ids}
use agent_task_orchestrator.Domain.Graph.Parents.{
  IsBelow, IsHierarchy, snoc, IsChain, IsChain-push, empty-IsChain, length-ids,
}
use agent_task_orchestrator.Domain.Graph.Reach.{length-le_of_unique}
use agent_task_orchestrator.Domain.Mutation.Effect.{id_of_task_of}
use agent_task_orchestrator.Domain.Tasks.{same_nullable}
use agent_task_orchestrator.Domain.Links.{chain_holds, check_proposed_parent}

-- A proposed parent, if there is one: another registered Task of the same Project, and not below the
-- Task in the hierarchy.
abbrev pub IsProposed : List Task → Task → Option Text → Type 0
IsProposed tasks task none = Unit
IsProposed tasks task (some id) =
    (p : Task) × (task_of tasks id ≡ some p)
    × (p.project_id ≡ task.project_id)
    × (id ≢ task.id)
    × (¬ IsBelow tasks id task.id)

-- A nullable identifier that the comparison tells apart from another one.
pub same_nullable-eq : (a b : Option Text) → same_nullable a b ≡ false → a ≢ b
same_nullable-eq none none h e = absurd (cc)
same_nullable-eq none (some b) h e = absurd (ground arith)
same_nullable-eq (some a) none h e = absurd (ground arith)
same_nullable-eq (some a) (some b) h e =
    let f : a ≡ b = ground arith in ground (arith, eq→same a b f, h)

-- The first link of the way up.
first_link :
    (tasks : List Task) (a c : Text)
    → IsBelow tasks a c
    → (b : Text) × (parent tasks a ≡ some b) × ((b ≡ c) ⊎ IsBelow tasks b c)
first_link tasks a c (IsBelow.link h) = (c, h, inl refl)
first_link tasks a c (IsBelow.higher {b = b} h r) = (b, h, inr r)

module _ (tasks : List Task) where
  -- A Task with a Task above it is registered.
  registered_of_IsBelow : (a b : Text) → IsBelow tasks a b → (t : Task) × (task_of tasks a ≡ some t)
  registered_of_IsBelow a b r = elim (Option-cases (task_of tasks a)) [
    | inl e ↦ let (c, h, _) = first_link tasks a b r in absurd (ground (arith, e, h))
    | inr x ↦ x
  ]

  -- The Tasks that the loop has seen are below the next one.
  pushed :
      (seen : List Text) (a b : Text)
      → parent tasks a ≡ some b
      → ((x : Text) → includes seen x ≡ true → IsBelow tasks x a)
      → (x : Text) → includes (a ∷ seen) x ≡ true
      → IsBelow tasks x b
  unfolding includes
  pushed seen a b h below x m = elim (Bool-cases (same a x)) [
    | inl e ↦ rw (← same→eq a x e) (IsBelow.link h)
    | inr e ↦ snoc tasks (below x (ground arith)) h
  ]

  module _ (tree : IsHierarchy tasks) (target : Task)
      (known : task_of tasks target.id ≡ some target) where
    next_cursor :
        (b : Text)
        → (b ≡ target.id) ⊎ IsBelow tasks b target.id
        → (p : Task) × (task_of tasks b ≡ some p)
    next_cursor b (inl e) = (target, rw e known)
    next_cursor b (inr r) = registered_of_IsBelow b target.id r

    abbrev IsClear : Text → Type 0
    IsClear a = (a ≢ target.id) × (¬ IsBelow tasks a target.id)

    clear_above : (b : Text) → IsClear b → ¬ ((b ≡ target.id) ⊎ IsBelow tasks b target.id)
    clear_above b clear (inl e) = clear.0 e
    clear_above b clear (inr r) = clear.1 r

    -- Where the loop does not meet the Task, neither the cursor nor a Task above it is the Task.
    chain_holds-IsClear :
        (fuel : ℕ) (seen : List Text) (cursor : Task)
        → task_of tasks cursor.id ≡ some cursor
        → ((a : Text) → includes seen a ≡ true → IsBelow tasks a cursor.id)
        → chain_holds fuel tasks seen target.id (some cursor) ≡ false
        → IsClear cursor.id
    unfolding chain_holds
    chain_holds-IsClear zero seen cursor there below h = absurd (cc)
    chain_holds-IsClear (suc fuel) seen cursor there below h =
        elim (Bool-cases (includes seen cursor.id)) [
          | inl e ↦ absurd (tree cursor.id (below cursor.id e))
          | inr fresh ↦ (
            λ e. ground (arith, eq→same cursor.id target.id e),
            λ r.
                let (b, up, way) = first_link tasks cursor.id target.id r in
                let (p, found) = next_cursor b way in
                let named : p.id ≡ b = id_of_task_of tasks b p found in
                let linked : cursor.parent_id ≡ some b = ground (arith, there, up) in
                let further : chain_holds fuel tasks (cursor.id ∷ seen) target.id (some p) ≡ false =
                  ground (arith, linked, found, fresh, h) in
                let clear =
                  chain_holds-IsClear fuel (cursor.id ∷ seen) p (rw named found)
                    (rw named (pushed seen cursor.id b up below)) further in
                clear_above b (subst IsClear named clear) way,
          )
        ]

    passed_parts :
        (id : Text) (p : Task)
        → task_of tasks id ≡ some p
        → check_proposed_parent tasks target (some id) ≡ ok tt
        → (same p.project_id target.project_id ≡ true)
          × (chain_holds (suc (length tasks)) tasks [] target.id (some p) ≡ false)
    unfolding check_proposed_parent
    passed_parts id p found h = ground (arith, found, h)

    absent :
        (id : Text) → task_of tasks id ≡ none → check_proposed_parent tasks target (some id) ≢ ok tt
    unfolding check_proposed_parent
    absent id e h =
        let f : check_proposed_parent tasks target (some id) ≡ ok tt = h in ground (arith, e, f)

    check_proposed_parent-IsProposed :
        (p : Option Text) → check_proposed_parent tasks target p ≡ ok tt → IsProposed tasks target p
    unfolding check_proposed_parent includes
    check_proposed_parent-IsProposed none h = tt
    check_proposed_parent-IsProposed (some id) h = elim (Option-cases (task_of tasks id)) [
      | inl e ↦ absurd (absent id e h)
      | inr (p, found) ↦
          let named : p.id ≡ id = id_of_task_of tasks id p found in
          let (project, ends) = passed_parts id p found h in
          let clear = subst IsClear named (
            chain_holds-IsClear (suc (length tasks)) [] p
              (subst (λ k. task_of tasks k ≡ some p) (sym named) found) (λ a m. absurd (cc))
              ends) in
          (p, found, same→eq p.project_id target.project_id project, clear.0, clear.1)
    ]

    not_same : (a b : Text) → a ≢ b → same a b ≡ false
    not_same a b other = elim (Bool-cases (same a b)) [
      | inl e ↦ absurd (other (same→eq a b e))
      | inr e ↦ e
    ]

    chain_ends : (fuel : ℕ) (seen : List Text) → chain_holds fuel tasks seen target.id none ≡ false
    unfolding chain_holds
    chain_ends zero seen = refl
    chain_ends (suc fuel) seen = refl

    IsClear-next : (a b : Text) → parent tasks a ≡ some b → IsClear a → IsClear b
    IsClear-next a b up clear = (
      λ e. clear.1 (IsBelow.link (subst (λ k. parent tasks a ≡ some k) e up)),
      λ r. clear.1 (IsBelow.higher up r),
    )

    -- The loop ends within its fuel, without meeting the Task, where no Task on the way is the Task.
    IsClear-chain_holds :
        (fuel : ℕ) (seen : List Text) (cursor : Task)
        → task_of tasks cursor.id ≡ some cursor
        → IsChain tasks seen cursor.id
        → IsClear cursor.id
        → suc (length tasks) ≤ fuel + length seen
        → chain_holds fuel tasks seen target.id (some cursor) ≡ false
    unfolding chain_holds
    IsClear-chain_holds zero seen cursor there chain clear enough = absurd (
        omega (
          arith,
          length-ids tasks tasks,
          length-le_of_unique seen (ids tasks) chain.unique chain.registered,
        ))
    IsClear-chain_holds (suc fuel) seen cursor there chain clear enough =
        let other = not_same cursor.id target.id clear.0 in
        elim (Bool-cases (includes seen cursor.id)) [
          | inl e ↦ rw (other, e) refl
          | inr fresh ↦ elim (Option-cases cursor.parent_id) [
            | inl e ↦ rw (other, fresh, e) refl
            | inr x ↦
                let (b, e) = x in
                let up : parent tasks cursor.id ≡ some b = ground (arith, there, e) in
                elim (Option-cases (task_of tasks b)) [
                  | inl g ↦ rw (other, fresh, e, g) (chain_ends fuel (cursor.id ∷ seen))
                  | inr y ↦
                      let (p, g) = y in
                      let named : p.id ≡ b = id_of_task_of tasks b p g in
                      let next_chain =
                        subst (IsChain tasks (cursor.id ∷ seen)) (sym named)
                          (IsChain-push tasks seen cursor.id b fresh chain up) in
                      let next_clear =
                        subst IsClear (sym named) (IsClear-next cursor.id b up clear) in
                      let at_id = subst (λ k. task_of tasks k ≡ some p) (sym named) g in
                      rw (other, fresh, e, g)
                        (IsClear-chain_holds fuel (cursor.id ∷ seen) p at_id next_chain next_clear
                          (omega arith))
                ]
          ]
        ]

    IsProposed-check_proposed_parent :
        (p : Option Text) → IsProposed tasks target p → check_proposed_parent tasks target p ≡ ok tt
    unfolding check_proposed_parent
    IsProposed-check_proposed_parent none h = refl
    IsProposed-check_proposed_parent (some id) h =
        let (p, found, project, other, above) = h in
        let named : p.id ≡ id = id_of_task_of tasks id p found in
        let ends =
          IsClear-chain_holds (suc (length tasks)) [] p
            (subst (λ k. task_of tasks k ≡ some p) (sym named) found) (empty-IsChain tasks p.id)
            (subst IsClear (sym named) (other, above)) (omega arith) in
        rw (found, eq→same p.project_id target.project_id project, ends) refl

    -- The checks on a proposed parent pass exactly for a parent that may be proposed.
    pub check_proposed_parent_iff :
        (p : Option Text)
        → (check_proposed_parent tasks target p ≡ ok tt) ↔ IsProposed tasks target p
    check_proposed_parent_iff p =
        (check_proposed_parent-IsProposed p, IsProposed-check_proposed_parent p)
