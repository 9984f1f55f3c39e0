-- ===== src/Base/Keep.antt =====
-- What stands in a filtered list.
use mathlib.Core.Path.{◌≡◌}
use mathlib.Core.Logic.{inl, inr}
use mathlib.Core.Bool.{Bool, true}
use mathlib.Core.List.{List, [], ◌∷◌}
use agent_task_orchestrator.Base.Tests.{Bool-cases}
use agent_task_orchestrator.Base.Lists.{In, keep}

module _ {ℓ} {A : Type ℓ} (p : A → Bool) where
  pub In-keep : {x : A} {xs : List A} → In x xs → p x ≡ true → In x (keep p xs)
  In-keep In.here h = rw h In.here
  In-keep (In.there {x = y} i) h = elim (Bool-cases (p y)) [
    | inl e ↦ rw e (In.there (In-keep i h))
    | inr e ↦ rw e (In-keep i h)
  ]

  at_head :
      {x y : A} {xs ys : List A}
      → p y ≡ true
      → (In x xs → In x ys × (p x ≡ true))
      → In x (y ∷ xs)
      → In x (y ∷ ys) × (p x ≡ true)
  at_head e rest In.here = (In.here, e)
  at_head e rest (In.there j) = let (k, h) = rest j in (In.there k, h)

  pub keep-In : {x : A} (xs : List A) → In x (keep p xs) → In x xs × (p x ≡ true)
  keep-In [] i = elim i [ ]
  keep-In (y ∷ ys) i = elim (Bool-cases (p y)) [
    | inl e ↦ at_head e (keep-In ys) (rw e at i)
    | inr e ↦ let (j, h) = keep-In ys (rw e at i) in (In.there j, h)
  ]
