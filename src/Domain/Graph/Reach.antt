-- ===== src/Domain/Graph/Reach.antt =====
-- The dependency relation of a list of Tasks, its paths, and the identifiers from which every path
-- ends.
use agent_task_orchestrator.Base.{
  Text, suc, ◌≤◌, ◌≡◌, refl, inl, inr, true, false, List, [], ◌∷◌, same, same→eq, eq→same, includes,
  In, is_unique, length, arith, Bool-cases, if◌then◌else◌,
}
use agent_task_orchestrator.Domain.Records.{Task}
use agent_task_orchestrator.Domain.Graph.{task_of, dependencies, dependencies_of, ids}

-- One Task depends on another, through one or more edges.
pub data Reaches (tasks : List Task) : Text → Text → Type 0 where
  step : {a b : Text} → In b (dependencies tasks a) → Reaches tasks a b
  onward : {a b c : Text} → In b (dependencies tasks a) → Reaches tasks b c → Reaches tasks a c

abbrev pub IsAcyclic : List Task → Type 0
IsAcyclic tasks = (a : Text) → ¬ Reaches tasks a a

-- Every path from the identifier ends.
pub data Grounded (tasks : List Task) : Text → Type 0 where
  all_grounded :
      {a : Text} → ((d : Text) → In d (dependencies tasks a) → Grounded tasks d) → Grounded tasks a

module _ {tasks : List Task} where
  pub Reaches-snoc :
      {a b c : Text} → Reaches tasks a b → In c (dependencies tasks b) → Reaches tasks a c
  Reaches-snoc (step i) j = Reaches.onward i (Reaches.step j)
  Reaches-snoc (onward i r) j = Reaches.onward i (Reaches-snoc r j)

  pub Grounded-not-Reaches : {a : Text} → Grounded tasks a → ¬ Reaches tasks a a
  Grounded-not-Reaches (all_grounded g) (step i) = Grounded-not-Reaches (g _ i) (Reaches.step i)
  Grounded-not-Reaches (all_grounded g) (onward i r) =
      Grounded-not-Reaches (g _ i) (Reaches-snoc r i)

-- Only a registered Task has dependencies.
pub includes-ids_of_task :
    (l : List Task) (a : Text) {d : Text}
    → In d (dependencies_of (task_of l a))
    → includes (ids l) a ≡ true
unfolding includes
includes-ids_of_task [] a i = elim i [ ]
includes-ids_of_task (t ∷ ts) a i = elim (Bool-cases (same t.id a)) [
  | inl e ↦ rw e refl
  | inr e ↦ rw e (includes-ids_of_task ts a (rw e at i))
]

-- Different identifiers of a list are no more than the list has.
remove : Text → List Text → List Text
remove a [] = []
remove a (x ∷ xs) = if same x a then xs else x ∷ remove a xs

length-remove :
    (a : Text) (xs : List Text) → includes xs a ≡ true → length xs ≡ suc (length (remove a xs))
unfolding remove includes
length-remove a [] h = absurd (ground arith)
length-remove a (x ∷ xs) h = ground (arith, length-remove a xs)

includes-remove :
    (a b : Text) (xs : List Text)
    → same b a ≡ false
    → includes xs b ≡ true
    → includes (remove a xs) b ≡ true
unfolding remove includes
includes-remove a b [] n h = absurd (ground arith)
includes-remove a b (x ∷ xs) n h =
    ground (arith, includes-remove a b xs n, same→eq x a, same→eq x b)

pub length-le_of_unique :
    (xs ys : List Text)
    → is_unique xs ≡ true
    → ((a : Text) → includes xs a ≡ true → includes ys a ≡ true)
    → length xs ≤ length ys
unfolding is_unique includes
length-le_of_unique [] ys u h = omega arith
length-le_of_unique (x ∷ xs) ys u h =
    let le : length xs ≤ length (remove x ys) =
      length-le_of_unique xs (remove x ys) (ground arith)
        λ a m. includes-remove x a ys (other a m) (h a (ground arith)) in
    omega (arith, le, length-remove x ys (h x (ground (arith, eq→same x x refl))))
  where
    other : (a : Text) → includes xs a ≡ true → same a x ≡ false
    other a m = elim (Bool-cases (same a x)) [ inr e ↦ e | inl e ↦ ground (arith, same→eq a x e) ]
