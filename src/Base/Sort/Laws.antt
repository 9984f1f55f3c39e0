-- ===== src/Base/Sort/Laws.antt =====
-- The sort orders a list, keeps an ordered list as it is, and changes no search by key and no test
-- of all items.
use mathlib.Core.Path.{◌≡◌, refl, ◌∙◌}
use mathlib.Core.Logic.{inl, inr}
use mathlib.Core.Bool.{true, false, ◌||◌}
use mathlib.Core.List.{List, [], ◌∷◌}
use native.Mathlib.Omega.{arith}
use agent_task_orchestrator.Base.Tests.{Bool-cases}
use agent_task_orchestrator.Base.Lists.{All, In, find}
use agent_task_orchestrator.Base.Texts.{
  Text, before, before_trans, before_irrefl, before_total, same, same→eq, includes,
}
use agent_task_orchestrator.Base.Sort.Defs.{insert, sort}

not_before_trans : (s t u : Text) → before t s ≡ false → before u t ≡ false → before u s ≡ false
not_before_trans s t u h k = elim (Bool-cases (before u s)) [
  | inr e ↦ e
  | inl e ↦ elim (Bool-cases (same u t)) [
    | inl q ↦ ground (arith, same→eq u t q)
    | inr q ↦ ground (arith, before_total u t k q, before_trans t u s)
  ]
]

module _ {ℓ} {A : Type ℓ} (key : A → Text) where
  -- No item stands behind one that its key stands before.
  abbrev pub IsOrdered : List A → Type ℓ
  IsOrdered [] = Unit
  IsOrdered (x ∷ xs) = All (λ y. before (key y) (key x) ≡ false) xs × IsOrdered xs

  pub All-insert {κ} :
      (P : A → Type κ) (x : A) (xs : List A) → P x → All P xs → All P (insert key x xs)
  unfolding insert
  All-insert P x [] px h = (px, tt)
  All-insert P x (y ∷ ys) px h = elim (Bool-cases (before (key y) (key x))) [
    | inl e ↦ rw e (h.0, All-insert P x ys px h.1)
    | inr e ↦ rw e (px, h)
  ]

  pub All-sort {κ} : (P : A → Type κ) (xs : List A) → All P xs → All P (sort key xs)
  unfolding sort
  All-sort P [] h = tt
  All-sort P (x ∷ xs) h = All-insert P x (sort key xs) h.0 (All-sort P xs h.1)

  In-insert_here : (x : A) (xs : List A) → In x (insert key x xs)
  unfolding insert
  In-insert_here x [] = In.here
  In-insert_here x (y ∷ ys) = elim (Bool-cases (before (key y) (key x))) [
    | inl e ↦ rw e (In.there (In-insert_here x ys))
    | inr e ↦ rw e In.here
  ]

  In-insert : {z : A} (x : A) (xs : List A) → In z xs → In z (insert key x xs)
  unfolding insert
  In-insert x [] i = elim i [ ]
  In-insert x (y ∷ ys) In.here = elim (Bool-cases (before (key y) (key x))) [
    | inl e ↦ rw e In.here
    | inr e ↦ rw e (In.there In.here)
  ]
  In-insert x (y ∷ ys) (In.there i) = elim (Bool-cases (before (key y) (key x))) [
    | inl e ↦ rw e (In.there (In-insert x ys i))
    | inr e ↦ rw e (In.there (In.there i))
  ]

  pub In-sort : {z : A} {xs : List A} → In z xs → In z (sort key xs)
  unfolding sort
  In-sort (In.here {xs = xs}) = In-insert_here _ (sort key xs)
  In-sort (In.there {x = x} {xs = xs} i) = In-insert x (sort key xs) (In-sort i)

  pub below-All :
      (x y : A) (ys : List A)
      → before (key y) (key x) ≡ false
      → All (λ z. before (key z) (key y) ≡ false) ys
      → All (λ z. before (key z) (key x) ≡ false) ys
  below-All x y [] h a = tt
  below-All x y (z ∷ zs) h a =
      (not_before_trans (key x) (key y) (key z) h a.0, below-All x y zs h a.1)

  pub before_asym : (x y : A) → before (key y) (key x) ≡ true → before (key x) (key y) ≡ false
  before_asym x y h = elim (Bool-cases (before (key x) (key y))) [
    | inr e ↦ e
    | inl e ↦ ground (arith, before_trans (key x) (key y) (key x) e h, before_irrefl (key x))
  ]

  insert-IsOrdered : (x : A) (xs : List A) → IsOrdered xs → IsOrdered (insert key x xs)
  unfolding insert
  insert-IsOrdered x [] h = (tt, tt)
  insert-IsOrdered x (y ∷ ys) h = elim (Bool-cases (before (key y) (key x))) [
    | inl e ↦ rw e (
      All-insert (λ z. before (key z) (key y) ≡ false) x ys (before_asym x y e) h.0,
      insert-IsOrdered x ys h.1,
    )
    | inr e ↦ rw e ((e, below-All x y ys e h.0), h)
  ]

  pub sort-IsOrdered : (xs : List A) → IsOrdered (sort key xs)
  unfolding sort
  sort-IsOrdered [] = tt
  sort-IsOrdered (x ∷ xs) = insert-IsOrdered x (sort key xs) (sort-IsOrdered xs)

  pub insert_of_least :
      (x : A) (xs : List A)
      → All (λ y. before (key y) (key x) ≡ false) xs
      → insert key x xs ≡ x ∷ xs
  unfolding insert
  insert_of_least x [] h = refl
  insert_of_least x (y ∷ ys) h = rw h.0 refl

  pub sort_of_IsOrdered : (xs : List A) → IsOrdered xs → sort key xs ≡ xs
  unfolding sort
  sort_of_IsOrdered [] h = refl
  sort_of_IsOrdered (x ∷ xs) h = rw (sort_of_IsOrdered xs h.1) (insert_of_least x xs h.0)

  pub sort-sort : (xs : List A) → sort key (sort key xs) ≡ sort key xs
  sort-sort xs = sort_of_IsOrdered (sort key xs) (sort-IsOrdered xs)

  -- A search by key finds the first item with the key, which the sort leaves first.
  find-insert :
      (k : Text) (x : A) (xs : List A)
      → find (λ a. same (key a) k) (insert key x xs) ≡ find (λ a. same (key a) k) (x ∷ xs)
  unfolding insert
  find-insert k x [] = refl
  find-insert k x (y ∷ ys) = elim (Bool-cases (before (key y) (key x))) [
    | inr e ↦ rw e refl
    | inl e ↦ rw e (elim (Bool-cases (same (key x) k)) [
      | inr q ↦ ground (arith, find-insert k x ys)
      | inl q ↦
          ground (
            arith,
            find-insert k x ys,
            same→eq (key x) k q,
            same→eq (key y) k,
            before_irrefl (key x),
          )
    ])
  ]

  pub find-sort :
      (k : Text) (xs : List A)
      → find (λ a. same (key a) k) (sort key xs) ≡ find (λ a. same (key a) k) xs
  unfolding sort
  find-sort k [] = refl
  find-sort k (x ∷ xs) = find-insert k x (sort key xs) ∙ ground (arith, find-sort k xs)

includes-insert :
    (x : Text) (xs : List Text) (k : Text)
    → includes (insert (λ t. t) x xs) k ≡ (same x k || includes xs k)
unfolding insert includes
includes-insert x [] k = refl
includes-insert x (y ∷ ys) k = ground (arith, includes-insert x ys k)

pub includes-sort : (xs : List Text) (k : Text) → includes (sort (λ t. t) xs) k ≡ includes xs k
unfolding sort includes
includes-sort [] k = refl
includes-sort (x ∷ xs) k =
    includes-insert x (sort (λ t. t) xs) k ∙ ground (arith, includes-sort xs k)
