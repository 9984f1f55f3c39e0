-- ===== src/Base/Sort/Filter.antt =====
-- Filters of sorted lists, and sorted lists in which no key stands twice.
use mathlib.Core.Path.{◌≡◌, refl, ap, ◌∙◌, sym}
use mathlib.Core.Logic.{inl, inr}
use mathlib.Core.Bool.{Bool, true, false, ◌&&◌}
use mathlib.Core.List.{List, [], ◌∷◌, map}
use native.Mathlib.Omega.{arith}
use agent_task_orchestrator.Base.Tests.{Bool-cases}
use agent_task_orchestrator.Base.Lists.{All, keep}
use agent_task_orchestrator.Base.Texts.{Text, before, before_total, same_comm, includes, is_unique}
use agent_task_orchestrator.Base.Sort.Defs.{insert, sort}
use agent_task_orchestrator.Base.Sort.Laws.{IsOrdered, insert_of_least, below-All, sort-IsOrdered}

-- A filter keeps what holds of all, the order, the uniqueness of keys, and commutes with the sort.
module _ {ℓ} {A : Type ℓ} (p : A → Bool) where
  pub keep-All {κ} : (P : A → Type κ) (xs : List A) → All P xs → All P (keep p xs)
  keep-All P [] h = tt
  keep-All P (x ∷ xs) h = elim (Bool-cases (p x)) [
    | inl e ↦ rw e (h.0, keep-All P xs h.1)
    | inr e ↦ rw e (keep-All P xs h.1)
  ]

  pub keep-IsOrdered : (key : A → Text) (xs : List A) → IsOrdered key xs → IsOrdered key (keep p xs)
  keep-IsOrdered key [] h = tt
  keep-IsOrdered key (x ∷ xs) h = elim (Bool-cases (p x)) [
    | inl e ↦
        rw e (keep-All (λ y. before (key y) (key x) ≡ false) xs h.0, keep-IsOrdered key xs h.1)
    | inr e ↦ rw e (keep-IsOrdered key xs h.1)
  ]

  includes-keep :
      (key : A → Text) (k : Text) (xs : List A)
      → includes (map key xs) k ≡ false
      → includes (map key (keep p xs)) k ≡ false
  unfolding includes
  includes-keep key k [] h = refl
  includes-keep key k (x ∷ xs) h = elim (Bool-cases (p x)) [
    | inl e ↦ rw e (ground (arith, includes-keep key k xs))
    | inr e ↦ rw e (includes-keep key k xs (ground arith))
  ]

  pub is_unique-keep :
      (key : A → Text) (xs : List A)
      → is_unique (map key xs) ≡ true
      → is_unique (map key (keep p xs)) ≡ true
  unfolding is_unique
  is_unique-keep key [] h = refl
  is_unique-keep key (x ∷ xs) h = elim (Bool-cases (p x)) [
    | inl e ↦ rw e (ground (arith, includes-keep key (key x) xs, is_unique-keep key xs))
    | inr e ↦ rw e (is_unique-keep key xs (ground arith))
  ]

  keep-insert_out :
      (key : A → Text) (x : A) (xs : List A) → p x ≡ false → keep p (insert key x xs) ≡ keep p xs
  unfolding insert
  keep-insert_out key x [] h = rw h refl
  keep-insert_out key x (y ∷ ys) h = elim (Bool-cases (before (key y) (key x))) [
    | inl e ↦ rw (e, keep-insert_out key x ys h) refl
    | inr e ↦ rw (e, h) refl
  ]

  keep-insert_in :
      (key : A → Text) (x : A) (xs : List A)
      → IsOrdered key xs
      → p x ≡ true
      → keep p (insert key x xs) ≡ insert key x (keep p xs)
  unfolding insert
  keep-insert_in key x [] o h = rw h refl
  keep-insert_in key x (y ∷ ys) o h = elim (Bool-cases (before (key y) (key x))) [
    | inl e ↦ elim (Bool-cases (p y)) [
      | inl f ↦ rw (e, f, keep-insert_in key x ys o.1 h) (rw e refl)
      | inr f ↦ rw (e, f, keep-insert_in key x ys o.1 h) refl
    ]
    | inr e ↦
        let least : All (λ z. before (key z) (key x) ≡ false) (keep p (y ∷ ys)) =
          keep-All (λ z. before (key z) (key x) ≡ false) (y ∷ ys) (e, below-All key x y ys e o.0) in
        rw (e, h) (sym (insert_of_least key x (keep p (y ∷ ys)) least))
  ]

  pub keep-sort : (key : A → Text) (xs : List A) → keep p (sort key xs) ≡ sort key (keep p xs)
  unfolding sort
  keep-sort key [] = refl
  keep-sort key (x ∷ xs) = elim (Bool-cases (p x)) [
    | inl e ↦
        keep-insert_in key x (sort key xs) (sort-IsOrdered key xs) e ∙ rw (e, keep-sort key xs) refl
    | inr e ↦ keep-insert_out key x (sort key xs) e ∙ rw (e, keep-sort key xs) refl
  ]

module _ {ℓ} {A : Type ℓ} where
  pub keep-keep :
      (p q r : A → Bool) (xs : List A)
      → All (λ x. (q x && p x) ≡ r x) xs
      → keep q (keep p xs) ≡ keep r xs
  keep-keep p q r [] h = refl
  keep-keep p q r (x ∷ xs) h = elim (Bool-cases (p x)) [
    | inl e ↦ elim (Bool-cases (q x)) [
      | inl f ↦
          let kept : r x ≡ true = sym h.0 ∙ rw (e, f) refl in
          rw (e, kept) (rw f (ap (λ (l : List A). x ∷ l) (keep-keep p q r xs h.1)))
      | inr f ↦
          let dropped : r x ≡ false = sym h.0 ∙ rw (e, f) refl in
          rw (e, dropped) (rw f (keep-keep p q r xs h.1))
    ]
    | inr e ↦
        let dropped : r x ≡ false = sym h.0 ∙ ground (arith, e) in
        rw (e, dropped) (keep-keep p q r xs h.1)
  ]

-- Each key stands before all later ones.
module _ {ℓ} {A : Type ℓ} (key : A → Text) where
  abbrev pub IsStrict : List A → Type ℓ
  IsStrict [] = Unit
  IsStrict (x ∷ xs) = All (λ y. before (key x) (key y) ≡ true) xs × IsStrict xs

  includes-map-insert :
      (x : A) (xs : List A) (k : Text)
      → includes (map key (insert key x xs)) k ≡ includes (key x ∷ map key xs) k
  unfolding insert includes
  includes-map-insert x [] k = refl
  includes-map-insert x (y ∷ ys) k = ground (arith, includes-map-insert x ys k)

  includes-map-sort :
      (xs : List A) (k : Text) → includes (map key (sort key xs)) k ≡ includes (map key xs) k
  unfolding sort includes
  includes-map-sort [] k = refl
  includes-map-sort (x ∷ xs) k =
      includes-map-insert x (sort key xs) k ∙ ground (arith, includes-map-sort xs k)

  All-behind :
      (x : A) (ys : List A)
      → All (λ y. before (key y) (key x) ≡ false) ys
      → includes (map key ys) (key x) ≡ false
      → All (λ y. before (key x) (key y) ≡ true) ys
  unfolding includes
  All-behind x [] o h = tt
  All-behind x (y ∷ ys) o h = (
    ground (arith, o.0, before_total (key y) (key x), same_comm (key x) (key y)),
    All-behind x ys o.1 (ground arith),
  )

  -- An ordered list without a key twice.
  unique-IsStrict : (xs : List A) → IsOrdered key xs → is_unique (map key xs) ≡ true → IsStrict xs
  unfolding is_unique
  unique-IsStrict [] o h = tt
  unique-IsStrict (x ∷ xs) o h =
      (All-behind x xs o.0 (ground arith), unique-IsStrict xs o.1 (ground arith))

  unique_of_insert :
      (x : A) (xs : List A)
      → is_unique (map key xs) ≡ true
      → includes (map key xs) (key x) ≡ false
      → is_unique (map key (insert key x xs)) ≡ true
  unfolding insert is_unique includes
  unique_of_insert x [] h k = refl
  unique_of_insert x (y ∷ ys) h k = elim (Bool-cases (before (key y) (key x))) [
    | inl e ↦ rw e (
        ground (
          arith,
          unique_of_insert x ys,
          includes-map-insert x ys (key y),
          same_comm (key x) (key y),
        ))
    | inr e ↦ rw e (ground arith)
  ]

  unique_of_sort :
      (xs : List A) → is_unique (map key xs) ≡ true → is_unique (map key (sort key xs)) ≡ true
  unfolding sort is_unique
  unique_of_sort [] h = refl
  unique_of_sort (x ∷ xs) h =
      unique_of_insert x (sort key xs) (unique_of_sort xs (ground arith))
        (includes-map-sort xs (key x) ∙ ground arith)

  pub sort-IsStrict : (xs : List A) → is_unique (map key xs) ≡ true → IsStrict (sort key xs)
  sort-IsStrict xs h = unique-IsStrict (sort key xs) (sort-IsOrdered key xs) (unique_of_sort xs h)
