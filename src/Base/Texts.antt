-- ===== src/Base/Texts.antt =====
-- Texts: a JavaScript string is its list of UTF-16 code units. Equality, the order of `<`, and the
-- sets of texts that the source keeps as `Set<string>` or reads by `includes`.
use Prim.Native.Nat.{ℕ}
use mathlib.Core.Path.{◌≡◌, refl}
use mathlib.Core.Logic.{◌⊎◌, inl, inr}
use mathlib.Core.Bool.{Bool, true, false, not, ◌&&◌, ◌||◌}
use mathlib.Core.List.{List, [], ◌∷◌}
use Prim.Native.Char.{code}
use Prim.Native.String.{String}
use native.Mathlib.Omega.{arith}
use agent_task_orchestrator.Base.Tests.{ltb, ◌==◌, if◌then◌else◌}
use agent_task_orchestrator.Base.Lists.{In}

abbrev pub Text : Type 0
Text = List ℕ

-- The code units of a constant of the source, which is ASCII.
abbrev pub text : String → Text
text String.[] = []
text (String.◌∷◌ c s) = code c ∷ text s

-- `===` on strings.
unfoldable pub same : Text → Text → Bool
same [] [] = true
same (a ∷ s) (b ∷ t) = (a == b) && same s t
same _ _ = false

-- `<` on strings.
unfoldable pub before : Text → Text → Bool
before [] [] = false
before [] (b ∷ t) = true
before (a ∷ s) [] = false
before (a ∷ s) (b ∷ t) = if ltb a b then true else (a == b) && before s t

pub same_refl : (s : Text) → same s s ≡ true
unfolding same
same_refl [] = refl
same_refl (a ∷ s) = ground (arith, same_refl s)

pub same→eq : (s t : Text) → same s t ≡ true → s ≡ t
unfolding same
same→eq [] [] h = refl
same→eq [] (b ∷ t) h = ground arith
same→eq (a ∷ s) [] h = ground arith
same→eq (a ∷ s) (b ∷ t) h = ground (arith, same→eq s t)

pub eq→same : (s t : Text) → s ≡ t → same s t ≡ true
eq→same s t e = ground (arith, same_refl s)

pub same_comm : (s t : Text) → same s t ≡ same t s
unfolding same
same_comm [] [] = refl
same_comm [] (b ∷ t) = refl
same_comm (a ∷ s) [] = refl
same_comm (a ∷ s) (b ∷ t) = ground (arith, same_comm s t)

pub before_irrefl : (s : Text) → before s s ≡ false
unfolding before
before_irrefl [] = refl
before_irrefl (a ∷ s) = ground (arith, before_irrefl s)

pub before_trans : (s t u : Text) → before s t ≡ true → before t u ≡ true → before s u ≡ true
unfolding before
before_trans [] [] u h k = ground arith
before_trans [] (b ∷ t) [] h k = ground arith
before_trans [] (b ∷ t) (c ∷ u) h k = refl
before_trans (a ∷ s) [] u h k = ground arith
before_trans (a ∷ s) (b ∷ t) [] h k = ground arith
before_trans (a ∷ s) (b ∷ t) (c ∷ u) h k = ground (arith, before_trans s t u)

pub before_total : (s t : Text) → before s t ≡ false → same s t ≡ false → before t s ≡ true
unfolding before same
before_total [] [] h k = ground arith
before_total [] (b ∷ t) h k = ground arith
before_total (a ∷ s) [] h k = refl
before_total (a ∷ s) (b ∷ t) h k = ground (arith, before_total s t)

-- `includes`, and `has` of a set.
unfoldable pub includes : List Text → Text → Bool
includes [] a = false
includes (x ∷ xs) a = same x a || includes xs a

-- `new Set(xs).size === xs.length`
unfoldable pub is_unique : List Text → Bool
unfolding includes
is_unique [] = true
is_unique (x ∷ xs) = not (includes xs x) && is_unique xs

pub In→includes : {a : Text} {xs : List Text} → In a xs → includes xs a ≡ true
unfolding includes
In→includes {a} In.here = ground (arith, same_refl a)
In→includes (In.there {x = x} i) = ground (arith, In→includes i)

pub includes→In : (xs : List Text) (a : Text) → includes xs a ≡ true → In a xs
unfolding includes
includes→In [] a h = absurd (ground arith)
includes→In (x ∷ xs) a h = elim (cases (same x a)) [
  | inl e ↦ subst_In (same→eq x a e)
  | inr e ↦ In.there (includes→In xs a (ground arith))
]
  where
    cases : (b : Bool) → (b ≡ true) ⊎ (b ≡ false)
    cases true = inl refl
    cases false = inr refl

    subst_In : x ≡ a → In a (x ∷ xs)
    subst_In e = rw e In.here
