-- ===== src/Base/Sort/Defs.antt =====
-- `Array.prototype.sort` by a text key: the stable sort of the language, as an insertion sort.
use mathlib.Core.List.{List, [], ◌∷◌}
use agent_task_orchestrator.Base.Tests.{if◌then◌else◌}
use agent_task_orchestrator.Base.Texts.{Text, before}

module _ {ℓ} {A : Type ℓ} (key : A → Text) where
  unfoldable pub insert : A → List A → List A
  insert x [] = x ∷ []
  insert x (y ∷ ys) = if before (key y) (key x) then y ∷ insert x ys else x ∷ y ∷ ys

  unfoldable pub sort : List A → List A
  unfolding insert
  sort [] = []
  sort (x ∷ xs) = insert x (sort xs)
