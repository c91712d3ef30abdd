-- ===== src/Structures/NodeList.antt =====
-- The linked list of include/kernel/structures/node.h, as the list of the values from a node on. The
-- operations keep `prev` the inverse of `next`, so the order says all.
use influx.Base.{Bool, List, [], ◌∷◌, Option, none, some, if◌then◌else◌}

module _ {ℓ} {A : Type ℓ} (lt : A → A → Bool) where
  -- The walk of `insert` past the nodes that are smaller, and the link behind the last of them.
  unfoldable pub insert_after : A → List A → List A
  insert_after new [] = new ∷ []
  insert_after new (n ∷ rest) = if lt n new then n ∷ insert_after new rest else new ∷ n ∷ rest

  -- `head->insert(new)`: the list from its new head on.
  unfoldable pub insert : A → A → List A → List A
  insert new head rest = if lt new head then new ∷ head ∷ rest else head ∷ insert_after new rest

-- `find_node` with a comparison: the nodes before the match, the match and the nodes behind it.
unfoldable pub find_node {ℓ} : {A : Type ℓ} → (A → Bool) → List A → Option (List A × A × List A)
find_node p [] = none
find_node p (n ∷ rest) = if p n then some ([], n, rest) else elim (find_node p rest) [
  | none ↦ none
  | some (before, found, behind) ↦ some (n ∷ before, found, behind)
]
