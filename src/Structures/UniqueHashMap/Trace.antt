-- ===== src/Structures/UniqueHashMap/Trace.antt =====
-- Any sequence of operations of include/kernel/structures/unique_hash_map.h, from a new map on.
use influx.Base.{
  ℕ, suc, ◌+◌, ◌^◌, ◌≤◌, length, length-set, arith, ◌<◌, ◌≡◌, refl, ap, ◌∙◌, List, [], ◌∷◌, Option,
  none, some, set, get_elem?,
}
use influx.Base.Run.{Run, ok, ◌>>=◌}
use influx.Structures.UniqueHashMap.{UniqueHashMap, new, insert_unique, erase, at}
use influx.Structures.UniqueHashMap.Spec.{fill, value_or}
use influx.Structures.UniqueHashMap.Refinement.{Represents, new-Represents, insert_unique-EndsSmall}
use influx.Structures.UniqueHashMap.Removal.{erase-Stays, at-value_or}

pub data Operation {ℓ} (V : Type ℓ) : Type ℓ where
  add : V → Operation V
  drop_key : ℕ → Operation V

module _ {ℓ} {V : Type ℓ} where
  unfoldable pub run_operation : Operation V → UniqueHashMap V → Run (UniqueHashMap V)
  run_operation (add value) u = insert_unique u value >>= λ r. ok r.0
  run_operation (drop_key k) u = erase u k >>= λ r. ok r.0

  unfoldable pub run_all : List (Operation V) → UniqueHashMap V → Run (UniqueHashMap V)
  unfolding run_operation
  run_all [] u = ok u
  run_all (o ∷ operations) u = run_operation o u >>= run_all operations

  -- The same on the table of slots.
  abbrev pub slots_after : List (Operation V) → List (Option V) → List (Option V)
  slots_after [] slots = slots
  slots_after (add value ∷ operations) slots = slots_after operations (fill value slots)
  slots_after (drop_key k ∷ operations) slots = slots_after operations (set slots k none)

  length-fill :
      (value : V) (slots : List (Option V)) → length (fill value slots) ≤ suc (length slots)
  unfolding fill
  length-fill value [] = omega arith
  length-fill value (none ∷ slots) = omega arith
  length-fill value (some v ∷ slots) = omega (arith, length-fill value slots)

  run_all-Represents :
      (operations : List (Operation V)) (u : UniqueHashMap V) (slots : List (Option V)) (spare : ℕ)
      → Represents u slots spare
      → length slots + spare ≤ 2 ^ 24
      → length slots + length operations ≤ 2 ^ 23
      → (u' : UniqueHashMap V) × (spare' : ℕ) × (run_all operations u ≡ ok u')
        × Represents u' (slots_after operations slots) spare'
        × (u'.map.empty_item ≡ u.map.empty_item)
  unfolding run_all
  run_all-Represents [] u slots spare r small few = (u, spare, refl, r, refl)
  run_all-Represents (add value ∷ operations) u slots spare r small few =
      let (u₁, spare₁, run, r₁, same, fit) =
        insert_unique-EndsSmall u slots spare value r small (omega arith) in
      let (u₂, spare₂, rest, r₂, same₂) =
        run_all-Represents operations u₁ (fill value slots) spare₁ r₁ fit
          (omega (arith, length-fill value slots)) in
      (u₂, spare₂, rw run rest, r₂, same₂ ∙ same)
  run_all-Represents (drop_key k ∷ operations) u slots spare r small few =
      let kept = length-set slots k none in
      let (u₁, run, r₁, same) = erase-Stays u slots spare k r in
      let (u₂, spare₂, rest, r₂, same₂) =
        run_all-Represents operations u₁ (set slots k none) spare r₁ (omega arith) (omega arith) in
      (u₂, spare₂, rw run rest, r₂, same₂ ∙ same)

  -- Any sequence of at most 2 ^ 23 calls of `insert_unique` and `erase` on a new map of at least one
  -- and at most 2 ^ 24 buckets ends without a fault, and `at` of any key then answers what a table of
  -- slots holds after the same sequence, in which a value goes to the lowest free slot and an erased
  -- slot is free; the empty item for a slot that is free or beyond the table.
  pub at-run_all :
      (operations : List (Operation V)) (n : ℕ) (e : V)
      → 0 < n
      → n ≤ 2 ^ 24
      → length operations ≤ 2 ^ 23
      → (u : UniqueHashMap V) × (run_all operations (new n e) ≡ ok u)
        × ((k : ℕ) → at u k ≡ ok (value_or e (get_elem? (slots_after operations []) k)))
  unfolding new influx.Structures.HashMap.new
  at-run_all operations n e h small few =
      let (u, spare, run, r, same) =
        run_all-Represents operations (new n e) [] n (new-Represents n e h) (omega arith)
          (omega arith) in
      let empty : u.map.empty_item ≡ e = same ∙ refl in
      (
        u,
        run,
        λ k.
            at-value_or u (slots_after operations []) spare k r
            ∙ ap (λ v. ok (value_or v (get_elem? (slots_after operations []) k))) empty,
      )
