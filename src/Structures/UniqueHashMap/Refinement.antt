-- ===== src/Structures/UniqueHashMap/Refinement.antt =====
-- include/kernel/structures/unique_hash_map.h against the table of slots.
use influx.Base.{
  ℕ, zero, suc, ◌+◌, ◌^◌, ◌≤◌, ◌<◌, length-replicate, ◌≡◌, refl, sym, ap, ◌∙◌, true, false, List,
  [], ◌∷◌, ◌++◌, Option, none, some, length, map, replicate, length-append, length-map, ◌==◌,
  ==_iff, arith, inl, inr,
}
use influx.Base.Run.{Run, ok}
use influx.Structures.HashMap
use influx.Structures.HashMap.{HashMap}
use influx.Structures.HashMap.Slots.{Models, get_elem?-skip, set-skip}
use influx.Structures.HashMap.Growth.{new-Models, insert-slot, insert-full}
use influx.Structures.UniqueHashMap.{UniqueHashMap, new, insert_unique}
use influx.Structures.UniqueHashMap.Spec.{
  first_free, fill, holes, table_cases, first_free-full, first_free-hole, fill-full, fill-hole,
  holes-full, holes-filled,
}
use mathlib.Core.List.{append-nil, append_assoc}
use native.Mathlib.Nat.{add-zero}

-- The map holds the slots in use and `spare` buckets beyond them.
pub record Represents {ℓ} {V : Type ℓ} (u : UniqueHashMap V) (slots : List (Option V)) (spare : ℕ)
    : Type ℓ where
  pub held : Models u.map (slots ++ replicate spare none)
  pub counted : u.counter ≡ length slots
  pub listed : u.deleted_keys ≡ holes 0 slots
  pub wide : 0 < length slots + spare

module _ {ℓ} {V : Type ℓ} where
  -- What an operation that ends leaves behind: the answer, and a map of the slots.
  abbrev pub Ends {κ} :
      {R : Type κ} → Run (UniqueHashMap V × R) → R → List (Option V) → V → Type (ℓ ⊔ κ)
  Ends run answer slots e =
      (u : UniqueHashMap V) × (spare : ℕ) × (run ≡ ok (u, answer))
      × Represents u slots spare
      × (u.map.empty_item ≡ e)

  -- The same for a map whose buckets a `float` counts.
  abbrev EndsSmall {κ} :
      {R : Type κ} → Run (UniqueHashMap V × R) → R → List (Option V) → V → Type (ℓ ⊔ κ)
  EndsSmall run answer slots e =
      (u : UniqueHashMap V) × (spare : ℕ) × (run ≡ ok (u, answer))
      × Represents u slots spare
      × (u.map.empty_item ≡ e)
      × (length slots + spare ≤ 2 ^ 24)

  -- A new map of at least one bucket represents the empty table.
  pub new-Represents : (n : ℕ) (e : V) → 0 < n → Represents (new n e) [] n
  unfolding new holes
  new-Represents n e h = record {
    held = new-Models n e;
    counted = refl;
    listed = refl;
    wide = omega arith;
  }

  buckets-le :
      (slots : List (Option V)) (spare : ℕ)
      → length slots + spare ≤ 2 ^ 24
      → length (slots ++ replicate spare none) ≤ 2 ^ 24
  buckets-le slots spare h = omega (
    arith,
    h,
    length-append slots (replicate spare none),
    length-replicate {A = Option V} spare none,
  )

  -- The map with a free slot behind the values, or grown to have one.
  insert_next :
      (u : UniqueHashMap V) (values : List V) (spare : ℕ) (value : V)
      → Represents u (map some values) spare
      → length values + spare ≤ 2 ^ 24
      → length values ≤ 2 ^ 23
      → (m : HashMap V) × (spare' : ℕ) × (HashMap.insert u.map (length values) value ≡ ok (m, true))
        × Models m ((map some values ++ some value ∷ []) ++ replicate spare' none)
        × (m.empty_item ≡ u.map.empty_item)
        × (suc (length values) + spare' ≤ 2 ^ 24)
  insert_next u [] zero value r small few = absurd (omega (arith, r.wide))
  insert_next u (x ∷ values) zero value r small few =
      let (m, run, w, e) = insert-full x values value (rw append-nil at r.held) few in
      (m, length values, run, rw append_assoc w, e, omega arith)
  insert_next u values (suc spare) value r small few =
      let full : List (Option V) = map some values in
      let count : length full ≡ length values = length-map values (λ (y : V). some y) in
      let free = replicate {A = Option V} spare none in
      let (m, run, w, e) =
        insert-slot (length values) value r.held (buckets-le full (suc spare) (omega arith))
          (rw count at (get_elem?-skip full (none ∷ free))) in
      (
        m,
        spare,
        run,
        rw append_assoc (rw (rw count at (set-skip full free (some value) none)) at w),
        e,
        omega arith,
      )

  -- A key at the counter moves the counter on.
  insert_unique-counter :
      (u : UniqueHashMap V) (value : V) {m : HashMap V}
      → u.deleted_keys ≡ []
      → HashMap.insert u.map u.counter value ≡ ok (m, true)
      → insert_unique u value ≡ ok (record u { map = m; counter = u.counter + 1 }, some u.counter)
  unfolding insert_unique
  insert_unique-counter u value none_deleted run =
      let same : (u.counter == u.counter) ≡ true = (==_iff u.counter u.counter).1 refl in
      rw none_deleted (rw run (rw same))

  -- A deleted key below the counter is taken off the list.
  insert_unique-deleted :
      (u : UniqueHashMap V) (value : V) (key : ℕ) (rest : List ℕ) {m : HashMap V}
      → u.deleted_keys ≡ key ∷ rest
      → key < u.counter
      → HashMap.insert u.map key value ≡ ok (m, true)
      → insert_unique u value ≡ ok (record u { map = m; deleted_keys = rest }, some key)
  unfolding insert_unique
  insert_unique-deleted u value key rest deleted below run =
      let differ : (key == u.counter) ≡ false = ground arith in rw deleted (rw run (rw differ))

  -- At the counter: no deleted key is left.
  insert_unique-full :
      (u : UniqueHashMap V) (values : List V) (spare : ℕ) (value : V)
      → Represents u (map some values) spare
      → length values + spare ≤ 2 ^ 24
      → length values ≤ 2 ^ 23
      → EndsSmall
          (insert_unique u value)
          (some (length values))
          (map some values ++ some value ∷ [])
          u.map.empty_item
  insert_unique-full u values spare value r small few =
      let (m, spare', run, w, e, fit) = insert_next u values spare value r small few in
      let count : length values ≡ u.counter =
        sym (r.counted ∙ length-map values (λ (y : V). some y)) in
      let none_deleted = r.listed ∙ holes-full 0 values in
      (
        record u { map = m; counter = u.counter + 1 },
        spare',
        rw count (insert_unique-counter u value none_deleted (rw count at run)),
        record {
          held = w;
          counted = omega (arith, length-append (map some values) (some value ∷ []), r.counted);
          listed =
              none_deleted
              ∙ sym (rw (holes-filled 0 values (some value ∷ [])) (unfold holes in refl));
          wide = omega (arith, length-append (map some values) (some value ∷ []));
        },
        e,
        omega (
          arith,
          length-append (map some values) (some value ∷ []),
          length-map values (λ (y : V). some y),
        ),
      )

  -- At the lowest deleted key.
  insert_unique-hole :
      (u : UniqueHashMap V) (values : List V) (rest : List (Option V)) (spare : ℕ) (value : V)
      → Represents u (map some values ++ none ∷ rest) spare
      → length (map some values ++ none ∷ rest) + spare ≤ 2 ^ 24
      → EndsSmall
          (insert_unique u value)
          (some (length values))
          (map some values ++ some value ∷ rest)
          u.map.empty_item
  insert_unique-hole u values rest spare value r small =
      let full : List (Option V) = map some values in
      let count : length full ≡ length values = length-map values (λ (y : V). some y) in
      let behind = rest ++ replicate {A = Option V} spare none in
      let (m, run, w, e) =
        insert-slot (length values) value (rw append_assoc at r.held)
          (rw append_assoc at (buckets-le (full ++ none ∷ rest) spare small))
          (rw count at (get_elem?-skip full (none ∷ behind))) in
      let sizes : (length (full ++ none ∷ rest) ≡ length full + suc (length rest)) =
        length-append full (none ∷ rest) in
      let sizes' : (length (full ++ some value ∷ rest) ≡ length full + suc (length rest)) =
        length-append full (some value ∷ rest) in
      let later = holes (suc (length values + 0)) rest in
      let next : u.deleted_keys ≡ length values ∷ later =
        r.listed
        ∙ holes-filled 0 values (none ∷ rest)
        ∙ (unfold holes in
            (ap (λ (j : ℕ). j ∷ holes (suc (length values + 0)) rest)
              (add-zero (length values)))) in
      (
        record u { map = m; deleted_keys = later },
        spare,
        insert_unique-deleted u value (length values) later next (omega (arith, r.counted)) run,
        record {
          held = rw append_assoc (rw (rw count at (set-skip full behind (some value) none)) at w);
          counted = omega (arith, r.counted);
          listed = sym (holes-filled 0 values (some value ∷ rest) ∙ (unfold holes in refl));
          wide = omega arith;
        },
        e,
        omega arith,
      )

  pub insert_unique-EndsSmall :
      (u : UniqueHashMap V) (slots : List (Option V)) (spare : ℕ) (value : V)
      → Represents u slots spare
      → length slots + spare ≤ 2 ^ 24
      → length slots ≤ 2 ^ 23
      → EndsSmall
          (insert_unique u value)
          (some (first_free slots))
          (fill value slots)
          u.map.empty_item
  insert_unique-EndsSmall u slots spare value r small few = elim (table_cases slots) [
    | inl (values, e) ↦
        let count = ap length e ∙ length-map values (λ (y : V). some y) in
        rw (e, first_free-full, fill-full)
          (insert_unique-full u values spare value (rw e at r) (omega (arith, count))
            (omega (arith, count)))
    | inr (values, rest, e) ↦
        rw (e, first_free-hole, fill-hole)
          (insert_unique-hole u values rest spare value (rw e at r) (rw e at small))
  ]

  -- `insert_unique` of a map of at most 2 ^ 24 buckets that represents a table of at most 2 ^ 23 slots
  -- ends without a fault, answers the lowest free slot, and leaves a map that represents the table
  -- with that slot filled; the empty item stays.
  pub insert_unique-Ends :
      (u : UniqueHashMap V) (slots : List (Option V)) (spare : ℕ) (value : V)
      → Represents u slots spare
      → length slots + spare ≤ 2 ^ 24
      → length slots ≤ 2 ^ 23
      → Ends (insert_unique u value) (some (first_free slots)) (fill value slots) u.map.empty_item
  insert_unique-Ends u slots spare value r small few =
      let (u', spare', run, r', same, fit) =
        insert_unique-EndsSmall u slots spare value r small few in
      (u', spare', run, r', same)
