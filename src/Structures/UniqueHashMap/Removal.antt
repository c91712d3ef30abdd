-- ===== src/Structures/UniqueHashMap/Removal.antt =====
-- `erase` and `at` of include/kernel/structures/unique_hash_map.h against the table of slots.
use influx.Base.{
  ℕ, zero, suc, ◌+◌, ◌<◌, ◌≡◌, refl, sym, ap, ◌∙◌, false, List, [], ◌∷◌, Option, none, some, set,
  get_elem?, replicate, length-append, length-set, length-replicate, ltb, arith, inl, inr,
}
use influx.Base.Run.{ok}
use influx.Structures.HashMap.Slots.{at-slot}
use influx.Structures.HashMap.Erase.{erase-slot, erase-free, erase-far, at-far}
use influx.Structures.NodeList
use influx.Structures.UniqueHashMap.{UniqueHashMap, delete_key, erase, at}
use influx.Structures.UniqueHashMap.Spec.{
  holes, holes-clear, occupied, value_or, slot_cases, get_elem?-append_left, set-append_left,
}
use native.Mathlib.Nat.{add-zero, zero-add}
use influx.Structures.UniqueHashMap.Refinement.{Represents, Ends}

module _ {ℓ} {V : Type ℓ} where
  delete_key-front :
      (k i : ℕ) (slots : List (Option V)) → k < i → delete_key k (holes i slots) ≡ k ∷ holes i slots
  unfolding delete_key NodeList.insert holes
  delete_key-front k i [] h = refl
  delete_key-front k i (none ∷ slots) h = ground arith
  delete_key-front k i (some v ∷ slots) h = delete_key-front k (suc i) slots (omega arith)

  -- A key that is not in the list goes to the same place with or without the test of the head.
  delete_key-insert_after :
      (i k : ℕ) (slots : List (Option V)) (v : V)
      → get_elem? slots k ≡ some (some v)
      → delete_key (i + k) (holes i slots) ≡ holes i (set slots k none)
  unfolding delete_key NodeList.insert holes
  delete_key-insert_after i k [] v h = cc
  delete_key-insert_after i zero (none ∷ slots) v h = cc
  delete_key-insert_after i zero (some w ∷ slots) v h =
      rw add-zero (delete_key-front i (suc i) slots (omega arith))
  delete_key-insert_after i (suc k) (none ∷ slots) v h =
      let shift : suc i + k ≡ i + suc k = omega arith in
      let later : ltb (i + suc k) i ≡ false = ground arith in
      rw later (ap (◌∷◌ i) (sym (rw shift at (holes-clear (suc i) k slots v h))))
  delete_key-insert_after i (suc k) (some w ∷ slots) v h =
      let shift : suc i + k ≡ i + suc k = omega arith in
      rw shift at (delete_key-insert_after (suc i) k slots v h)

  delete_key-holes :
      (slots : List (Option V)) (k : ℕ) (v : V)
      → get_elem? slots k ≡ some (some v)
      → delete_key k (holes 0 slots) ≡ holes 0 (set slots k none)
  delete_key-holes slots k v h = rw zero-add at (delete_key-insert_after 0 k slots v h)

  -- The slot is freed and the number of buckets stays.
  pub erase-Stays :
      (u : UniqueHashMap V) (slots : List (Option V)) (spare k : ℕ)
      → Represents u slots spare
      → (u' : UniqueHashMap V) × (erase u k ≡ ok (u', occupied (get_elem? slots k)))
        × Represents u' (set slots k none) spare
        × (u'.map.empty_item ≡ u.map.empty_item)
  unfolding erase occupied
  erase-Stays u slots spare k r = elim (slot_cases slots spare k) [
    | inl (v, e, p) ↦
        let used = get_elem?-append_left slots (replicate spare none) k p ∙ e in
        let (m, run, w, same) = erase-slot k v r.held used in
        (
          record u { map = m; deleted_keys = delete_key k u.deleted_keys },
          rw (run, e),
          record {
            held = rw (set-append_left slots (replicate spare none) k none p) at w;
            counted = r.counted ∙ sym (length-set slots k none);
            listed = ap (delete_key k) r.listed ∙ delete_key-holes slots k v e;
            wide = omega (arith, r.wide, length-set slots k none);
          },
          same,
        )
    | inr (inl (free, out, other, kept)) ↦
        (u, rw (erase-free k r.held free) (rw out), rw kept r, refl)
    | inr (inr (far, beyond, kept)) ↦
        let size = length-append slots (replicate spare none) in
        let spares = length-replicate {A = Option V} spare none in
        (
          u,
          rw (erase-far k r.held (omega arith) (omega (arith, r.wide))) (rw beyond),
          rw kept r,
          refl,
        )
  ]

  -- `erase` of a map that represents a table of slots ends without a fault, answers whether the slot
  -- was in use, and leaves a map that represents the table with that slot free; the empty item stays.
  pub erase-Ends :
      (u : UniqueHashMap V) (slots : List (Option V)) (spare k : ℕ)
      → Represents u slots spare
      → Ends (erase u k) (occupied (get_elem? slots k)) (set slots k none) u.map.empty_item
  erase-Ends u slots spare k r =
      let (u', run, r', same) = erase-Stays u slots spare k r in (u', spare, run, r', same)

  -- `at` of a map that represents a table of slots ends without a fault and answers the value of the
  -- slot, or the empty item if the slot is free or beyond the table.
  pub at-value_or :
      (u : UniqueHashMap V) (slots : List (Option V)) (spare k : ℕ)
      → Represents u slots spare
      → at u k ≡ ok (value_or u.map.empty_item (get_elem? slots k))
  unfolding at value_or
  at-value_or u slots spare k r = elim (slot_cases slots spare k) [
    | inl (v, e, p) ↦
        let used = get_elem?-append_left slots (replicate spare none) k p ∙ e in
        rw e (at-slot k (some v) r.held used)
    | inr (inl (free, out, other, kept)) ↦ rw (other u.map.empty_item) (at-slot k none r.held free)
    | inr (inr (far, beyond, kept)) ↦
        let size = length-append slots (replicate spare none) in
        let spares = length-replicate {A = Option V} spare none in
        rw beyond (at-far k r.held (omega arith) (omega (arith, r.wide)))
  ]
