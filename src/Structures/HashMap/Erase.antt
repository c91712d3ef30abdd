-- ===== src/Structures/HashMap/Erase.antt =====
-- `erase` of include/kernel/structures/hash_map.h where every key has its bucket to itself.
use influx.Base.{
  ℕ, zero, suc, ◌-◌, ◌%◌, ◌≤◌, ◌<◌, ◌≡◌, refl, sym, ap, ◌∙◌, false, List, [], ◌∷◌, Option, none,
  some, length, set, get_elem?, length-set, ◌==◌, arith,
}
use influx.Base.Run.{ok}
use influx.Structures.HashMap.{HashMap, bucket_of, find, at, erase, erase_chain}
use influx.Structures.HashMap.Slots.{
  chain, Models, bucket_of-chain, get_elem?-chains, set-chain, count_some-clear,
}
use native.Mathlib.Nat.{mod-lt, zero-add}

module _ {ℓ} {V : Type ℓ} where
  -- The key of a filled slot is found, and its slot becomes free.
  pub erase-slot :
      {m : HashMap V} {slots : List (Option V)} (k : ℕ) (value : V)
      → Models m slots
      → get_elem? slots k ≡ some (some value)
      → (m' : HashMap V) × (erase m k ≡ ok (m', 1))
        × Models m' (set slots k none)
        × (m'.empty_item ≡ m.empty_item)
  unfolding erase erase_chain chain
  erase-slot {m} {slots} k value v h =
      let cleared = count_some-clear slots k value h in
      (
        record m { buckets = set m.buckets k []; size = m.size - 1 },
        rw (bucket_of-chain k (some value) v h) (ground (arith, v.sized)),
        record {
          counted = v.counted ∙ sym (length-set slots k none);
          table = rw v.table (set-chain k slots none);
          sized = omega (arith, v.sized);
        },
        refl,
      )

  -- The key of a free slot is not found.
  pub erase-free :
      {m : HashMap V} {slots : List (Option V)} (k : ℕ)
      → Models m slots
      → get_elem? slots k ≡ some none
      → erase m k ≡ ok (m, 0)
  unfolding erase erase_chain chain
  erase-free {m} {slots} k v h = rw (bucket_of-chain k none v h) (ground arith)

  pub get_elem?-some :
      (slots : List (Option V)) (k : ℕ)
      → k < length slots
      → (s : Option V) × (get_elem? slots k ≡ some s)
  get_elem?-some [] k h = absurd (omega arith)
  get_elem?-some (x ∷ slots) zero h = (x, refl)
  get_elem?-some (x ∷ slots) (suc k) h = get_elem?-some slots k (omega arith)

  bucket_of-far :
      {m : HashMap V} {slots : List (Option V)} (k : ℕ)
      → Models m slots
      → length slots ≤ k
      → 0 < length slots
      → (j : ℕ) × (s : Option V) × (bucket_of m k ≡ ok (j, chain j s)) × (j < k)
  unfolding bucket_of
  bucket_of-far {m} {slots} k v far pos =
      let j = k % length slots in
      let small : j < length slots = mod-lt k pos in
      let (s, e) = get_elem?-some slots j small in
      let some_buckets : (m.bucket_count == 0) ≡ false = ground (arith, v.counted) in
      let home : k % m.bucket_count ≡ j = ap (λ n. k % n) v.counted in
      (
        j,
        s,
        rw (some_buckets, home, v.table, get_elem?-chains 0 j slots s e, zero-add) (rw home),
        omega arith,
      )

  -- No key from the bucket count on is found.
  pub erase-far :
      {m : HashMap V} {slots : List (Option V)} (k : ℕ)
      → Models m slots
      → length slots ≤ k
      → 0 < length slots
      → erase m k ≡ ok (m, 0)
  unfolding erase erase_chain chain
  erase-far {m} {slots} k v far pos = go (bucket_of-far k v far pos)
    where
      go :
          (j : ℕ) × (s : Option V) × (bucket_of m k ≡ ok (j, chain j s)) × (j < k)
          → erase m k ≡ ok (m, 0)
      go (j, none, e, lt) = rw e (ground arith)
      go (j, some w, e, lt) = rw e (ground arith)

  pub at-far :
      {m : HashMap V} {slots : List (Option V)} (k : ℕ)
      → Models m slots
      → length slots ≤ k
      → 0 < length slots
      → at m k ≡ ok m.empty_item
  unfolding at find chain
  at-far {m} {slots} k v far pos = go (bucket_of-far k v far pos)
    where
      go :
          (j : ℕ) × (s : Option V) × (bucket_of m k ≡ ok (j, chain j s)) × (j < k)
          → at m k ≡ ok m.empty_item
      go (j, none, e, lt) = rw e (ground arith)
      go (j, some w, e, lt) = rw e (ground arith)
