-- ===== src/Structures/HashMap/Slots.antt =====
-- Hash maps of include/kernel/structures/hash_map.h in which every key below the bucket count has its
-- bucket to itself: what the keys that unique_hash_map.h hands out lead to.
use influx.Base.{
  ℕ, zero, suc, ◌+◌, ◌^◌, ◌%◌, ◌≤◌, ◌<◌, ◌≡◌, refl, sym, ap, ◌∙◌, Bool, true, false, List, [], ◌∷◌,
  ◌++◌, Option, none, some, length, set, get_elem?, map, replicate, length-set, ltb, ◌==◌, arith,
  length-append,
}
use influx.Base.Run.{ok}
use influx.Structures.HashMap.Float.{load_light}
use influx.Structures.HashMap.{
  to_float, Node, HashMap, bucket_of, find, at, or_empty, link, insert_node, reinsert, reinsert_all,
  settle, insert_fuel,
}
use mathlib.Core.List.{append_assoc}
use native.Mathlib.Nat.{mod-eq_of_lt, add-zero, zero-add}

module _ {ℓ} {V : Type ℓ} where
  -- A linked node at the head of its chain.
  abbrev pub first_node : ℕ → V → Node V
  first_node key value = record { key = key; value = value; has_prev = false; freed = false }

  unfoldable pub chain : ℕ → Option V → List (Node V)
  chain i none = []
  chain i (some v) = first_node i v ∷ []

  -- The buckets of the slots `i`, `i + 1`, ...
  unfoldable pub chains : ℕ → List (Option V) → List (List (Node V))
  unfolding chain
  chains i [] = []
  chains i (s ∷ slots) = chain i s ∷ chains (suc i) slots

  abbrev pub count_some : List (Option V) → ℕ
  count_some [] = 0
  count_some (none ∷ slots) = count_some slots
  count_some (some v ∷ slots) = suc (count_some slots)

  -- The map holds the value of slot `k` under the key `k`, in bucket `k`, alone.
  pub record Models (m : HashMap V) (slots : List (Option V)) : Type ℓ where
    pub counted : m.bucket_count ≡ length slots
    pub table : m.buckets ≡ chains 0 slots
    pub sized : m.size ≡ count_some slots

  pub get_elem?-chains :
      (i k : ℕ) (slots : List (Option V)) (s : Option V)
      → get_elem? slots k ≡ some s
      → get_elem? (chains i slots) k ≡ some (chain (i + k) s)
  unfolding chains
  get_elem?-chains i k [] s h = cc
  get_elem?-chains i zero (x ∷ slots) s h = rw add-zero (cc)
  get_elem?-chains i (suc k) (x ∷ slots) s h =
      let e : i + suc k ≡ suc i + k = omega arith in rw e (get_elem?-chains (suc i) k slots s h)

  set-chains :
      (i k : ℕ) (slots : List (Option V)) (s : Option V)
      → set (chains i slots) k (chain (i + k) s) ≡ chains i (set slots k s)
  unfolding chains
  set-chains i k [] s = refl
  set-chains i zero (x ∷ slots) s = rw add-zero
  set-chains i (suc k) (x ∷ slots) s =
      let e : i + suc k ≡ suc i + k = omega arith in
      rw e (ap (◌∷◌ (chain i x)) (set-chains (suc i) k slots s))

  pub set-chain :
      (k : ℕ) (slots : List (Option V)) (s : Option V)
      → set (chains 0 slots) k (chain k s) ≡ chains 0 (set slots k s)
  set-chain k slots s =
      ap (λ j. set (chains 0 slots) k (chain j s)) (sym (zero-add k)) ∙ set-chains 0 k slots s

  pub get_elem?-lt :
      (slots : List (Option V)) (k : ℕ) (s : Option V)
      → get_elem? slots k ≡ some s
      → k < length slots
  get_elem?-lt [] k s h = cc
  get_elem?-lt (x ∷ slots) zero s h = omega arith
  get_elem?-lt (x ∷ slots) (suc k) s h = omega (arith, get_elem?-lt slots k s h)

  pub bucket_of-chain :
      {m : HashMap V} {slots : List (Option V)} (k : ℕ) (s : Option V)
      → Models m slots
      → get_elem? slots k ≡ some s
      → bucket_of m k ≡ ok (k, chain k s)
  unfolding bucket_of
  bucket_of-chain {m} {slots} k s v h =
      let lt = get_elem?-lt slots k s h in
      let some_buckets : (m.bucket_count == 0) ≡ false = ground (arith, v.counted) in
      let home : k % m.bucket_count ≡ k = rw v.counted (mod-eq_of_lt lt) in
      rw (some_buckets, home, v.table, get_elem?-chains 0 k slots s h, zero-add) (rw home)

  count_some_pos :
      (slots : List (Option V)) (k : ℕ) (v : V)
      → get_elem? slots k ≡ some (some v)
      → 0 < count_some slots
  count_some_pos [] k v h = cc
  count_some_pos (none ∷ slots) zero v h = cc
  count_some_pos (some w ∷ slots) zero v h = omega arith
  count_some_pos (none ∷ slots) (suc k) v h = count_some_pos slots k v h
  count_some_pos (some w ∷ slots) (suc k) v h = omega arith

  pub count_some-set :
      (slots : List (Option V)) (k : ℕ) (v : V)
      → get_elem? slots k ≡ some none
      → count_some (set slots k (some v)) ≡ suc (count_some slots)
  count_some-set [] k v h = cc
  count_some-set (none ∷ slots) zero v h = refl
  count_some-set (some w ∷ slots) zero v h = cc
  count_some-set (none ∷ slots) (suc k) v h = count_some-set slots k v h
  count_some-set (some w ∷ slots) (suc k) v h = ap suc (count_some-set slots k v h)

  pub count_some-clear :
      (slots : List (Option V)) (k : ℕ) (v : V)
      → get_elem? slots k ≡ some (some v)
      → suc (count_some (set slots k none)) ≡ count_some slots
  count_some-clear [] k v h = cc
  count_some-clear (none ∷ slots) zero v h = cc
  count_some-clear (some w ∷ slots) zero v h = refl
  count_some-clear (none ∷ slots) (suc k) v h = count_some-clear slots k v h
  count_some-clear (some w ∷ slots) (suc k) v h = ap suc (count_some-clear slots k v h)

  -- `at` reads the slot, and answers the empty item where it is free.
  pub at-slot :
      {m : HashMap V} {slots : List (Option V)} (k : ℕ) (s : Option V)
      → Models m slots
      → get_elem? slots k ≡ some s
      → at m k ≡ ok (or_empty m.empty_item s)
  unfolding at find chain
  at-slot {m} {slots} k none v h = rw (bucket_of-chain k none v h) (ground arith)
  at-slot {m} {slots} k (some w) v h =
      let pos = count_some_pos slots k w h in
      rw (bucket_of-chain k (some w) v h) (ground (arith, v.sized))

  -- Inserting at a free slot fills it.
  pub insert_node-slot :
      {m : HashMap V} {slots : List (Option V)} (k : ℕ) (value : V) (prev : Bool)
      → Models m slots
      → get_elem? slots k ≡ some none
      → (m' : HashMap V) × (insert_node m
            (record { key = k; value = value; has_prev = prev; freed = false })
          ≡ ok (m', true))
        × Models m' (set slots k (some value))
        × (m'.empty_item ≡ m.empty_item)
  unfolding insert_node link chain
  insert_node-slot {m} {slots} k value prev v h = (
    record m { buckets = set m.buckets k (first_node k value ∷ []); size = m.size + 1 },
    rw (bucket_of-chain k none v h),
    record {
      counted = v.counted ∙ sym (length-set slots k (some value));
      table = rw v.table (set-chain k slots (some value));
      sized = omega (arith, v.sized, count_some-set slots k value h);
    },
    refl,
  )

  count_some-le : (slots : List (Option V)) → count_some slots ≤ length slots
  count_some-le [] = omega arith
  count_some-le (none ∷ slots) = omega (arith, count_some-le slots)
  count_some-le (some w ∷ slots) = omega (arith, count_some-le slots)

  count_some-lt :
      (slots : List (Option V)) (k : ℕ)
      → get_elem? slots k ≡ some none
      → count_some slots < length slots
  count_some-lt [] k h = cc
  count_some-lt (none ∷ slots) zero h = omega (arith, count_some-le slots)
  count_some-lt (some w ∷ slots) zero h = cc
  count_some-lt (none ∷ slots) (suc k) h = omega (arith, count_some-lt slots k h)
  count_some-lt (some w ∷ slots) (suc k) h = omega (arith, count_some-lt slots k h)

  -- A key with a bucket of its own does not raise the load above the factor, and nothing else is done.
  pub insert_fuel-slot :
      {m : HashMap V} {slots : List (Option V)} (fuel k : ℕ) (value : V) (prev : Bool)
      → Models m slots
      → length slots ≤ 2 ^ 24
      → get_elem? slots k ≡ some none
      → (m' : HashMap V) × (insert_fuel
            (suc fuel)
            m
            (record { key = k; value = value; has_prev = prev; freed = false })
          ≡ ok (m', true))
        × Models m' (set slots k (some value))
        × (m'.empty_item ≡ m.empty_item)
  unfolding insert_fuel settle
  insert_fuel-slot {m} {slots} fuel k value prev v small h =
      let (m', run, w, e) = insert_node-slot k value prev v h in
      let fit = count_some-lt slots k h in
      let same_length = length-set slots k (some value) in
      let one_more = count_some-set slots k value h in
      let light : ltb (to_float m'.bucket_count) (to_float m'.size) ≡ false =
        load_light m'.bucket_count m'.size (omega (arith, w.counted))
          (omega (arith, w.counted, w.sized)) in
      (m', rw (run, light), w, e)

  pub get_elem?-skip :
      (before rest : List (Option V))
      → get_elem? (before ++ rest) (length before) ≡ get_elem? rest 0
  get_elem?-skip [] rest = refl
  get_elem?-skip (x ∷ before) rest = get_elem?-skip before rest

  pub set-skip :
      (before rest : List (Option V)) (s t : Option V)
      → set (before ++ t ∷ rest) (length before) s ≡ before ++ s ∷ rest
  set-skip [] rest s t = refl
  set-skip (x ∷ before) rest s t = ap (◌∷◌ x) (set-skip before rest s t)

  -- `rehash` over buckets that hold one node each puts each back under its key.
  pub reinsert_all-slots :
      (fuel : ℕ) (values : List V) (before after : List (Option V)) {m : HashMap V}
      → Models m (before ++ (replicate (length values) none ++ after))
      → m.bucket_count ≤ 2 ^ 24
      → (m' : HashMap V) × (reinsert_all
            (insert_fuel (suc fuel))
            (chains (length before) (map some values))
            m
          ≡ ok m')
        × Models m' (before ++ (map some values ++ after))
        × (m'.empty_item ≡ m.empty_item)
  unfolding reinsert_all reinsert chains chain
  reinsert_all-slots fuel [] before after {m} v small = (m, refl, v, refl)
  reinsert_all-slots fuel (x ∷ values) before after {m} v small =
      let rest = replicate (length values) none ++ after in
      let (m₁, run₁, w₁, e₁) =
        insert_fuel-slot fuel (length before) x false v (omega (arith, v.counted))
          (get_elem?-skip before (none ∷ rest)) in
      let w : Models m₁ ((before ++ some x ∷ []) ++ rest) =
        rw (append_assoc) (rw (set-skip before rest (some x) none) at w₁) in
      let whole = length-set (before ++ none ∷ rest) (length before) (some x) in
      let small₁ : m₁.bucket_count ≤ 2 ^ 24 = omega (arith, w₁.counted, v.counted) in
      let (m₂, run₂, w₂, e₂) =
        reinsert_all-slots fuel values (before ++ some x ∷ []) after w small₁ in
      let next : length (before ++ some x ∷ []) ≡ suc (length before) =
        omega (arith, length-append before (some x ∷ [])) in
      (m₂, rw run₁ (rw next at run₂), rw append_assoc at w₂, e₂ ∙ e₁)
