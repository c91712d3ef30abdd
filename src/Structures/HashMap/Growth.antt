-- ===== src/Structures/HashMap/Growth.antt =====
-- `insert` of include/kernel/structures/hash_map.h at a full table: the new node joins the first bucket,
-- the load passes the factor, and `rehash` gives every key a bucket of its own again.
use influx.Base.{
  ℕ, zero, suc, ◌+◌, ◌*◌, ◌%◌, ◌≡◌, refl, sym, ap, ◌∙◌, Bool, true, false, List, [], ◌∷◌, ◌++◌,
  Option, none, some, length, set, get_elem?, map, replicate, length-replicate, ltb, ◌==◌, arith,
  length-map, ◌^◌, ◌≤◌, length-set,
}
use influx.Base.Run.{Run, ok}
use influx.Structures.HashMap.{
  Node, HashMap, new, bucket_of, link, insert_node, reinsert, reinsert_all, rehash_with, settle,
  insert_fuel, insert, to_float,
}
use influx.Structures.HashMap.Float.{load_heavy}
use influx.Structures.HashMap.Slots.{
  first_node, chain, chains, count_some, Models, insert_fuel-slot, get_elem?-skip, set-skip,
  reinsert_all-slots,
}
use native.Mathlib.Nat.{zero-add, mod_self, suc-add}

count_some-replicate {ℓ} : (V : Type ℓ) (n : ℕ) → count_some {V = V} (replicate n none) ≡ 0
count_some-replicate V zero = refl
count_some-replicate V (suc n) = count_some-replicate V n

module _ {ℓ} {V : Type ℓ} where
  replicate-append : (a b : ℕ) (s : Option V) → replicate (a + b) s ≡ replicate a s ++ replicate b s
  replicate-append zero b s = rw zero-add
  replicate-append (suc a) b s = rw suc-add (ap (◌∷◌ s) (replicate-append a b s))

  chains-replicate : (i n : ℕ) → chains {V = V} i (replicate n none) ≡ replicate n []
  unfolding chains chain
  chains-replicate i zero = refl
  chains-replicate i (suc n) = ap (◌∷◌ []) (chains-replicate (suc i) n)

  pub new-Models : (n : ℕ) (e : V) → Models (new n e) (replicate n none)
  unfolding new
  new-Models n e = record {
    counted = sym (length-replicate {A = Option V} n none);
    table = sym (chains-replicate 0 n);
    sized = sym (count_some-replicate V n);
  }

  count_some-full : (values : List V) → count_some (map some values) ≡ length values
  count_some-full [] = refl
  count_some-full (x ∷ values) = ap suc (count_some-full values)

  -- The map after the new node was linked behind the first, before the test of the load.
  crowded : HashMap V → V → List V → V → HashMap V
  crowded m x values value =
      let last : Node V = record {
        key = suc (length values);
        value = value;
        has_prev = true;
        freed = false;
      } in
      record m {
        buckets = (first_node 0 x ∷ last ∷ []) ∷ chains 1 (map some values);
        size = m.size + 1;
      }

  bucket_of-full :
      {m : HashMap V} (x : V) (values : List V)
      → Models m (some x ∷ map some values)
      → bucket_of m (suc (length values)) ≡ ok (0, first_node 0 x ∷ [])
  unfolding bucket_of chains chain
  bucket_of-full {m} x values v =
      let width : m.bucket_count ≡ suc (length values) =
        omega (arith, v.counted, length-map values (λ (y : V). some y)) in
      let home : suc (length values) % m.bucket_count ≡ 0 =
        rw width (mod_self (suc (length values))) in
      let some_buckets : (m.bucket_count == 0) ≡ false = ground (arith, width) in
      rw (some_buckets, v.table, home) (rw home)

  insert_node-full :
      {m : HashMap V} (x : V) (values : List V) (value : V)
      → Models m (some x ∷ map some values)
      → insert_node m (first_node (suc (length values)) value) ≡ ok (crowded m x values value, true)
  unfolding insert_node link crowded chains chain
  insert_node-full {m} x values value v = rw (bucket_of-full x values v) (ground (arith, v.table))

  rehash_with-full :
      (fuel : ℕ) (m : HashMap V) (x : V) (values : List V) (value : V)
      → suc (length values) ≤ 2 ^ 23
      → (m' : HashMap V) × (rehash_with
            (insert_fuel (suc fuel))
            (crowded m x values value)
            (suc (length values) * 2)
          ≡ ok m')
        × Models m' (map some (x ∷ values) ++ some value ∷ replicate (length values) none)
        × (m'.empty_item ≡ m.empty_item)
  unfolding rehash_with crowded reinsert_all reinsert
  rehash_with-full fuel m x values value few =
      let n = length values in
      let free : List (Option V) = replicate n none in
      let m₀ = record m {
        bucket_count = suc n * 2;
        buckets = replicate (suc n * 2) [];
        size = 0;
      } in
      let w₀ : Models m₀ (none ∷ (free ++ none ∷ free)) =
        let double : suc n * 2 ≡ suc n + suc n = omega arith in
        let halves = replicate-append (suc n) (suc n) none in
        record {
          counted = double ∙ sym (length-replicate (suc n + suc n) none) ∙ ap length halves;
          table = rw double (sym (chains-replicate 0 (suc n + suc n)) ∙ ap (chains 0) halves);
          sized = sym (count_some-replicate V (suc n + suc n)) ∙ ap count_some halves;
        } in
      let (m₁, run₁, w₁, e₁) =
        insert_fuel-slot fuel 0 x false w₀ (omega (arith, w₀.counted)) refl in
      let whole = length-set (none ∷ (free ++ none ∷ free)) 0 (some x) in
      let (m₂, run₂, w₂, e₂) =
        insert_fuel-slot fuel (suc n) value true w₁ (omega (arith, w₀.counted))
          (rw (length-replicate {A = Option V} n none) at (get_elem?-skip free (none ∷ free))) in
      let whole₂ = length-set (some x ∷ (free ++ none ∷ free)) (suc n) (some value) in
      let w : Models m₂ ((some x ∷ []) ++ (free ++ some value ∷ free)) =
        rw (rw (length-replicate {A = Option V} n none) at (set-skip free free (some value) none))
          at w₂ in
      let (m₃, run₃, w₃, e₃) =
        reinsert_all-slots fuel values (some x ∷ []) (some value ∷ free) w
          (omega (arith, w.counted, w₂.counted, w₁.counted, w₀.counted, whole, whole₂)) in
      (m₃, rw (run₁, run₂) run₃, w₃, e₃ ∙ e₂ ∙ e₁)

  settle-crowded :
      (insert : HashMap V → Node V → Run (HashMap V × Bool)) {m m' : HashMap V} (x : V)
      (values : List V) (value : V)
      → Models m (some x ∷ map some values)
      → suc (length values) ≤ 2 ^ 23
      → rehash_with insert (crowded m x values value) (suc (length values) * 2) ≡ ok m'
      → settle insert (crowded m x values value, true) ≡ ok (m', true)
  unfolding settle crowded
  settle-crowded insert {m} {m'} x values value v few run =
      let width : m.bucket_count ≡ suc (length values) =
        omega (arith, v.counted, length-map values (λ (y : V). some y)) in
      let held = count_some-full values in
      let heavy : ltb (to_float m.bucket_count) (to_float (m.size + 1)) ≡ true =
        load_heavy m.bucket_count (m.size + 1) (omega (arith, v.sized)) (omega (arith, v.sized)) in
      let twice : m.bucket_count * 2 ≡ suc (length values) * 2 = omega arith in
      rw (heavy, twice) (rw run)

  -- A map whose buckets each hold the one value of their own key, at least one and at most 2 ^ 23:
  -- `insert` of the next key ends without a fault and answers true; the buckets are doubled, each
  -- value lies in the bucket of its key, the new one behind them, and the rest of the buckets is free;
  -- the empty item stays.
  pub insert-full :
      {m : HashMap V} (x : V) (values : List V) (value : V)
      → Models m (some x ∷ map some values)
      → suc (length values) ≤ 2 ^ 23
      → (m' : HashMap V) × (insert m (suc (length values)) value ≡ ok (m', true))
        × Models m' (map some (x ∷ values) ++ some value ∷ replicate (length values) none)
        × (m'.empty_item ≡ m.empty_item)
  unfolding insert insert_fuel
  insert-full {m} x values value v few =
      let (m', run, w, e) = rehash_with-full 0 m x values value few in
      (m', rw (insert_node-full x values value v) (settle-crowded _ x values value v few run), w, e)

  -- `insert` at a free slot.
  pub insert-slot :
      {m : HashMap V} {slots : List (Option V)} (k : ℕ) (value : V)
      → Models m slots
      → length slots ≤ 2 ^ 24
      → get_elem? slots k ≡ some none
      → (m' : HashMap V) × (insert m k value ≡ ok (m', true))
        × Models m' (set slots k (some value))
        × (m'.empty_item ≡ m.empty_item)
  unfolding insert
  insert-slot k value v small h = insert_fuel-slot 1 k value false v small h
