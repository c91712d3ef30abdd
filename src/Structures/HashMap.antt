-- ===== src/Structures/HashMap.antt =====
-- The chained hash map of include/kernel/structures/hash_map.h, its nodes (node.h) included. Only the
-- integer types have a `hash`, and it is the identity, so a key is a number.
pub mod Float
pub mod Slots
pub mod Growth
pub mod Erase
use influx.Base.{
  ℕ, zero, suc, ◌+◌, ◌-◌, ◌*◌, ◌/◌, ◌%◌, ◌^◌, Bool, true, false, not, ◌&&◌, ◌||◌, List, [], ◌∷◌,
  ◌++◌, Option, none, some, length, set, get_elem?, replicate, ltb, ◌==◌, if◌then◌else◌,
}
use influx.Base.Run.{
  Run, ok, fault, ◌>>=◌, division_by_zero, out_of_bounds, use_after_free, out_of_fuel,
}

-- A linked node. Its `next` is the node behind it in the list; of `prev` the map reads only whether
-- it is null. A node that was deleted and is still linked is marked `freed`.
pub record Node {ℓ} (V : Type ℓ) : Type ℓ where
  pub key : ℕ
  pub value : V
  pub has_prev : Bool
  pub freed : Bool

pub record HashMap {ℓ} (V : Type ℓ) : Type ℓ where
  pub bucket_count : ℕ
  pub buckets : List (List (Node V))
  pub size : ℕ
  pub empty_item : V

-- What `erase` leaves of a chain: nothing found; the bucket set to the rest behind the node; or the
-- node freed where it is linked, since the test for a node with a `prev` never holds.
pub data Erased {ℓ} (V : Type ℓ) : Type ℓ where
  missing : Erased V
  unlinked : List (Node V) → Erased V
  dangling : List (Node V) → Erased V

abbrev pub default_bucket_count : ℕ
default_bucket_count = 16

-- How often a number of 64 bits is halved until it has 24 bits.
unfoldable pub float_shift : ℕ → ℕ → ℕ
float_shift zero n = 0
float_shift (suc fuel) n =
    let rest = float_shift fuel (n / 2) in if ltb n (2 ^ 24) then 0 else suc rest

-- The conversion to `float`: the nearest number of 24 bits, the even one of two, times a power of 2.
unfoldable pub to_float : ℕ → ℕ
unfolding float_shift
to_float n =
    let unit = 2 ^ float_shift 64 n in
    let low = n % unit * 2 in
    let up = ltb unit low || low == unit && n / unit % 2 == 1 in
    (n / unit + (if up then 1 else 0)) * unit

module _ {ℓ} {V : Type ℓ} where
  unfoldable pub new : ℕ → V → HashMap V
  new bucket_count empty_item = record {
    bucket_count = bucket_count;
    buckets = replicate bucket_count [];
    size = 0;
    empty_item = empty_item;
  }

  -- `_buckets[bucket(key)]`, with the index.
  unfoldable pub bucket_of : HashMap V → ℕ → Run (ℕ × List (Node V))
  bucket_of m key =
      if m.bucket_count == 0
      then fault division_by_zero
      else elim (get_elem? m.buckets (key % m.bucket_count)) [
        | none ↦ fault out_of_bounds
        | some chain ↦ ok (key % m.bucket_count, chain)
      ]

  -- The search of `at` and `operator[]`.
  unfoldable pub find : ℕ → List (Node V) → Run (Option V)
  find key [] = ok none
  find key (n ∷ rest) =
      if n.freed
      then fault use_after_free
      else if n.key == key
      then ok (some n.value)
      else find key rest

  abbrev pub or_empty : V → Option V → V
  or_empty empty_item none = empty_item
  or_empty empty_item (some v) = v

  unfoldable pub at : HashMap V → ℕ → Run V
  at m key = do
    (i, chain) ← bucket_of m key
    found ← (if m.size == 0 then ok none else find key chain)
    ok (or_empty m.empty_item found)

  -- The part of `insert` that links a node into its chain: none if the key is there. The flag says
  -- whether a node stands before.
  unfoldable pub link : Node V → Bool → List (Node V) → Run (Option (List (Node V)))
  link node has_prev [] = ok (some (record node { has_prev = has_prev } ∷ []))
  link node has_prev (n ∷ rest) =
      if n.freed
      then fault use_after_free
      else if n.key == node.key
      then ok none
      else link node true rest >>= λ linked.
          ok (elim linked [ none ↦ none | some chain ↦ some (n ∷ chain) ])

  -- `insert` up to the test of the load.
  unfoldable pub insert_node : HashMap V → Node V → Run (HashMap V × Bool)
  insert_node m node = do
    (i, chain) ← bucket_of m node.key
    linked ← link node false chain
    elim linked [
      | none ↦ ok (m, false)
      | some chain' ↦ ok (record m { buckets = set m.buckets i chain'; size = m.size + 1 }, true)
    ]

  -- The inner loop of `rehash` over one old bucket, then the loop over the buckets. What `insert`
  -- sets of the node itself, `link` sets.
  unfoldable pub reinsert :
      (HashMap V → Node V → Run (HashMap V × Bool)) → List (Node V) → HashMap V → Run (HashMap V)
  reinsert insert [] m = ok m
  reinsert insert (n ∷ rest) m =
      if n.freed then fault use_after_free else insert m n >>= λ r. reinsert insert rest r.0

  unfoldable pub reinsert_all :
      (HashMap V → Node V → Run (HashMap V × Bool))
      → List (List (Node V))
      → HashMap V
      → Run (HashMap V)
  reinsert_all insert [] m = ok m
  reinsert_all insert (chain ∷ rest) m = reinsert insert chain m >>= reinsert_all insert rest

  -- `rehash(count)`: the bucket count is set, the buckets are cleared and all nodes inserted again.
  unfoldable pub rehash_with :
      (HashMap V → Node V → Run (HashMap V × Bool)) → HashMap V → ℕ → Run (HashMap V)
  rehash_with insert m count =
      reinsert_all insert m.buckets
        (record m { bucket_count = count; buckets = replicate count []; size = 0 })

  -- The end of `insert`: the test of the load and `rehash`. The load factor is the default 1.0.
  unfoldable pub settle :
      (HashMap V → Node V → Run (HashMap V × Bool)) → HashMap V × Bool → Run (HashMap V × Bool)
  unfolding to_float
  settle insert (m, inserted) =
      if inserted && ltb (to_float m.bucket_count) (to_float m.size)
      then rehash_with insert m (m.bucket_count * 2) >>= (λ r. ok (r, true))
      else ok (m, inserted)

  -- `insert`, which calls `rehash`, which calls `insert`.
  unfoldable pub insert_fuel : ℕ → HashMap V → Node V → Run (HashMap V × Bool)
  insert_fuel zero m node = fault out_of_fuel
  insert_fuel (suc fuel) m node = insert_node m node >>= settle (insert_fuel fuel)

  -- A `rehash` inserts no more nodes than the new buckets bear, so it calls `insert` to the end.
  unfoldable pub insert : HashMap V → ℕ → V → Run (HashMap V × Bool)
  insert m key value =
      insert_fuel 2 m (record { key = key; value = value; has_prev = false; freed = false })

  unfoldable pub erase_chain : ℕ → List (Node V) → Run (Erased V)
  erase_chain key [] = ok missing
  erase_chain key (n ∷ rest) =
      if n.freed
      then fault use_after_free
      else if n.key == key
      then ok
          (if not n.has_prev then unlinked rest else dangling (record n { freed = true } ∷ rest))
      else erase_chain key rest >>= λ erased. ok (elim erased [
        | missing ↦ missing
        | unlinked chain ↦ unlinked chain
        | dangling chain ↦ dangling (n ∷ chain)
      ])

  unfoldable pub erase : HashMap V → ℕ → Run (HashMap V × ℕ)
  erase m key = do
    (i, chain) ← bucket_of m key
    erased ← (if m.size == 0 then ok missing else erase_chain key chain)
    ok (elim erased [
      | missing ↦ (m, 0)
      | unlinked chain' ↦ (record m { buckets = set m.buckets i chain'; size = m.size - 1 }, 1)
      | dangling chain' ↦ (record m { buckets = set m.buckets i chain'; size = m.size - 1 }, 1)
    ])
