-- ===== src/Structures/UniqueHashMap.antt =====
-- The hash map of include/kernel/structures/unique_hash_map.h, which chooses its keys itself.
pub mod Spec
pub mod Refinement
pub mod Removal
pub mod Trace
pub mod References
pub mod Balance
use influx.Base.{
  ℕ, ◌+◌, Bool, true, false, List, [], ◌∷◌, Option, none, some, ltb, ◌==◌, if◌then◌else◌,
}
use influx.Base.Run.{Run, ok, fault, ◌>>=◌, null_pointer}
use influx.Structures.HashMap
use influx.Structures.HashMap.{HashMap}
use influx.Structures.NodeList

-- `_deleted_keys_list` from its head on.
pub record UniqueHashMap {ℓ} (V : Type ℓ) : Type ℓ where
  pub map : HashMap V
  pub counter : ℕ
  pub deleted_keys : List ℕ

-- The list of deleted keys after `erase`.
unfoldable pub delete_key : ℕ → List ℕ → List ℕ
delete_key key [] = key ∷ []
delete_key key (head ∷ rest) = NodeList.insert ltb key head rest

module _ {ℓ} {V : Type ℓ} where
  unfoldable pub new : ℕ → V → UniqueHashMap V
  new bucket_count empty_item = record {
    map = HashMap.new bucket_count empty_item;
    counter = 0;
    deleted_keys = [];
  }

  unfoldable pub next_key : UniqueHashMap V → ℕ
  next_key u = elim u.deleted_keys [ [] ↦ u.counter | key ∷ rest ↦ key ]

  -- The key is the counter or the head of the list of deleted keys, which is then removed.
  unfoldable pub use_key : ℕ → UniqueHashMap V → Run (UniqueHashMap V)
  use_key key u =
      if key == u.counter then ok (record u { counter = u.counter + 1 }) else elim u.deleted_keys [
        | [] ↦ fault null_pointer
        | head ∷ rest ↦ ok (record u { deleted_keys = rest })
      ]

  -- `insert_unique`: the key, or none for -1.
  unfoldable pub insert_unique : UniqueHashMap V → V → Run (UniqueHashMap V × Option ℕ)
  unfolding next_key use_key
  insert_unique u value = do
    let key = next_key u
    (map', inserted) ← HashMap.insert u.map key value
    if inserted
        then use_key key (record u { map = map' }) >>= (λ u'. ok (u', some key))
        else ok (record u { map = map' }, none)

  -- `emplace_unique`, which uses the key before it inserts.
  unfoldable pub emplace_unique : UniqueHashMap V → V → Run (UniqueHashMap V × ℕ × Bool)
  unfolding next_key
  emplace_unique u value =
      let key = next_key u in
      let u' : UniqueHashMap V = elim u.deleted_keys [
        | [] ↦ record u { counter = u.counter + 1 }
        | head ∷ rest ↦ record u { deleted_keys = rest }
      ] in
      HashMap.insert u.map key value >>= λ r. ok (record u' { map = r.0 }, key, r.1)

  unfoldable pub erase : UniqueHashMap V → ℕ → Run (UniqueHashMap V × ℕ)
  unfolding delete_key
  erase u key = do
    (map', erased) ← HashMap.erase u.map key
    if erased == 0
        then ok (record u { map = map' }, 0)
        else ok (record u { map = map'; deleted_keys = delete_key key u.deleted_keys }, 1)

  unfoldable pub at : UniqueHashMap V → ℕ → Run V
  at u key = HashMap.at u.map key
