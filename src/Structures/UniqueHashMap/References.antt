-- ===== src/Structures/UniqueHashMap/References.antt =====
-- Tables of include/kernel/structures/unique_hash_map.h whose values name slots of another table, which
-- counts the values that name it: file descriptors and open files, open files and vnodes.
use influx.Base.{
  ℕ, zero, suc, ◌+◌, ◌≤◌, ◌<◌, ◌≡◌, ◌≢◌, refl, ap, List, [], ◌∷◌, Option, none, some, length, set,
  get_elem?, ◌==◌, if◌then◌else◌, arith,
}
use influx.Structures.UniqueHashMap.Spec.{fill, first_free}

module _ {A : Type 0} (key : A → ℕ) where
  unfoldable pub one_if : ℕ → A → ℕ
  one_if i a = if key a == i then 1 else 0

  -- How many values of a table name slot `i`.
  unfoldable pub count : ℕ → List (Option A) → ℕ
  unfolding one_if
  count i [] = 0
  count i (none ∷ slots) = count i slots
  count i (some a ∷ slots) = one_if i a + count i slots

  pub count-fill :
      (i : ℕ) (a : A) (slots : List (Option A))
      → count i (fill a slots) ≡ one_if i a + count i slots
  unfolding count fill
  count-fill i a [] = refl
  count-fill i a (none ∷ slots) = refl
  count-fill i a (some b ∷ slots) = omega (arith, count-fill i a slots)

  pub count-set-some :
      (i k : ℕ) (old a : A) (slots : List (Option A))
      → get_elem? slots k ≡ some (some old)
      → count i (set slots k (some a)) + one_if i old ≡ one_if i a + count i slots
  unfolding count
  count-set-some i k old a [] h = cc
  count-set-some i zero old a (none ∷ slots) h = cc
  count-set-some i zero old a (some b ∷ slots) h =
      let same : one_if i b ≡ one_if i old = cc in omega (arith, same)
  count-set-some i (suc k) old a (none ∷ slots) h = count-set-some i k old a slots h
  count-set-some i (suc k) old a (some b ∷ slots) h =
      omega (arith, count-set-some i k old a slots h)

  pub count-set-none :
      (i k : ℕ) (old : A) (slots : List (Option A))
      → get_elem? slots k ≡ some (some old)
      → count i (set slots k none) + one_if i old ≡ count i slots
  unfolding count
  count-set-none i k old [] h = cc
  count-set-none i zero old (none ∷ slots) h = cc
  count-set-none i zero old (some b ∷ slots) h =
      let same : one_if i b ≡ one_if i old = cc in omega (arith, same)
  count-set-none i (suc k) old (none ∷ slots) h = count-set-none i k old slots h
  count-set-none i (suc k) old (some b ∷ slots) h = omega (arith, count-set-none i k old slots h)

  pub one_if_self : (a : A) → one_if (key a) a ≡ 1
  unfolding one_if
  one_if_self a = ground arith

  pub one_if_ne : (i : ℕ) (a : A) → key a ≢ i → one_if i a ≡ 0
  unfolding one_if
  one_if_ne i a h = ground arith

  pub one_if-le : (i : ℕ) (a : A) → one_if i a ≤ 1
  unfolding one_if
  one_if-le i a = ground arith

  pub one_if_same : (i : ℕ) (a b : A) → key a ≡ key b → one_if i a ≡ one_if i b
  unfolding one_if
  one_if_same i a b h = ap (λ k. if k == i then 1 else 0) h

  -- A value in the table is counted.
  pub count_pos :
      (k : ℕ) (a : A) (slots : List (Option A))
      → get_elem? slots k ≡ some (some a)
      → 0 < count (key a) slots
  count_pos k a slots h = omega (arith, count-set-none (key a) k a slots h, one_if_self a)

module _ {B : Type 0} (amount : B → ℕ) where
  -- The amount that a slot keeps.
  unfoldable pub kept : Option (Option B) → ℕ
  kept none = 0
  kept (some none) = 0
  kept (some (some b)) = amount b

  pub kept_cases : (s : Option (Option B)) → 0 < kept s → (b : B) × (s ≡ some (some b))
  unfolding kept
  kept_cases none h = absurd (omega arith)
  kept_cases (some none) h = absurd (omega arith)
  kept_cases (some (some b)) h = (b, refl)

module _ {B : Type 0} where
  pub get_elem?-fill_self :
      (b : B) (slots : List (Option B))
      → get_elem? (fill b slots) (first_free slots) ≡ some (some b)
  unfolding fill first_free
  get_elem?-fill_self b [] = refl
  get_elem?-fill_self b (none ∷ slots) = refl
  get_elem?-fill_self b (some c ∷ slots) = get_elem?-fill_self b slots

  pub get_elem?-fill_ne :
      (b : B) (slots : List (Option B)) (j : ℕ)
      → first_free slots ≢ j
      → get_elem? (fill b slots) j ≡ get_elem? slots j
  unfolding fill first_free
  get_elem?-fill_ne b [] zero h = absurd (h refl)
  get_elem?-fill_ne b [] (suc j) h = refl
  get_elem?-fill_ne b (none ∷ slots) zero h = absurd (h refl)
  get_elem?-fill_ne b (none ∷ slots) (suc j) h = refl
  get_elem?-fill_ne b (some c ∷ slots) zero h = refl
  get_elem?-fill_ne b (some c ∷ slots) (suc j) h = get_elem?-fill_ne b slots j (λ e. h (ap suc e))

  pub kept_free :
      (amount : B → ℕ) (slots : List (Option B))
      → kept amount (get_elem? slots (first_free slots)) ≡ 0
  unfolding kept first_free
  kept_free amount [] = refl
  kept_free amount (none ∷ slots) = refl
  kept_free amount (some c ∷ slots) = kept_free amount slots

  pub get_elem?-lt :
      (slots : List (Option B)) (k : ℕ) (s : Option B)
      → get_elem? slots k ≡ some s
      → k < length slots
  get_elem?-lt [] k s h = cc
  get_elem?-lt (x ∷ slots) zero s h = omega arith
  get_elem?-lt (x ∷ slots) (suc k) s h = omega (arith, get_elem?-lt slots k s h)
