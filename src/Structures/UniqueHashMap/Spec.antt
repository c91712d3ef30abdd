-- ===== src/Structures/UniqueHashMap/Spec.antt =====
-- The abstract view of include/kernel/structures/unique_hash_map.h: a table of numbered slots. A new
-- value goes to the lowest free slot, or to a new one at the end.
use influx.Base.{
  ℕ, zero, suc, ◌+◌, ◌≤◌, ◌<◌, ◌≡◌, refl, ap, ◌∙◌, true, List, [], ◌∷◌, ◌++◌, Option, none, some,
  length, set, get_elem?, map, replicate, ltb, arith, ◌⊎◌, inl, inr,
}
use influx.Structures.NodeList.{insert_after}
use influx.Structures.HashMap.Erase.{get_elem?-some}
use native.Mathlib.Decide.{dec_lt}
use native.Mathlib.Nat.{add-zero}

module _ {ℓ} {V : Type ℓ} where
  unfoldable pub first_free : List (Option V) → ℕ
  first_free [] = 0
  first_free (none ∷ slots) = 0
  first_free (some v ∷ slots) = suc (first_free slots)

  unfoldable pub fill : V → List (Option V) → List (Option V)
  fill v [] = some v ∷ []
  fill v (none ∷ slots) = some v ∷ slots
  fill v (some w ∷ slots) = some w ∷ fill v slots

  -- The free slots among `i`, `i + 1`, ..., in order.
  unfoldable pub holes : ℕ → List (Option V) → List ℕ
  holes i [] = []
  holes i (none ∷ slots) = i ∷ holes (suc i) slots
  holes i (some v ∷ slots) = holes (suc i) slots

  -- A table is full, or has a first free slot.
  pub table_cases :
      (slots : List (Option V))
      → ((values : List V) × (slots ≡ map some values))
        ⊎ ((values : List V) × (rest : List (Option V)) × (slots ≡ map some values ++ none ∷ rest))
  table_cases [] = inl ([], refl)
  table_cases (none ∷ slots) = inr ([], slots, refl)
  table_cases (some v ∷ slots) = elim (table_cases slots) [
    | inl (values, e) ↦ inl (v ∷ values, ap (◌∷◌ (some v)) e)
    | inr (values, rest, e) ↦ inr (v ∷ values, rest, ap (◌∷◌ (some v)) e)
  ]

  pub first_free-full : (values : List V) → first_free (map some values) ≡ length values
  unfolding first_free
  first_free-full [] = refl
  first_free-full (v ∷ values) = ap suc (first_free-full values)

  pub first_free-hole :
      (values : List V) (rest : List (Option V))
      → first_free (map some values ++ none ∷ rest) ≡ length values
  unfolding first_free
  first_free-hole [] rest = refl
  first_free-hole (v ∷ values) rest = ap suc (first_free-hole values rest)

  pub fill-full :
      (values : List V) (v : V) → fill v (map some values) ≡ map some values ++ some v ∷ []
  unfolding fill
  fill-full [] v = refl
  fill-full (w ∷ values) v = ap (◌∷◌ (some w)) (fill-full values v)

  pub fill-hole :
      (values : List V) (rest : List (Option V)) (v : V)
      → fill v (map some values ++ none ∷ rest) ≡ map some values ++ some v ∷ rest
  unfolding fill
  fill-hole [] rest v = refl
  fill-hole (w ∷ values) rest v = ap (◌∷◌ (some w)) (fill-hole values rest v)

  pub holes-full : (i : ℕ) (values : List V) → holes i (map some values) ≡ []
  unfolding holes
  holes-full i [] = refl
  holes-full i (v ∷ values) = holes-full (suc i) values

  pub holes-filled :
      (i : ℕ) (values : List V) (rest : List (Option V))
      → holes i (map some values ++ rest) ≡ holes (length values + i) rest
  unfolding holes
  holes-filled i [] rest = ap (λ j. holes j rest) (omega arith)
  holes-filled i (v ∷ values) rest =
      holes-filled (suc i) values rest ∙ ap (λ j. holes j rest) (omega arith)

  insert_after-front :
      (k i : ℕ) (slots : List (Option V))
      → k < i
      → insert_after ltb k (holes i slots) ≡ k ∷ holes i slots
  unfolding holes insert_after
  insert_after-front k i [] h = refl
  insert_after-front k i (none ∷ slots) h = ground arith
  insert_after-front k i (some v ∷ slots) h = insert_after-front k (suc i) slots (omega arith)

  -- Freeing a slot inserts its number into the free ones, where the order wants it.
  pub holes-clear :
      (i k : ℕ) (slots : List (Option V)) (v : V)
      → get_elem? slots k ≡ some (some v)
      → holes i (set slots k none) ≡ insert_after ltb (i + k) (holes i slots)
  unfolding holes insert_after
  holes-clear i k [] v h = cc
  holes-clear i zero (none ∷ slots) v h = cc
  holes-clear i zero (some w ∷ slots) v h =
      rw add-zero (rw (insert_after-front i (suc i) slots (omega arith)))
  holes-clear i (suc k) (none ∷ slots) v h =
      let shift : suc i + k ≡ i + suc k = omega arith in
      let ih = holes-clear (suc i) k slots v h in
      let passed : ltb i (i + suc k) ≡ true = ground arith in
      rw passed (ap (◌∷◌ i) (rw shift at ih))
  holes-clear i (suc k) (some w ∷ slots) v h =
      let shift : suc i + k ≡ i + suc k = omega arith in
      rw shift at (holes-clear (suc i) k slots v h)

  -- The answer of `erase`: the number of values taken out of slot `k`.
  unfoldable pub occupied : Option (Option V) → ℕ
  occupied none = 0
  occupied (some none) = 0
  occupied (some (some v)) = 1

  -- What a lookup of slot `k` answers.
  unfoldable pub value_or : V → Option (Option V) → V
  value_or e none = e
  value_or e (some none) = e
  value_or e (some (some v)) = v

  pub get_elem?-append_left :
      (xs ys : List (Option V)) (k : ℕ) → k < length xs → get_elem? (xs ++ ys) k ≡ get_elem? xs k
  get_elem?-append_left [] ys k h = absurd (omega arith)
  get_elem?-append_left (x ∷ xs) ys zero h = refl
  get_elem?-append_left (x ∷ xs) ys (suc k) h = get_elem?-append_left xs ys k (omega arith)

  pub set-append_left :
      (xs ys : List (Option V)) (k : ℕ) (s : Option V)
      → k < length xs
      → set (xs ++ ys) k s ≡ set xs k s ++ ys
  set-append_left [] ys k s h = absurd (omega arith)
  set-append_left (x ∷ xs) ys zero s h = refl
  set-append_left (x ∷ xs) ys (suc k) s h = ap (◌∷◌ x) (set-append_left xs ys k s (omega arith))

  pub get_elem?_beyond : (xs : List (Option V)) (k : ℕ) → length xs ≤ k → get_elem? xs k ≡ none
  get_elem?_beyond [] k h = refl
  get_elem?_beyond (x ∷ xs) zero h = absurd (omega arith)
  get_elem?_beyond (x ∷ xs) (suc k) h = get_elem?_beyond xs k (omega arith)

  pub set_beyond : (xs : List (Option V)) (k : ℕ) (s : Option V) → length xs ≤ k → set xs k s ≡ xs
  set_beyond [] k s h = refl
  set_beyond (x ∷ xs) zero s h = absurd (omega arith)
  set_beyond (x ∷ xs) (suc k) s h = ap (◌∷◌ x) (set_beyond xs k s (omega arith))

  pub set_same :
      (xs : List (Option V)) (k : ℕ) (s : Option V) → get_elem? xs k ≡ some s → set xs k s ≡ xs
  set_same [] k s h = refl
  set_same (x ∷ xs) zero s h = cc
  set_same (x ∷ xs) (suc k) s h = ap (◌∷◌ x) (set_same xs k s h)

  get_elem?-replicate : (n k : ℕ) (s : Option V) → k < n → get_elem? (replicate n s) k ≡ some s
  get_elem?-replicate zero k s h = absurd (omega arith)
  get_elem?-replicate (suc n) zero s h = refl
  get_elem?-replicate (suc n) (suc k) s h = get_elem?-replicate n k s (omega arith)

  pub get_elem?-spare :
      (xs : List (Option V)) (n k : ℕ)
      → length xs ≤ k
      → k < length xs + n
      → get_elem? (xs ++ replicate n none) k ≡ some none
  get_elem?-spare [] n k h q = get_elem?-replicate n k none (omega arith)
  get_elem?-spare (x ∷ xs) n zero h q = absurd (omega arith)
  get_elem?-spare (x ∷ xs) n (suc k) h q = get_elem?-spare xs n k (omega arith) (omega arith)

  -- A slot in use, a free one or one of the spare ones, or none.
  abbrev pub SlotCases : List (Option V) → ℕ → ℕ → Type ℓ
  SlotCases xs n k =
      ((v : V) × (get_elem? xs k ≡ some (some v)) × (k < length xs))
      ⊎ ((get_elem? (xs ++ replicate n none) k ≡ some none)
          × (occupied (get_elem? xs k) ≡ 0)
          × ((e : V) → value_or e (get_elem? xs k) ≡ e)
          × (set xs k none ≡ xs))
      ⊎ ((length xs + n ≤ k) × (get_elem? xs k ≡ none) × (set xs k none ≡ xs))

  slot_within :
      (xs : List (Option V)) (n k : ℕ) (s : Option V)
      → k < length xs
      → get_elem? xs k ≡ some s
      → SlotCases xs n k
  unfolding occupied value_or
  slot_within xs n k (some v) p e = inl (v, e, p)
  slot_within xs n k none p e =
      inr (inl (get_elem?-append_left xs _ k p ∙ e, rw e, (λ d. rw e), set_same xs k none e))

  pub slot_cases : (xs : List (Option V)) (n k : ℕ) → SlotCases xs n k
  unfolding occupied value_or
  slot_cases xs n k = elim (dec_lt k (length xs)) [
    | yes p ↦ let (s, e) = get_elem?-some xs k p in slot_within xs n k s p e
    | no p ↦
        let beyond = get_elem?_beyond xs k (omega arith) in
        let kept = set_beyond xs k none (omega arith) in
        elim (dec_lt k (length xs + n)) [
          | yes q ↦
              inr (inl (get_elem?-spare xs n k (omega arith) q, rw beyond, (λ d. rw beyond), kept))
          | no q ↦ inr (inr (omega arith, beyond, kept))
        ]
  ]
