-- ===== src/Structures/UniqueHashMap/Balance.antt =====
-- A table that counts the values of another that name its slots: what keeps the counts right.
use influx.Base.{
  ℕ, ◌+◌, ◌<◌, ◌≡◌, ◌≢◌, refl, sym, ap, ◌∙◌, Option, none, some, List, set, get_elem?,
  get_elem?-set_self, get_elem?-set_ne, arith,
}
use influx.Structures.UniqueHashMap.Spec.{fill, first_free}
use influx.Structures.UniqueHashMap.References.{
  one_if, count, count-fill, count-set-some, count-set-none, one_if_self, one_if_ne, one_if_same,
  count_pos, kept, kept_cases, get_elem?-fill_self, get_elem?-fill_ne, kept_free, get_elem?-lt,
}
use mathlib.Core.Path.{subst}
use native.Mathlib.Decide.{ℕ_discrete}

-- Each slot of `bs` counts the values of `ks` that name it, and `others` more.
pub record Balanced {A B : Type 0} (key : A → ℕ) (amount : B → ℕ) (others : ℕ → ℕ)
    (ks : List (Option A)) (bs : List (Option B)) : Type 0 where
  pub sums : (i : ℕ) → others i + count key i ks ≡ kept amount (get_elem? bs i)

-- No slot in use counts 0, but perhaps slot `i`.
pub record PositiveBut {B : Type 0} (amount : B → ℕ) (i : ℕ) (bs : List (Option B)) : Type 0 where
  pub positive : (j : ℕ) (b : B) → i ≢ j → get_elem? bs j ≡ some (some b) → 0 < amount b

pub record Positive {B : Type 0} (amount : B → ℕ) (bs : List (Option B)) : Type 0 where
  pub positive : (j : ℕ) (b : B) → get_elem? bs j ≡ some (some b) → 0 < amount b

module _ {B : Type 0} (amount : B → ℕ) where
  pub kept-set_self :
      (bs : List (Option B)) (i : ℕ) (s old : Option B)
      → get_elem? bs i ≡ some old
      → kept amount (get_elem? (set bs i s) i) ≡ kept amount (some s)
  kept-set_self bs i s old h =
      ap (kept amount) (get_elem?-set_self bs i s (get_elem?-lt bs i old h))

  pub kept-set_ne :
      (bs : List (Option B)) (i j : ℕ) (s : Option B)
      → i ≢ j
      → kept amount (get_elem? (set bs i s) j) ≡ kept amount (get_elem? bs j)
  kept-set_ne bs i j s h = ap (kept amount) (get_elem?-set_ne bs s h)

  pub Positive-set :
      (bs : List (Option B)) (i : ℕ) (b : B) (old : Option B)
      → PositiveBut amount i bs
      → get_elem? bs i ≡ some old
      → 0 < amount b
      → Positive amount (set bs i (some b))
  Positive-set bs i b old p h q = record {
    positive = λ j c e. elim (ℕ_discrete i j) [
      | yes same ↦
          let here = get_elem?-set_self bs i (some b) (get_elem?-lt bs i old h) in
          let c_b : amount b ≡ amount c = cc in omega arith
      | no differ ↦ p.positive j c differ (sym (get_elem?-set_ne bs (some b) differ) ∙ e)
    ];
  }

  pub Positive-clear :
      (bs : List (Option B)) (i : ℕ) (old : Option B)
      → PositiveBut amount i bs
      → get_elem? bs i ≡ some old
      → Positive amount (set bs i none)
  Positive-clear bs i old p h = record {
    positive = λ j c e. elim (ℕ_discrete i j) [
      | yes same ↦ let here = get_elem?-set_self bs i none (get_elem?-lt bs i old h) in cc
      | no differ ↦ p.positive j c differ (sym (get_elem?-set_ne bs none differ) ∙ e)
    ];
  }

  pub Positive-but : (bs : List (Option B)) (i : ℕ) → Positive amount bs → PositiveBut amount i bs
  Positive-but bs i p = record { positive = λ j c differ e. p.positive j c e }

  pub PositiveBut-fill :
      (bs : List (Option B)) (b : B)
      → Positive amount bs
      → PositiveBut amount (first_free bs) (fill b bs)
  PositiveBut-fill bs b p = record {
    positive = λ j c differ e. p.positive j c (sym (get_elem?-fill_ne b bs j differ) ∙ e);
  }

  pub Positive-fill :
      (bs : List (Option B)) (b : B)
      → Positive amount bs
      → 0 < amount b
      → Positive amount (fill b bs)
  Positive-fill bs b p h = record {
    positive = λ j c e. elim (ℕ_discrete (first_free bs) j) [
      | yes same ↦
          let here = get_elem?-fill_self b bs in let c_b : amount b ≡ amount c = cc in omega arith
      | no differ ↦ p.positive j c (sym (get_elem?-fill_ne b bs j differ) ∙ e)
    ];
  }

module _ {A B : Type 0} (key : A → ℕ) (amount : B → ℕ) (others : ℕ → ℕ) where
  -- A named slot is in use.
  pub Balanced-named :
      (ks : List (Option A)) (bs : List (Option B)) (k : ℕ) (a : A)
      → Balanced key amount others ks bs
      → get_elem? ks k ≡ some (some a)
      → (b : B) × (get_elem? bs (key a) ≡ some (some b))
  Balanced-named ks bs k a v h =
      kept_cases amount (get_elem? bs (key a))
        (omega (arith, v.sums (key a), count_pos key k a ks h))

  -- A slot changed together with the number of values that name it.
  Balanced-set :
      (ks ks' : List (Option A)) (bs : List (Option B)) (i : ℕ) (s old : Option B)
      → Balanced key amount others ks bs
      → get_elem? bs i ≡ some old
      → ((j : ℕ) → i ≢ j → count key j ks' ≡ count key j ks)
      → count key i ks' + kept amount (some old) ≡ count key i ks + kept amount (some s)
      → Balanced key amount others ks' (set bs i s)
  Balanced-set ks ks' bs i s old v h away here = record {
    sums = λ j. elim (ℕ_discrete i j) [
      | yes same ↦
          let now = kept-set_self amount bs i s old h in
          let was : others i + count key i ks ≡ kept amount (some old) =
            v.sums i ∙ ap (kept amount) h in
          let at_i : others i + count key i ks' ≡ kept amount (get_elem? (set bs i s) i) =
            omega (arith, now, was, here) in
          subst (λ j. others j + count key j ks' ≡ kept amount (get_elem? (set bs i s) j)) same at_i
      | no differ ↦
          ap (λ c. others j + c) (away j differ)
          ∙ v.sums j
          ∙ sym (kept-set_ne amount bs i j s differ)
    ];
  }

  pub Balanced-add :
      (ks : List (Option A)) (bs : List (Option B)) (a : A) (b b' : B)
      → Balanced key amount others ks bs
      → get_elem? bs (key a) ≡ some (some b)
      → amount b' ≡ amount b + 1
      → Balanced key amount others (fill a ks) (set bs (key a) (some b'))
  unfolding kept
  Balanced-add ks bs a b b' v h more =
      Balanced-set ks (fill a ks) bs (key a) (some b') (some b) v h
        (λ j differ. omega (arith, count-fill key j a ks, one_if_ne key j a differ))
        (omega (arith, count-fill key (key a) a ks, one_if_self key a, more))

  pub Balanced-remove :
      (ks : List (Option A)) (bs : List (Option B)) (k : ℕ) (a : A) (b : B) (s : Option B)
      → Balanced key amount others ks bs
      → get_elem? ks k ≡ some (some a)
      → get_elem? bs (key a) ≡ some (some b)
      → kept amount (some s) + 1 ≡ amount b
      → Balanced key amount others (set ks k none) (set bs (key a) s)
  unfolding kept
  Balanced-remove ks bs k a b s v named h less =
      Balanced-set ks (set ks k none) bs (key a) s (some b) v h
        (λ j differ. omega (arith, count-set-none key j k a ks named, one_if_ne key j a differ))
        (omega (arith, count-set-none key (key a) k a ks named, one_if_self key a, less))

  pub Balanced-keep :
      (ks : List (Option A)) (bs : List (Option B)) (i : ℕ) (b b' : B)
      → Balanced key amount others ks bs
      → get_elem? bs i ≡ some (some b)
      → amount b' ≡ amount b
      → Balanced key amount others ks (set bs i (some b'))
  unfolding kept
  Balanced-keep ks bs i b b' v h e =
      Balanced-set ks ks bs i (some b') (some b) v h (λ j differ. refl) (omega (arith, e))

  pub Balanced-same :
      (ks : List (Option A)) (bs : List (Option B)) (k : ℕ) (a a' : A)
      → Balanced key amount others ks bs
      → get_elem? ks k ≡ some (some a)
      → key a' ≡ key a
      → Balanced key amount others (set ks k (some a')) bs
  Balanced-same ks bs k a a' v h e = record {
    sums = λ i.
        let counted : count key i (set ks k (some a')) ≡ count key i ks =
          omega (arith, count-set-some key i k a a' ks h, one_if_same key i a' a e) in
        ap (λ c. others i + c) counted ∙ v.sums i;
  }

  -- A new slot that nothing names yet.
  pub Balanced-fill :
      (ks : List (Option A)) (bs : List (Option B)) (b : B)
      → Balanced key amount others ks bs
      → amount b ≡ 0
      → Balanced key amount others ks (fill b bs)
  unfolding kept
  Balanced-fill ks bs b v e = record {
    sums = λ j. elim (ℕ_discrete (first_free bs) j) [
      | yes same ↦
          let now = ap (kept amount) (get_elem?-fill_self b bs) in
          let at_free : others (first_free bs) + count key (first_free bs) ks
              ≡ kept amount (get_elem? (fill b bs) (first_free bs)) =
            omega (arith, now, v.sums (first_free bs), kept_free amount bs, e) in
          rw same at at_free
      | no differ ↦ v.sums j ∙ sym (ap (kept amount) (get_elem?-fill_ne b bs j differ))
    ];
  }

  -- A new slot with its first name.
  pub Balanced-new :
      (ks : List (Option A)) (bs : List (Option B)) (a : A) (b : B)
      → Balanced key amount others ks bs
      → key a ≡ first_free bs
      → amount b ≡ 1
      → Balanced key amount others (fill a ks) (fill b bs)
  unfolding kept
  Balanced-new ks bs a b v free e = record {
    sums = λ j. elim (ℕ_discrete (first_free bs) j) [
      | yes same ↦
          let now = ap (kept amount) (get_elem?-fill_self b bs) in
          let one : one_if key (first_free bs) a ≡ 1 = rw free at (one_if_self key a) in
          let at_free : others (first_free bs) + count key (first_free bs) (fill a ks)
              ≡ kept amount (get_elem? (fill b bs) (first_free bs)) =
            omega (
              arith,
              now,
              v.sums (first_free bs),
              kept_free amount bs,
              e,
              one,
              count-fill key (first_free bs) a ks,
            ) in
          rw same at at_free
      | no differ ↦
          let none_here = one_if_ne key j a (λ k. differ (sym free ∙ k)) in
          let counted : count key j (fill a ks) ≡ count key j ks =
            omega (arith, none_here, count-fill key j a ks) in
          ap (λ c. others j + c) counted
          ∙ v.sums j
          ∙ sym (ap (kept amount) (get_elem?-fill_ne b bs j differ))
    ];
  }
