-- ===== src/Structures/Bitmap/SearchBit.antt =====
-- `search_bit` of include/kernel/structures/bitmap.h.
use influx.Base.{
  ℕ, zero, suc, ◌+◌, ◌-◌, ◌*◌, ◌≤◌, ◌<◌, ◌≡◌, ◌≢◌, refl, Bool, true, false, Option, none, some,
  ◌==◌, arith, inl, inr, Bool-cases,
}
use influx.Base.Run.{ok}
use influx.Structures.Bitmap.{
  Bitmap, bits_per_node, same_bit, search_from, search_between, search_again, found_bit, search_bit,
}
use influx.Structures.Bitmap.Bit.{bit, IsBacked, get-bit}
use native.Mathlib.Decide.{dec_lt, ℕ_discrete}

same_bit-eq : (v w : Bool) → same_bit v w ≡ true → v ≡ w
unfolding same_bit
same_bit-eq true true h = refl
same_bit-eq true false h = cc
same_bit-eq false true h = cc
same_bit-eq false false h = refl

same_bit-ne : (v w : Bool) → same_bit v w ≡ false → v ≢ w
unfolding same_bit
same_bit-ne true true h e = cc
same_bit-ne true false h e = cc
same_bit-ne false true h e = cc
same_bit-ne false false h e = cc

-- The first index of the value in a run of `count` indices, or none.
abbrev pub FirstOf : Bitmap → Bool → ℕ → ℕ → Option ℕ → Type 0
FirstOf b value count index none = (j : ℕ) → index ≤ j → j < index + count → bit b j ≢ value
FirstOf b value count index (some i) =
    (index ≤ i)
    × (i < index + count)
    × (bit b i ≡ value)
    × ((j : ℕ) → index ≤ j → j < i → bit b j ≢ value)

FirstOf-suc :
    (b : Bitmap) (value : Bool) (count index : ℕ) (r : Option ℕ)
    → bit b index ≢ value
    → FirstOf b value count (index + 1) r
    → FirstOf b value (suc count) index r
FirstOf-suc b value count index none h f =
    λ j p q. elim (ℕ_discrete j index) [ yes e ↦ rw e h | no n ↦ f j (omega arith) (omega arith) ]
FirstOf-suc b value count index (some i) h f = (
  omega arith,
  omega arith,
  f.2,
  λ j p q. elim (ℕ_discrete j index) [ yes e ↦ rw e h | no n ↦ f.3 j (omega arith) q ],
)

pub search_from-FirstOf :
    (b : Bitmap) (value : Bool) (count index : ℕ)
    → IsBacked b
    → index + count ≤ b.size
    → (r : Option ℕ) × (search_from b value count index ≡ ok r) × FirstOf b value count index r
unfolding search_from
search_from-FirstOf b value zero index backed h = (none, refl, λ j p q. absurd (omega arith))
search_from-FirstOf b value (suc count) index backed h =
    let (r, run, f) = search_from-FirstOf b value count (index + 1) backed (omega arith) in
    elim (Bool-cases (same_bit (bit b index) value)) [
      | inl same ↦ (
        some index,
        rw (get-bit b index backed (omega arith)) (rw same),
        (
          omega arith,
          omega arith,
          same_bit-eq (bit b index) value same,
          λ j p q. absurd (omega arith),
        ),
      )
      | inr other ↦ (
        r,
        rw (get-bit b index backed (omega arith)) (rw other run),
        FirstOf-suc b value count index r (same_bit-ne (bit b index) value other) f,
      )
    ]

-- The place of the next search lies within the size.
pub record IsReady (b : Bitmap) : Type 0 where
  pub backed : IsBacked b
  pub placed : b.next_search_node * bits_per_node ≤ b.size

-- An index of the value below the size, or none, and then there is no such index.
abbrev pub Finds : Bitmap → Bool → Option ℕ → Type 0
Finds b value none = (j : ℕ) → j < b.size → bit b j ≢ value
Finds b value (some i) = (i < b.size) × (bit b i ≡ value)

found_bit-IsReady :
    (b : Bitmap) (r : Option ℕ)
    → IsReady b
    → ((i : ℕ) → r ≡ some i → i < b.size)
    → IsReady (found_bit b r)
unfolding found_bit
found_bit-IsReady b none v h = v
found_bit-IsReady b (some i) v h = record { backed = v.backed; placed = omega (arith, h i refl) }

search_again-Finds :
    (b : Bitmap) (value : Bool) (first : Option ℕ)
    → IsReady b
    → FirstOf b value
        (b.size - b.next_search_node * bits_per_node)
        (b.next_search_node * bits_per_node)
        first
    → (r : Option ℕ) × (search_again b value first ≡ ok r) × Finds b value r
unfolding search_again search_between
search_again-Finds b value (some i) v f = (some i, refl, (omega (arith, v.placed), f.2))
search_again-Finds b value none v f = elim (Bool-cases (b.next_search_node == 0)) [
  | inl start ↦ (none, rw start, λ j h. f j (ground arith) (omega arith))
  | inr later ↦
      let stop = b.next_search_node * bits_per_node in
      let (r, run, g) = search_from-FirstOf b value stop 0 v.backed (omega (arith, v.placed)) in
      let whole : stop - 0 ≡ stop = omega arith in
      (r, rw (later, search_between, whole) run, second r g)
]
  where
    second :
        (r : Option ℕ) → FirstOf b value (b.next_search_node * bits_per_node) 0 r → Finds b value r
    second none g = λ j h. elim (dec_lt j (b.next_search_node * bits_per_node)) [
      | yes p ↦ g j (omega arith) (omega arith)
      | no p ↦ f j (omega arith) (omega arith)
    ]
    second (some i) g = (omega (arith, v.placed), g.2)

Finds-lt :
    (b : Bitmap) (value : Bool) (r : Option ℕ) → Finds b value r → (i : ℕ) → r ≡ some i → i < b.size
Finds-lt b value none f i e = cc
Finds-lt b value (some k) f i e = let same : k ≡ i = cc in rw same at f.0

-- `search_bit` of a ready bitmap ends without a fault. It answers an index of the value below the
-- size, or none, and then no index below the size has the value; only the place of the next search
-- moves, and the bitmap stays ready.
pub search_bit-Finds :
    (b : Bitmap) (value : Bool)
    → IsReady b
    → (r : Option ℕ) × (search_bit b value ≡ ok (found_bit b r, r))
      × Finds b value r
      × IsReady (found_bit b r)
unfolding search_bit search_between
search_bit-Finds b value v =
    let start = b.next_search_node * bits_per_node in
    let (first, run, f) =
      search_from-FirstOf b value (b.size - start) start v.backed (omega (arith, v.placed)) in
    let (r, again, g) = search_again-Finds b value first v f in
    (r, rw (run, again), g, found_bit-IsReady b r v (Finds-lt b value r g))
