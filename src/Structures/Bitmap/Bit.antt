-- ===== src/Structures/Bitmap/Bit.antt =====
-- Single bits of include/kernel/structures/bitmap.h: reads and writes against a function from indices to
-- bits.
use influx.Base.{
  ℕ, zero, suc, ◌-◌, ◌*◌, ◌/◌, ◌%◌, ◌^◌, ◌≤◌, ◌<◌, ◌≡◌, refl, sym, ap, ◌∙◌, Bool, true, false, not,
  List, [], ◌∷◌, none, some, length, set, get_elem?, length-set, get_elem?-set_self,
  get_elem?-set_ne, leb, ◌==◌, if◌then◌else◌, u64_mod, arith,
}
use influx.Base.Run.{ok}
use influx.Base.Bits.{
  digit, digit-lt, digit-bit_or, digit-bit_and, digit-pow_self, digit-pow_ne, digit_complement,
  bit_and-pow, pow_two_pos,
}
use native.Mathlib.Nat.{pow-suc}
use Prim.Native.Nat.{bit_and, bit_or}
use influx.Structures.Bitmap.{
  Bitmap, bits_per_node, mask_shift_amount, node_get, node_set, read_bit, write_bit, get, assign,
}
use native.Mathlib.Decide.{ℕ_discrete}

pow_two-lt : (s w : ℕ) → s < w → 2 ^ s < 2 ^ w
pow_two-lt s zero h = absurd (omega arith)
pow_two-lt zero (suc w) h = omega (arith, pow-suc 2 w, pow_two_pos w)
pow_two-lt (suc s) (suc w) h = omega (arith, pow-suc 2 s, pow-suc 2 w, pow_two-lt s w (omega arith))

node_get-digit : (node shift : ℕ) → node_get node shift ≡ not (digit node shift == 0)
unfolding node_get
node_get-digit node shift = rw bit_and-pow

-- Writing one bit of a node leaves the others.
node_get-node_set :
    (node s t : ℕ) (value : Bool)
    → s < 64
    → t < 64
    → node_get (node_set node s value) t ≡ (if s == t then value else node_get node t)
unfolding node_set
node_get-node_set node s t true p q =
    rw (node_get-digit node t, node_get-digit (bit_or node (2 ^ s)) t)
      (elim (ℕ_discrete s t) [
        | yes e ↦
            let one : digit (2 ^ s) t ≡ 1 = rw e (digit-pow_self t) in
            ground (arith, digit-bit_or node (2 ^ s) t)
        | no n ↦ ground (arith, digit-bit_or node (2 ^ s) t, digit-pow_ne s t n)
      ])
node_get-node_set node s t false p q =
    let mask = u64_mod - 1 - 2 ^ s in
    let others = digit_complement 64 (2 ^ s) t (pow_two-lt s 64 p) q in
    rw (node_get-digit node t, node_get-digit (bit_and node mask) t)
      (elim (ℕ_discrete s t) [
        | yes e ↦
            let one : digit (2 ^ s) t ≡ 1 = rw e (digit-pow_self t) in
            ground (arith, digit-bit_and node mask t, others)
        | no n ↦
            ground (arith, digit-bit_and node mask t, others, digit-pow_ne s t n, digit-lt node t)
      ])

-- The bit that an index names, and false behind the nodes.
unfoldable pub bit : Bitmap → ℕ → Bool
unfolding mask_shift_amount node_get
bit b i = elim (get_elem? b.nodes (i / bits_per_node)) [
  | none ↦ false
  | some node ↦ node_get node (mask_shift_amount b.reversed (i % bits_per_node))
]

-- The nodes hold a bit for every index below the size.
abbrev pub IsBacked : Bitmap → Type 0
IsBacked b = b.size ≤ length b.nodes * bits_per_node

node_within :
    (nodes : List ℕ) (k : ℕ) → k < length nodes → (node : ℕ) × (get_elem? nodes k ≡ some node)
node_within [] k h = absurd (omega arith)
node_within (n ∷ nodes) zero h = (n, refl)
node_within (n ∷ nodes) (suc k) h = node_within nodes k (omega arith)

index-lt : (nodes : List ℕ) (k : ℕ) {node : ℕ} → get_elem? nodes k ≡ some node → k < length nodes
index-lt [] k h = cc
index-lt (n ∷ nodes) zero h = omega arith
index-lt (n ∷ nodes) (suc k) h = omega (arith, index-lt nodes k h)

bit-node :
    (b : Bitmap) (i : ℕ) {node : ℕ}
    → get_elem? b.nodes (i / bits_per_node) ≡ some node
    → bit b i ≡ node_get node (mask_shift_amount b.reversed (i % bits_per_node))
unfolding bit
bit-node b i e = rw (e, bit)

mask_shift_amount-lt : (r : Bool) (k : ℕ) → k < 64 → mask_shift_amount r k < 64
unfolding mask_shift_amount
mask_shift_amount-lt true k h = omega arith
mask_shift_amount-lt false k h = h

same_shift :
    (r : Bool) (i j : ℕ)
    → i / 64 ≡ j / 64
    → (mask_shift_amount r (i % 64) == mask_shift_amount r (j % 64)) ≡ (i == j)
unfolding mask_shift_amount
same_shift true i j e = ground arith
same_shift false i j e = ground arith

module _ (b : Bitmap) (i : ℕ) {node : ℕ}
    (e : get_elem? b.nodes (i / bits_per_node) ≡ some node) where
  read_bit-bit : read_bit b i ≡ ok (bit b i)
  unfolding read_bit bit
  read_bit-bit = rw (e, read_bit, bit)

  module _ (value : Bool) where
    written : Bitmap
    written = record b {
      nodes =
          set b.nodes (i / bits_per_node)
            (node_set node (mask_shift_amount b.reversed (i % bits_per_node)) value);
    }

    write_bit-written : write_bit b i value ≡ ok written
    unfolding write_bit written
    write_bit-written = rw (e, write_bit)

    bit-written : (j : ℕ) → bit written j ≡ (if i == j then value else bit b j)
    unfolding written
    bit-written j =
        let shift = mask_shift_amount b.reversed (i % bits_per_node) in
        let changed = node_set node shift value in
        elim (ℕ_discrete (i / 64) (j / 64)) [
          | yes same ↦
              let there : get_elem? (set b.nodes (i / 64) changed) (j / 64) ≡ some changed =
                ap (get_elem? (set b.nodes (i / 64) changed)) (sym same)
                ∙ get_elem?-set_self b.nodes (i / 64) changed (index-lt b.nodes (i / 64) e) in
              let old : get_elem? b.nodes (j / 64) ≡ some node =
                ap (get_elem? b.nodes) (sym same) ∙ e in
              bit-node written j there
              ∙ node_get-node_set node shift (mask_shift_amount b.reversed (j % 64)) value
                  (mask_shift_amount-lt b.reversed (i % 64) (omega arith))
                  (mask_shift_amount-lt b.reversed (j % 64) (omega arith))
              ∙ ap (λ t. if t then value else node_get node (mask_shift_amount b.reversed (j % 64)))
                  (same_shift b.reversed i j same)
              ∙ ap (λ v. if i == j then value else v) (sym (bit-node b j old))
          | no other ↦
              let apart : (i == j) ≡ false = ground arith in
              rw apart (unfold bit in rw (get_elem?-set_ne b.nodes changed other, bit))
        ]

-- Within the size, `get` answers the bit.
pub get-bit : (b : Bitmap) (i : ℕ) → IsBacked b → i < b.size → get b i ≡ ok (bit b i)
unfolding get
get-bit b i backed h =
    let (node, e) = node_within b.nodes (i / 64) (omega arith) in
    let inside : leb b.size i ≡ false = ground arith in rw inside (read_bit-bit b i e)

-- A write of a bit within the size of a bitmap whose nodes cover its size ends without a fault. It
-- sets that bit and leaves all other bits, the size, the place of the next search, and the nodes
-- covering the size.
pub assign-bit :
    (b : Bitmap) (i : ℕ) (value : Bool)
    → IsBacked b
    → i < b.size
    → (b' : Bitmap) × (assign b i value ≡ ok b')
      × ((j : ℕ) → bit b' j ≡ (if i == j then value else bit b j))
      × (b'.size ≡ b.size)
      × (b'.next_search_node ≡ b.next_search_node)
      × IsBacked b'
unfolding assign written
assign-bit b i value backed h =
    let (node, e) = node_within b.nodes (i / 64) (omega arith) in
    let inside : leb b.size i ≡ false = ground arith in
    (
      written b i e value,
      rw inside (write_bit-written b i e value),
      bit-written b i e value,
      refl,
      refl,
      omega (
        arith,
        length-set b.nodes (i / 64) (node_set node (mask_shift_amount b.reversed (i % 64)) value),
      ),
    )
