-- ===== src/Structures/HashMap/Float.antt =====
-- The conversion to `float` of include/kernel/structures/hash_map.h where it is exact.
use influx.Base.{ℕ, suc, ◌^◌, ◌≤◌, ◌≡◌, refl, true, false, ltb, Bool-cases, inl, inr, arith}
use influx.Structures.HashMap.{float_shift, to_float}

pub to_float-small : (n : ℕ) → n ≤ 2 ^ 24 → to_float n ≡ n
unfolding to_float
to_float-small n h = elim (Bool-cases (ltb n (2 ^ 24))) [
  | inl less ↦
      let shift : float_shift 64 n ≡ 0 = unfold float_shift in (rw less refl) in
      rw (to_float, shift) (ground arith)
  | inr most ↦ let top : n ≡ 16777216 = ground arith in rw top (unfold float_shift in refl)
]

ltb-ge : (a b : ℕ) → b ≤ a → ltb a b ≡ false
ltb-ge a b h = ground arith

ltb-lt : (a b : ℕ) → suc a ≤ b → ltb a b ≡ true
ltb-lt a b h = ground arith

-- The test of the load, with a and b for the buckets and the size.
pub load_light : (a b : ℕ) → a ≤ 2 ^ 24 → b ≤ a → ltb (to_float a) (to_float b) ≡ false
load_light a b small h = rw (to_float-small a small, to_float-small b (omega arith)) (ltb-ge a b h)

pub load_heavy : (a b : ℕ) → b ≤ 2 ^ 24 → suc a ≤ b → ltb (to_float a) (to_float b) ≡ true
load_heavy a b small h = rw (to_float-small a (omega arith), to_float-small b small) (ltb-lt a b h)
