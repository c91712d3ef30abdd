-- ===== src/Memory/VirtualAllocator/Split.antt =====
-- The parts that a region is cut into by `insert_vma_region` and `free_vma_region` of
-- kernel/memory/virtual_allocator.cpp.
use influx.Base.{
  ℕ, ◌+◌, ◌-◌, ◌≤◌, ◌<◌, ◌≡◌, refl, sym, ap, ◌∙◌, true, false, List, ◌∷◌, some, if◌then◌else◌,
  add64, sub64, u64_mod, arith, Bool-cases, inl, inr,
}
use influx.Memory.VirtualAllocator.{Region}
use influx.Memory.VirtualAllocator.Regions.{covers, kind, lookup, Updates}

-- The region lies inside the container, and neither is empty.
pub record Inside (r c : Region) : Type 0 where
  pub filled : 0 < r.size
  pub low : c.base_addr ≤ r.base_addr
  pub high : r.base_addr + r.size ≤ c.base_addr + c.size
  pub word : c.base_addr + c.size < u64_mod

module _ {end : ℕ} (r c : Region) (behind : List Region) (i : Inside r c) where
  pub same-Updates :
      c.base_addr ≡ r.base_addr
      → c.size ≡ r.size
      → Updates (λ a. covers a r) (kind r) end (c ∷ behind) (r ∷ behind)
  same-Updates e f = record {
    tiles = λ start t. (sym e ∙ t.0, i.filled, rw f at t.2);
    inside = λ start t a h. ground (arith, t.0);
    looks = λ start t a. ground (arith, e, f);
  }

  pub first-Updates :
      (rest : Region)
      → c.base_addr ≡ r.base_addr
      → r.size < c.size
      → rest.base_addr ≡ add64 c.base_addr r.size
      → rest.size ≡ sub64 c.size r.size
      → kind rest ≡ kind c
      → Updates (λ a. covers a r) (kind r) end (c ∷ behind) (r ∷ rest ∷ behind)
  first-Updates rest e f at_rest size_rest same = record {
    tiles = λ start t.
        let sum : start + r.size + rest.size ≡ start + c.size = omega (arith, i.word) in
        (sym e ∙ t.0, i.filled, (omega (arith, i.word, t.0), omega (arith, i.word), rw sum t.2));
    inside = λ start t a h. ground (arith, t.0);
    looks = λ start t a. elim (Bool-cases (covers a r)) [
      | inl h ↦ rw h refl
      | inr h ↦
          let plain : rest.base_addr ≡ c.base_addr + r.size = omega (arith, i.word) in
          let plain_size : rest.size ≡ c.size - r.size = omega (arith, i.word) in
          let both : covers a rest ≡ covers a c = ground (arith, e, h) in
          rw (h, both) (ap (λ k. if covers a c then some k else lookup behind a) same)
    ];
  }

  pub last-Updates :
      (small : Region)
      → c.base_addr < r.base_addr
      → r.base_addr + r.size ≡ c.base_addr + c.size
      → small.base_addr ≡ c.base_addr
      → small.size ≡ sub64 c.size r.size
      → kind small ≡ kind c
      → Updates (λ a. covers a r) (kind r) end (c ∷ behind) (small ∷ r ∷ behind)
  last-Updates small e f at_small size_small same = record {
    tiles = λ start t.
        let sum : start + small.size + r.size ≡ start + c.size =
          omega (arith, i.word, i.high, i.low) in
        (
          at_small ∙ t.0,
          omega (arith, i.word, i.high, i.low),
          (omega (arith, i.word, i.high, i.low, t.0), i.filled, rw sum t.2),
        );
    inside = λ start t a h. ground (arith, t.0);
    looks = λ start t a.
        let plain_size : small.size ≡ c.size - r.size = omega (arith, i.word, i.high, i.low) in
        elim (Bool-cases (covers a r)) [
          | inl h ↦ let out : covers a small ≡ false = ground (arith, f, h) in rw (out, h) refl
          | inr h ↦
              let both : covers a small ≡ covers a c = ground (arith, f, h, i.high, i.low) in
              rw (h, both) (ap (λ k. if covers a c then some k else lookup behind a) same)
        ];
  }

  pub middle-Updates :
      (small rest : Region)
      → c.base_addr < r.base_addr
      → r.base_addr + r.size < c.base_addr + c.size
      → small.base_addr ≡ c.base_addr
      → small.size ≡ sub64 r.base_addr c.base_addr
      → rest.base_addr ≡ add64 r.base_addr r.size
      → rest.size ≡ sub64 (add64 c.base_addr c.size) (add64 r.base_addr r.size)
      → kind small ≡ kind c
      → kind rest ≡ kind c
      → Updates (λ a. covers a r) (kind r) end (c ∷ behind) (small ∷ r ∷ rest ∷ behind)
  middle-Updates small rest e f at_small size_small at_rest size_rest same_small same_rest =
      let at_end : rest.base_addr ≡ r.base_addr + r.size = omega (arith, i.word) in
      let width : small.size ≡ r.base_addr - c.base_addr = omega (arith, i.word, i.high) in
      let rest_width : rest.size ≡ c.base_addr + c.size - (r.base_addr + r.size) =
        omega (arith, i.word, i.high) in
      record {
        tiles = λ start t.
            let sum : start + small.size + r.size + rest.size ≡ start + c.size =
              omega (arith, t.0) in
            (
              at_small ∙ t.0,
              omega arith,
              (omega (arith, t.0), i.filled, (omega (arith, t.0), omega arith, rw sum t.2)),
            );
        inside = λ start t a h. ground (arith, t.0);
        looks = λ start t a. elim (Bool-cases (covers a r)) [
          | inl h ↦ let out : covers a small ≡ false = ground (arith, h) in rw (out, h) refl
          | inr h ↦ elim (Bool-cases (covers a small)) [
            | inl s ↦
                let held : covers a c ≡ true = ground (arith, s, f) in
                rw (h, s, held) (ap some same_small)
            | inr s ↦
                let both : covers a rest ≡ covers a c = ground (arith, h, s, f) in
                rw (h, s, both) (ap (λ k. if covers a c then some k else lookup behind a) same_rest)
          ]
        ];
      }
