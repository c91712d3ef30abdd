-- ===== src/Memory/VirtualAllocator/Free.antt =====
-- `free_vma_region` of kernel/memory/virtual_allocator.cpp, for a region that starts or ends where its
-- container does.
use influx.Base.{
  ℕ, ◌+◌, ◌-◌, ◌≤◌, ◌<◌, ◌≡◌, refl, sym, ap, ◌∙◌, true, false, List, ◌∷◌, ◌++◌, some, ◌==◌, add64,
  sub64, u64_mod, arith, Bool-cases, inl, inr, ◌⊎◌,
}
use influx.Base.Run.{ok}
use influx.Structures.NodeList.{find_node}
use influx.Memory.VirtualAllocator.{
  Region, Paging, Allocator, node_bytes, address_in_vma_region, check_for_vma_node_combination,
  whole, forward,
}
use influx.Memory.VirtualAllocator.Insertion.{settle}
use influx.Memory.VirtualAllocator.Release.{
  hole_of, free_whole, free_first, free_last, free_within, free_region, free_vma_region,
}
use influx.Memory.VirtualAllocator.Regions.{
  Tiles, covers, Updates, Updates-append, Updates-Keeps, Updates-hit,
}
use influx.Memory.VirtualAllocator.Combine.{check-Keeps, check-forward-Keeps}
use influx.Memory.VirtualAllocator.Split.{Inside, same-Updates, first-Updates, last-Updates}
use influx.Memory.VirtualAllocator.Insert.{find_node-Tiles, alloc_vma_node-room, Changes}

module _ {ℓ} {P : Type ℓ} (paging : Paging P) where
  module _ (s : Allocator P) (r : Region) (before : List Region) (c : Region) (behind : List Region)
      (end room : ℕ) (at_c : s.regions ≡ before ++ c ∷ behind) (word : end < u64_mod)
      (i : Inside r c) (roomy : s.room ≡ some room) (one : node_bytes ≤ room)
      (used : c.allocated ≡ true) where
    free_whole-Changes :
        c.base_addr ≡ r.base_addr
        → c.size ≡ r.size
        → Changes paging (free_whole paging s before c behind) s (λ a. covers a r) (false, 0) end
    unfolding free_whole
    free_whole-Changes e f =
        let freed : Region = record c { allocated = false; protection_flags = 0 } in
        let inside : Inside freed c = record {
          filled = rw f i.filled;
          low = omega arith;
          high = omega arith;
          word = i.word;
        } in
        let cut = same-Updates {end = end} freed c behind inside refl refl in
        let same : (a : ℕ) → covers a r ≡ covers a freed = λ a. rw (e, f) refl in
        (
          record s {
            regions = whole (
                check_for_vma_node_combination
                  (record { before = before; node = freed; behind = behind }));
          },
          refl,
          rw at_c (
              Updates-hit same
                (Updates-Keeps (Updates-append before cut) (check-Keeps before freed behind word))),
          refl,
          refl,
        )

    free_first-Changes :
        c.base_addr ≡ r.base_addr
        → r.size < c.size
        → Changes paging (free_first paging s r before c behind) s (λ a. covers a r) (false, 0) end
    unfolding free_first
    free_first-Changes e f =
        let rest : Region = record c {
          base_addr = add64 r.base_addr r.size;
          size = sub64 c.size r.size;
          allocated = true;
        } in
        let freed : Region = record c { size = r.size; allocated = false; protection_flags = 0 } in
        let inside : Inside freed c = record {
          filled = i.filled;
          low = omega arith;
          high = omega arith;
          word = i.word;
        } in
        let cut =
          first-Updates {end = end} freed c behind inside rest refl f
            (ap (λ b. add64 b r.size) (sym e)) refl
            (ap (λ u. (u, c.protection_flags)) (sym used)) in
        let same : (a : ℕ) → covers a r ≡ covers a freed = λ a. rw e refl in
        (
          record s {
            room = some (room - node_bytes);
            regions = whole (
                check_for_vma_node_combination (
                  forward (
                    check_for_vma_node_combination
                      (record { before = before; node = freed; behind = rest ∷ behind }))));
          },
          rw (alloc_vma_node-room paging s rest room roomy one) refl,
          rw at_c (
              Updates-hit same (
                Updates-Keeps (Updates-append before cut)
                  (check-forward-Keeps before freed (rest ∷ behind) word))),
          refl,
          refl,
        )

    free_last-Changes :
        c.base_addr < r.base_addr
        → r.base_addr + r.size ≡ c.base_addr + c.size
        → Changes paging (free_last paging s r before c behind) s (λ a. covers a r) (false, 0) end
    unfolding free_last
    free_last-Changes e f =
        let small : Region = record c { size = sub64 c.size r.size } in
        let hole = hole_of r in
        let inside : Inside hole c = record {
          filled = i.filled;
          low = i.low;
          high = i.high;
          word = i.word;
        } in
        let cut = last-Updates {end = end} hole c behind inside small e f refl refl refl in
        let resized : Allocator P = record s { regions = before ++ small ∷ behind } in
        (
          record s {
            room = some (room - node_bytes);
            regions = whole (
                check_for_vma_node_combination (
                  forward (
                    check_for_vma_node_combination
                      (record { before = before; node = small; behind = hole ∷ behind }))));
          },
          rw (alloc_vma_node-room paging resized hole room roomy (omega arith)) refl,
          rw at_c (
              Updates-Keeps (Updates-append before cut)
                (check-forward-Keeps before small (hole ∷ behind) word)),
          refl,
          refl,
        )

    free_within-Changes :
        (c.base_addr ≡ r.base_addr) ⊎ (r.base_addr + r.size ≡ c.base_addr + c.size)
        → Changes paging (free_within paging s r before c behind) s (λ a. covers a r) (false, 0) end
    unfolding free_within
    free_within-Changes edge = elim (Bool-cases (c.base_addr == r.base_addr)) [
      | inl first ↦ elim (Bool-cases (c.size == r.size)) [
        | inl same ↦ rw (first, same) (free_whole-Changes (ground arith) (ground arith))
        | inr other ↦ rw (first, other) (free_first-Changes (ground arith) (ground (arith, i.high)))
      ]
      | inr inner ↦ elim edge [
        | inl e ↦ absurd (ground arith)
        | inr e ↦
            let last : (add64 c.base_addr c.size == add64 r.base_addr r.size) ≡ true =
              ground (arith, i.word) in
            rw (inner, last) (free_last-Changes (ground (arith, i.low)) e)
      ]
    ]

  free_region-within :
      (s : Allocator P) (r : Region) (before : List Region) (c : Region) (behind : List Region)
      {s' : Allocator P}
      → find_node (address_in_vma_region r.base_addr) s.regions ≡ some (before, c, behind)
      → c.allocated ≡ true
      → free_within paging s r before c behind ≡ ok s'
      → free_region paging s r ≡ ok (s', true)
  unfolding free_region
  free_region-within s r before c behind found used run =
      rw (free_region, found) (rw run (rw used refl))

  free_vma_region-idle :
      (s : Allocator P) (r : Region) {s' : Allocator P}
      → free_region paging s r ≡ ok (s', true)
      → s'.pending.size ≡ 0
      → free_vma_region paging s r ≡ ok (s', true)
  unfolding free_vma_region settle
  free_vma_region-idle s r run idle = rw run (rw idle refl)

  -- For regions that follow each other without a gap up to an address below 2^64, room for a node and
  -- no region pending: `free_vma_region` of a region inside an allocated one, which starts or ends
  -- where that one does, ends without a fault and answers true. The addresses of the region are free
  -- without flags, all others are as before, and the regions still follow each other without a gap.
  pub free_vma_region-Updates :
      (s : Allocator P) (r : Region) (before : List Region) (c : Region) (behind : List Region)
      (start end room : ℕ)
      → s.regions ≡ before ++ c ∷ behind
      → Tiles start s.regions end
      → end < u64_mod
      → Inside r c
      → (c.base_addr ≡ r.base_addr) ⊎ (r.base_addr + r.size ≡ c.base_addr + c.size)
      → c.allocated ≡ true
      → s.room ≡ some room
      → node_bytes ≤ room
      → s.pending.size ≡ 0
      → (s' : Allocator P) × (free_vma_region paging s r ≡ ok (s', true))
        × Updates (λ a. covers a r) (false, 0) end s.regions s'.regions
  free_vma_region-Updates s r before c behind start end room at_c t word i edge used roomy one
        idle =
      let (s', run, u, p, g) =
        free_within-Changes s r before c behind end room at_c word i roomy one used edge in
      let first : covers r.base_addr c ≡ true = ground (arith, i.low, i.high, i.filled) in
      let found =
        ap (find_node (address_in_vma_region r.base_addr)) at_c
        ∙ find_node-Tiles start before c behind end r.base_addr (rw at_c at t) word first in
      let freed = free_region-within s r before c behind found used run in
      (s', free_vma_region-idle s r freed (ap (λ (q : Region). q.size) p ∙ idle), u)
