-- ===== src/Memory/VirtualAllocator/Insert.antt =====
-- `insert_vma_region` of kernel/memory/virtual_allocator.cpp, for a region that lies in one region of the
-- list.
use influx.Base.{
  ℕ, ◌+◌, ◌-◌, ◌*◌, ◌≤◌, ◌<◌, ◌≡◌, refl, ap, ◌∙◌, Bool, true, false, ◌&&◌, List, [], ◌∷◌, ◌++◌,
  some, ltb, leb, ◌==◌, add64, sub64, u64_mod, arith, Bool-cases, inl, inr,
}
use influx.Base.Run.{Run, ok}
use mathlib.Core.List.{append_assoc}
use influx.Structures.NodeList.{find_node}
use influx.Memory.VirtualAllocator.{
  Region, Paging, Allocator, node_bytes, address_in_vma_region, check_for_vma_node_combination,
  whole, place,
}
use influx.Memory.VirtualAllocator.Insertion.{
  take_node, alloc_vma_node, list_page_region, place_first, insert_first, insert_last,
  insert_middle, insert_within, insert_region, settle, insert_fuel, insert_vma_region,
}
use influx.Memory.VirtualAllocator.Regions.{
  Tiles, covers, kind, Updates, Updates-append, Updates-Keeps,
}
use influx.Memory.VirtualAllocator.Combine.{Tiles-le, check-Keeps}
use influx.Memory.VirtualAllocator.Split.{
  Inside, same-Updates, first-Updates, last-Updates, middle-Updates,
}

pub Tiles-within :
    (start : ℕ) (before : List Region) (c : Region) (behind : List Region) (end : ℕ)
    → Tiles start (before ++ c ∷ behind) end
    → (start ≤ c.base_addr) × (c.base_addr + c.size ≤ end)
Tiles-within start [] c behind end t =
    let low = Tiles-le (start + c.size) behind end t.2 in (omega (arith, t.0), omega (arith, t.0))
Tiles-within start (r ∷ before) c behind end t =
    let (low, high) = Tiles-within (start + r.size) before c behind end t.2 in (omega arith, high)

pub find_node-Tiles :
    (start : ℕ) (before : List Region) (c : Region) (behind : List Region) (end address : ℕ)
    → Tiles start (before ++ c ∷ behind) end
    → end < u64_mod
    → covers address c ≡ true
    → find_node (address_in_vma_region address) (before ++ c ∷ behind) ≡ some (before, c, behind)
unfolding find_node address_in_vma_region
find_node-Tiles start [] c behind end address t word h =
    let (low, high) = Tiles-within start [] c behind end t in
    let here : (leb c.base_addr address && ltb address (add64 c.base_addr c.size)) ≡ true =
      ground (arith, h) in
    rw here refl
find_node-Tiles start (r ∷ before) c behind end address t word h =
    let (low, high) = Tiles-within (start + r.size) before c behind end t.2 in
    let there : (leb r.base_addr address && ltb address (add64 r.base_addr r.size)) ≡ false =
      ground (arith, h, t.0) in
    rw there (rw (find_node-Tiles (start + r.size) before c behind end address t.2 word h) refl)

place_first-before :
    (r : Region) (before : List Region) (rest : Region) (behind : List Region)
    → r.base_addr < rest.base_addr
    → place_first r before rest behind
      ≡ record { before = before; node = r; behind = rest ∷ behind }
unfolding place_first place
place_first-before r [] rest behind h =
    let lower : ltb r.base_addr rest.base_addr ≡ true = ground arith in rw lower refl
place_first-before r (b ∷ before) rest behind h = refl

module _ {ℓ} {P : Type ℓ} (paging : Paging P) where
  -- Room in the page of the list: a node is taken from it, and nothing else changes.
  pub alloc_vma_node-room :
      (s : Allocator P) (r : Region) (room : ℕ)
      → s.room ≡ some room
      → node_bytes ≤ room
      → alloc_vma_node paging s r ≡ ok (record s { room = some (room - node_bytes) })
  unfolding alloc_vma_node list_page_region take_node
  alloc_vma_node-room s r room e h =
      let roomy : ltb room node_bytes ≡ false = ground arith in rw e (rw roomy refl)

  -- What an operation that ends leaves behind: the update of the list, all else but the room kept.
  abbrev pub Changes : Run (Allocator P) → Allocator P → (ℕ → Bool) → Bool × ℕ → ℕ → Type ℓ
  Changes run s hit k end =
      (s' : Allocator P) × (run ≡ ok s')
      × Updates hit k end s.regions s'.regions
      × (s'.pending ≡ s.pending)
      × (s'.paging ≡ s.paging)

  module _ (s : Allocator P) (r : Region) (before : List Region) (c : Region) (behind : List Region)
      (end room : ℕ) (at_c : s.regions ≡ before ++ c ∷ behind) (word : end < u64_mod)
      (i : Inside r c) (roomy : s.room ≡ some room) (two : 2 * node_bytes ≤ room) where
    insert_first-Changes :
        c.base_addr ≡ r.base_addr
        → r.size < c.size
        → Changes (insert_first paging s r before c behind) s (λ a. covers a r) (kind r) end
    unfolding insert_first
    insert_first-Changes e f =
        let rest : Region = record c {
          base_addr = add64 c.base_addr r.size;
          size = sub64 c.size r.size;
        } in
        let later : r.base_addr < rest.base_addr = omega (arith, i.word, i.filled) in
        let cut = first-Updates {end = end} r c behind i rest e f refl refl refl in
        (
          record s {
            room = some (room - node_bytes);
            regions = whole (check_for_vma_node_combination (place_first r before rest behind));
          },
          rw (alloc_vma_node-room s r room roomy (omega arith)) refl,
          rw (place_first-before r before rest behind later, at_c)
              (Updates-Keeps (Updates-append before cut)
                (check-Keeps before r (rest ∷ behind) word)),
          refl,
          refl,
        )

    insert_last-Changes :
        c.base_addr < r.base_addr
        → r.base_addr + r.size ≡ c.base_addr + c.size
        → Changes (insert_last paging s r before c behind) s (λ a. covers a r) (kind r) end
    unfolding insert_last
    insert_last-Changes e f =
        let small : Region = record c { size = sub64 c.size r.size } in
        let cut = last-Updates {end = end} r c behind i small e f refl refl refl in
        (
          record s {
            room = some (room - node_bytes);
            regions = whole (
                check_for_vma_node_combination
                  (record { before = before ++ small ∷ []; node = r; behind = behind }));
          },
          rw (alloc_vma_node-room s r room roomy (omega arith)) refl,
          rw (at_c) (
              Updates-Keeps (Updates-append before cut)
                (rw append_assoc at (check-Keeps (before ++ small ∷ []) r behind word))),
          refl,
          refl,
        )

    insert_middle-Changes :
        c.base_addr < r.base_addr
        → r.base_addr + r.size < c.base_addr + c.size
        → Changes (insert_middle paging s r before c behind) s (λ a. covers a r) (kind r) end
    unfolding insert_middle
    insert_middle-Changes e f =
        let at_end = add64 r.base_addr r.size in
        let small : Region = record c { size = sub64 r.base_addr c.base_addr } in
        let rest : Region = record c {
          base_addr = at_end;
          size = sub64 (add64 c.base_addr c.size) at_end;
        } in
        let cut =
          middle-Updates {end = end} r c behind i small rest e f refl refl refl refl refl refl in
        let s₁ : Allocator P = record s { room = some (room - node_bytes) } in
        (
          record s {
            room = some (room - node_bytes - node_bytes);
            regions = whole (
                check_for_vma_node_combination
                  (record { before = before ++ small ∷ []; node = r; behind = rest ∷ behind }));
          },
          rw (alloc_vma_node-room s r room roomy (omega arith))
              (rw (alloc_vma_node-room s₁ rest (room - node_bytes) refl (omega arith)) refl),
          rw (at_c) (
              Updates-Keeps (Updates-append before cut)
                (rw append_assoc at (check-Keeps (before ++ small ∷ []) r (rest ∷ behind) word))),
          refl,
          refl,
        )

    insert_within-Changes :
        Changes (insert_within paging s r before c behind) s (λ a. covers a r) (kind r) end
    unfolding insert_within
    insert_within-Changes = elim (Bool-cases (c.base_addr == r.base_addr)) [
      | inl first ↦ elim (Bool-cases (c.size == r.size)) [
        | inl same ↦ (
          record s { regions = before ++ r ∷ behind },
          rw (first, same) refl,
          rw at_c (Updates-append before (same-Updates r c behind i (ground arith) (ground arith))),
          refl,
          refl,
        )
        | inr other ↦
            rw (first, other) (insert_first-Changes (ground arith) (ground (arith, i.high)))
      ]
      | inr inner ↦ elim (Bool-cases (add64 c.base_addr c.size == add64 r.base_addr r.size)) [
        | inl last ↦
            rw (inner, last)
              (insert_last-Changes (ground (arith, i.low)) (ground (arith, i.word, i.high)))
        | inr middle ↦
            rw (inner, middle)
              (insert_middle-Changes (ground (arith, i.low)) (ground (arith, i.word, i.high)))
      ]
    ]

  insert_region-within :
      (s : Allocator P) (r : Region) (before : List Region) (c : Region) (behind : List Region)
      → find_node (address_in_vma_region r.base_addr) s.regions ≡ some (before, c, behind)
      → insert_region paging s r ≡ insert_within paging s r before c behind
  unfolding insert_region
  insert_region-within s r before c behind found = rw (insert_region, found) refl

  insert_vma_region-idle :
      (s : Allocator P) (r : Region) {s' : Allocator P}
      → insert_region paging s r ≡ ok s'
      → s'.pending.size ≡ 0
      → insert_vma_region paging s r ≡ ok s'
  unfolding insert_vma_region insert_fuel settle
  insert_vma_region-idle s r run idle = rw run (rw idle refl)

  -- For regions that follow each other without a gap up to an address below 2^64, room for two nodes
  -- and no region pending: `insert_vma_region` of a region inside one of them ends without a fault.
  -- The addresses of the region have its flags and its allocation, all others are as before, the
  -- regions still follow each other without a gap, and the paging and the pending region are as
  -- before.
  pub insert_vma_region-Changes :
      (s : Allocator P) (r : Region) (before : List Region) (c : Region) (behind : List Region)
      (start end room : ℕ)
      → s.regions ≡ before ++ c ∷ behind
      → Tiles start s.regions end
      → end < u64_mod
      → Inside r c
      → s.room ≡ some room
      → 2 * node_bytes ≤ room
      → s.pending.size ≡ 0
      → Changes (insert_vma_region paging s r) s (λ a. covers a r) (kind r) end
  insert_vma_region-Changes s r before c behind start end room at_c t word i roomy two idle =
      let (s', run, u, p, g) =
        insert_within-Changes s r before c behind end room at_c word i roomy two in
      let first : covers r.base_addr c ≡ true = ground (arith, i.low, i.high, i.filled) in
      let found = find_node-Tiles start before c behind end r.base_addr (rw at_c at t) word first in
      let region =
        insert_region-within s r before c behind
          (ap (find_node (address_in_vma_region r.base_addr)) at_c ∙ found) in
      (
        s',
        insert_vma_region-idle s r (region ∙ run) (ap (λ (q : Region). q.size) p ∙ idle),
        u,
        p,
        g,
      )
