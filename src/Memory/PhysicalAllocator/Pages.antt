-- ===== src/Memory/PhysicalAllocator/Pages.antt =====
-- What `alloc_page` and `free_page` of kernel/memory/physical_allocator.cpp do to the set of pages in use.
use influx.Base.{
  ℕ, ◌<◌, ◌≡◌, ◌≢◌, refl, sym, ap, ◌∙◌, Bool, true, false, ◌&&◌, Option, none, some, ltb, ◌==◌,
  if◌then◌else◌, arith, inl, inr, Bool-cases, ltb→lt, ==_iff,
}
use influx.Base.Run.{ok}
use influx.Structures.Bitmap.{Bitmap, found_bit, assign}
use influx.Structures.Bitmap.Bit.{bit, assign-bit}
use influx.Structures.Bitmap.SearchBit.{IsReady, Finds, search_bit-Finds}
use influx.Memory.PhysicalAllocator.{alloc_found, alloc_page, free_page}

-- The pages after a call, page `i` being in use or not.
abbrev pub Updates : Bitmap → Bitmap → ℕ → Bool → Type 0
Updates b b' i used =
    ((j : ℕ) → bit b' j ≡ (if i == j then used else bit b j)) × (b'.size ≡ b.size) × IsReady b'

-- No page is free and nothing changes, or the page was free, lies below the size and is in use now.
abbrev pub Allocates : Bitmap → Bitmap → Option ℕ → Type 0
Allocates b b' none =
    ((j : ℕ) → j < b.size → bit b j ≡ true) × ((j : ℕ) → bit b' j ≡ bit b j) × IsReady b'
Allocates b b' (some i) = (i < b.size) × (bit b i ≡ false) × Updates b b' i true

ne_false : (v : Bool) → v ≢ false → v ≡ true
ne_false true h = refl
ne_false false h = absurd (h refl)

-- Moving the place of the next search changes no bit.
bit-found_bit : (b : Bitmap) (r : Option ℕ) (j : ℕ) → bit (found_bit b r) j ≡ bit b j
unfolding bit found_bit
bit-found_bit b none j = refl
bit-found_bit b (some i) j = refl

assign-Updates :
    (b : Bitmap) (i : ℕ) (value : Bool)
    → IsReady b
    → i < b.size
    → (b' : Bitmap) × (assign b i value ≡ ok b') × Updates b b' i value
assign-Updates b i value v h =
    let (b', run, bits, size, place, backed) = assign-bit b i value v.backed h in
    (b', run, (bits, size, record { backed = backed; placed = rw (size, place) v.placed }))

alloc_found-Allocates :
    (b : Bitmap) (r : Option ℕ)
    → Finds b false r
    → IsReady (found_bit b r)
    → (b' : Bitmap) × (alloc_found (found_bit b r) r ≡ ok (b', r)) × Allocates b b' r
unfolding alloc_found found_bit
alloc_found-Allocates b none f v = (b, refl, ((λ j h. ne_false (bit b j) (f j h)), (λ j. refl), v))
alloc_found-Allocates b (some i) f v =
    let (b', run, (bits, size, ready)) = assign-Updates (found_bit b (some i)) i true v f.0 in
    (
      b',
      rw run,
      (
        f.0,
        f.1,
        (
          (λ j. bits j ∙ ap (λ w. if i == j then true else w) (bit-found_bit b (some i) j)),
          size,
          ready,
        ),
      ),
    )

-- `alloc_page` of any page, from a ready bitmap, ends without a fault. It answers a page below the
-- size that was free and marks that page and no other, or answers none, and then every page below the
-- size was in use and no page changes; the bitmap stays ready.
pub alloc_page-Allocates :
    (b : Bitmap)
    → IsReady b
    → (b' : Bitmap) × (r : Option ℕ) × (alloc_page b none ≡ ok (b', r)) × Allocates b b' r
unfolding alloc_page
alloc_page-Allocates b v =
    let (r, run, f, ready) = search_bit-Finds b false v in
    let (b', done, allocated) = alloc_found-Allocates b r f ready in (b', r, rw run done, allocated)

-- `free_page` of a ready bitmap ends without a fault. A page below the size becomes free and no other
-- changes; for any other page nothing changes; the size stays and the bitmap stays ready.
pub free_page-Updates :
    (b : Bitmap) (page : ℕ)
    → IsReady b
    → (b' : Bitmap) × (free_page b page ≡ ok b')
      × ((j : ℕ) → bit b' j ≡ (if ltb page b.size && page == j then false else bit b j))
      × (b'.size ≡ b.size)
      × IsReady b'
unfolding free_page
free_page-Updates b page v = elim (Bool-cases (ltb page b.size)) [
  | inl inside ↦
      let (b', run, (bits, size, ready)) =
        assign-Updates b page false v (ltb→lt page b.size inside) in
      (b', rw (inside, run), (λ j. rw inside (bits j)), size, ready)
  | inr outside ↦ (b, rw outside, (λ j. rw outside), refl, v)
]

alloc_page-answer :
    (b : Bitmap) {b₁ : Bitmap} {r : Option ℕ}
    → IsReady b
    → alloc_page b none ≡ ok (b₁, r)
    → Allocates b b₁ r
alloc_page-answer b {b₁} {r} v run =
    let (b', r', done, f) = alloc_page-Allocates b v in
    let same_map : b' ≡ b₁ = cc in let same_page : r' ≡ r = cc in rw (same_map, same_page) at f

-- After `alloc_page` of a ready bitmap answered a page, `free_page` of that page ends without a fault
-- and leaves all pages and the size as they were before both calls.
pub free_page-alloc_page :
    (b : Bitmap) {b₁ : Bitmap} {page : ℕ}
    → IsReady b
    → alloc_page b none ≡ ok (b₁, some page)
    → (b₂ : Bitmap) × (free_page b₁ page ≡ ok b₂)
      × ((j : ℕ) → bit b₂ j ≡ bit b j)
      × (b₂.size ≡ b.size)
free_page-alloc_page b {b₁} {page} v run =
    let (low, was_free, (bits₁, size₁, ready₁)) = alloc_page-answer b v run in
    let (b₂, done, bits₂, size₂, ready₂) = free_page-Updates b₁ page ready₁ in
    let inside : ltb page b₁.size ≡ true = ground (arith, size₁) in
    (
      b₂,
      done,
      (λ j. elim (Bool-cases (page == j)) [
        | inl here ↦
            let same : page ≡ j = (==_iff page j).0 here in
            rw (bits₂ j, inside, here) (sym was_free ∙ ap (bit b) same)
        | inr there ↦ rw (bits₂ j, inside, there) (rw (bits₁ j, there) refl)
      ]),
      size₂ ∙ size₁,
    )

-- Two pages that `alloc_page` of a ready bitmap answers one after the other differ.
pub alloc_page-alloc_page_ne :
    (b : Bitmap) {b₁ b₂ : Bitmap} {page other : ℕ}
    → IsReady b
    → alloc_page b none ≡ ok (b₁, some page)
    → alloc_page b₁ none ≡ ok (b₂, some other)
    → page ≢ other
alloc_page-alloc_page_ne b {b₁} {b₂} {page} {other} v first second same =
    let (low, was_free, (bits₁, size₁, ready₁)) = alloc_page-answer b v first in
    let (low₂, free₂, updates₂) = alloc_page-answer b₁ ready₁ second in
    let here : (page == other) ≡ true = ground (arith, same) in
    let taken = bits₁ other in let used : bit b₁ other ≡ true = taken ∙ rw here refl in cc
