-- ===== src/Memory/VirtualAllocator/FreeRegion.antt =====
-- `find_free_region` of kernel/memory/virtual_allocator.cpp and the place that it answers.
use influx.Base.{
  ℕ, ◌+◌, ◌%◌, ◌≤◌, ◌<◌, ◌≡◌, refl, ap, ◌∙◌, true, false, ◌||◌, List, [], ◌∷◌, ◌++◌, some, ltb,
  ◌==◌, if◌then◌else◌, add64, u64_mod, arith, Bool-cases, inl, inr, ◌⊎◌,
}
use influx.Memory.PhysicalAllocator.{page_size}
use influx.Memory.VirtualAllocator.{Region, no_region, padding, passes, find_free_region}
use influx.Memory.VirtualAllocator.Regions.{Tiles, covers, kind, lookup}
use influx.Memory.VirtualAllocator.Split.{Inside}
use influx.Memory.VirtualAllocator.Insert.{Tiles-within}

-- The region is allocated, or too small for so many bytes behind its first page boundary.
abbrev pub NoRoom : ℕ → List Region → Type 0
NoRoom size [] = Unit {0}
NoRoom size (r ∷ rest) =
    ((r.allocated ≡ true) ⊎ (r.size < size + padding r.base_addr)) × NoRoom size rest

-- A free region of the list with the place found in it.
pub record Found (xs : List Region) (r : Region) : Type 0 where
  pub before : List Region
  pub container : Region
  pub behind : List Region
  pub listed : xs ≡ before ++ container ∷ behind
  pub free : container.allocated ≡ false
  pub inside : Inside r container
  pub aligned : r.base_addr % page_size ≡ 0

-- What is handed out at an address.
abbrev pub placed : ℕ → ℕ → ℕ → Region
placed size flags base_addr = record {
  base_addr = base_addr;
  size = size;
  protection_flags = flags;
  allocated = true;
}

padding-lt : (address : ℕ) → padding address < page_size
unfolding padding
padding-lt address = ground arith

padding-aligned : (address : ℕ) → (address + padding address) % page_size ≡ 0
unfolding padding
padding-aligned address = ground arith

-- Without a region to ignore, above the address 0, a region is passed over if it is allocated or small.
passes-plain :
    (size : ℕ) (r : Region)
    → size + page_size < u64_mod
    → 0 < r.base_addr
    → passes size no_region r ≡ (ltb r.size (size + padding r.base_addr) || r.allocated)
unfolding passes
passes-plain size r small high =
    let pad = padding-lt r.base_addr in
    let plain : add64 size (padding r.base_addr) ≡ size + padding r.base_addr = omega arith in
    let apart : (r.base_addr == 0) ≡ false = ground arith in
    elim (Bool-cases (ltb r.size (size + padding r.base_addr))) [
      | inl h ↦ rw (plain, h) refl
      | inr h ↦ elim (Bool-cases r.allocated) [
        | inl used ↦ rw (plain, h, used) refl
        | inr free ↦ rw (plain, h, free, apart) refl
      ]
    ]

-- What the search answers of a region: the place in it, or nothing.
find_free_region-head :
    (size flags : ℕ) (r : Region) (rest : List Region)
    → size + page_size < u64_mod
    → 0 < r.base_addr
    → find_free_region (r ∷ rest) size flags no_region ≡ (
        if ltb r.size (size + padding r.base_addr) || r.allocated
        then find_free_region rest size flags no_region
        else placed size flags (add64 r.base_addr (padding r.base_addr)))
unfolding find_free_region
find_free_region-head size flags r rest small high =
    let apart : (r.base_addr == 0) ≡ false = ground arith in
    rw (passes-plain size r small high, apart) refl

-- Nothing, and no region has room, or a place in a free region.
abbrev pub Search : List Region → ℕ → ℕ → Region → Type 0
Search xs size flags r =
    ((r ≡ no_region) × NoRoom size xs)
    ⊎ ((base_addr : ℕ) × (r ≡ placed size flags base_addr) × Found xs (placed size flags base_addr))

Search-skip :
    (xs : List Region) (size flags : ℕ) (r found : Region)
    → (r.allocated ≡ true) ⊎ (r.size < size + padding r.base_addr)
    → Search xs size flags found
    → Search (r ∷ xs) size flags found
Search-skip xs size flags r found why (inl (e, full)) = inl (e, (why, full))
Search-skip xs size flags r found why (inr (base_addr, e, f)) = inr (
  base_addr,
  e,
  record {
    before = r ∷ f.before;
    container = f.container;
    behind = f.behind;
    listed = ap (λ t. r ∷ t) f.listed;
    free = f.free;
    inside = f.inside;
    aligned = f.aligned;
  },
)

Search-here :
    (xs : List Region) (size flags : ℕ) (r : Region)
    → r.allocated ≡ false
    → size + padding r.base_addr ≤ r.size
    → r.base_addr + r.size < u64_mod
    → 0 < size
    → Search (r ∷ xs) size flags (placed size flags (add64 r.base_addr (padding r.base_addr)))
Search-here xs size flags r free roomy word some_size =
    let plain : add64 r.base_addr (padding r.base_addr) ≡ r.base_addr + padding r.base_addr =
      omega arith in
    inr (
      add64 r.base_addr (padding r.base_addr),
      refl,
      record {
        before = [];
        container = r;
        behind = xs;
        listed = refl;
        free = free;
        inside = record { filled = some_size; low = omega arith; high = omega arith; word = word };
        aligned = rw plain (padding-aligned r.base_addr);
      },
    )

-- The search answers a place in a free region, or none if none has room.
pub find_free_region-Search :
    (xs : List Region) (start end size flags : ℕ)
    → Tiles start xs end
    → end < u64_mod
    → 0 < start
    → 0 < size
    → size + page_size < u64_mod
    → Search xs size flags (find_free_region xs size flags no_region)
find_free_region-Search [] start end size flags t word high some_size small =
    inl (unfold find_free_region in refl, tt)
find_free_region-Search (r ∷ rest) start end size flags t word high some_size small =
    let later =
      find_free_region-Search rest (start + r.size) end size flags t.2 word (omega arith) some_size
        small in
    let (low, top) = Tiles-within start [] r rest end t in
    let head = find_free_region-head size flags r rest small (omega (arith, t.0)) in
    let found = find_free_region rest size flags no_region in
    elim (Bool-cases (ltb r.size (size + padding r.base_addr))) [
      | inl h ↦
          let skip : find_free_region (r ∷ rest) size flags no_region ≡ found = head ∙ rw h refl in
          rw skip (Search-skip rest size flags r found (inr (ground arith)) later)
      | inr h ↦ elim (Bool-cases r.allocated) [
        | inl used ↦
            let skip : find_free_region (r ∷ rest) size flags no_region ≡ found =
              head ∙ rw (h, used) refl in
            rw skip (Search-skip rest size flags r found (inl used) later)
        | inr free ↦
            let here : find_free_region (r ∷ rest) size flags no_region
                ≡ placed size flags (add64 r.base_addr (padding r.base_addr)) =
              head ∙ rw (h, free) refl in
            rw here (Search-here rest size flags r free (ground arith) (omega arith) some_size)
      ]
    ]

lookup-within :
    (start : ℕ) (before : List Region) (c : Region) (behind : List Region) (end a : ℕ)
    → Tiles start (before ++ c ∷ behind) end
    → covers a c ≡ true
    → lookup (before ++ c ∷ behind) a ≡ some (kind c)
lookup-within start [] c behind end a t h = rw h refl
lookup-within start (r ∷ before) c behind end a t h =
    let (low, high) = Tiles-within (start + r.size) before c behind end t.2 in
    let out : covers a r ≡ false = ground (arith, h, t.0) in
    rw out (lookup-within (start + r.size) before c behind end a t.2 h)

-- Every address of a place that was found was free.
pub Found-free :
    (start end : ℕ) {xs : List Region} (r : Region)
    → Tiles start xs end
    → (f : Found xs r) → (a : ℕ) → covers a r ≡ true
    → lookup xs a ≡ some (false, f.container.protection_flags)
Found-free start end {xs} r t f a h =
    let held : covers a f.container ≡ true = ground (arith, h, f.inside.low, f.inside.high) in
    ap (λ ys. lookup ys a) f.listed
    ∙ lookup-within start f.before f.container f.behind end a (rw f.listed at t) held
    ∙ ap (λ used. some (used, f.container.protection_flags)) f.free
