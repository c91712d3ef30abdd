-- ===== src/Memory/VirtualAllocator/Regions.antt =====
-- What the list of regions of kernel/memory/virtual_allocator.cpp says of each address.
use influx.Base.{
  ℕ, ◌+◌, ◌≤◌, ◌<◌, ◌≡◌, refl, sym, ap, ◌∙◌, Bool, true, false, ◌&&◌, List, [], ◌∷◌, ◌++◌, Option,
  none, some, ltb, leb, if◌then◌else◌, arith, Bool-cases, inl, inr,
}
use influx.Memory.VirtualAllocator.{Region}

-- The regions follow each other without a gap from `start` to `end`, and none is empty.
abbrev pub Tiles : ℕ → List Region → ℕ → Type 0
Tiles start [] end = start ≡ end
Tiles start (r ∷ rest) end = (r.base_addr ≡ start) × (0 < r.size) × Tiles (start + r.size) rest end

abbrev pub covers : ℕ → Region → Bool
covers address r = leb r.base_addr address && ltb address (r.base_addr + r.size)

-- Whether an address is allocated, and its flags.
abbrev pub kind : Region → Bool × ℕ
kind r = (r.allocated, r.protection_flags)

-- The kind of the region that covers an address.
abbrev pub lookup : List Region → ℕ → Option (Bool × ℕ)
lookup [] address = none
lookup (r ∷ rest) address = if covers address r then some (kind r) else lookup rest address

-- The second list tiles what the first does and says the same, but for the addresses that are hit, all
-- of them inside, which have the kind `k`.
pub record Updates (hit : ℕ → Bool) (k : Bool × ℕ) (end : ℕ) (xs ys : List Region) : Type 0 where
  pub tiles : (start : ℕ) → Tiles start xs end → Tiles start ys end
  pub inside : (start : ℕ) → Tiles start xs end → (a : ℕ) → hit a ≡ true → start ≤ a
  pub looks :
      (start : ℕ)
      → Tiles start xs end
      → (a : ℕ) → lookup ys a ≡ (if hit a then some k else lookup xs a)

-- The second list tiles what the first does and says the same.
pub record Keeps (end : ℕ) (xs ys : List Region) : Type 0 where
  pub tiles : (start : ℕ) → Tiles start xs end → Tiles start ys end
  pub looks : (start : ℕ) → Tiles start xs end → (a : ℕ) → lookup ys a ≡ lookup xs a

module _ {hit : ℕ → Bool} {k : Bool × ℕ} {end : ℕ} where
  Updates-cons :
      {xs ys : List Region} (r : Region)
      → Updates hit k end xs ys
      → Updates hit k end (r ∷ xs) (r ∷ ys)
  Updates-cons {xs} {ys} r u = record {
    tiles = λ start t. (t.0, t.1, u.tiles (start + r.size) t.2);
    inside = λ start t a h. omega (arith, u.inside (start + r.size) t.2 a h);
    looks = λ start t a. elim (Bool-cases (hit a)) [
      | inl h ↦
          let out : covers a r ≡ false = ground (arith, u.inside (start + r.size) t.2 a h, t.0) in
          rw (h, out) (u.looks (start + r.size) t.2 a ∙ rw h refl)
      | inr h ↦ rw (u.looks (start + r.size) t.2 a, h)
    ];
  }

  pub Updates-append :
      {xs ys : List Region} (before : List Region)
      → Updates hit k end xs ys
      → Updates hit k end (before ++ xs) (before ++ ys)
  Updates-append [] u = u
  Updates-append (r ∷ before) u = Updates-cons r (Updates-append before u)

  pub Updates-Keeps :
      {xs ys zs : List Region} → Updates hit k end xs ys → Keeps end ys zs → Updates hit k end xs zs
  Updates-Keeps u v = record {
    tiles = λ start t. v.tiles start (u.tiles start t);
    inside = u.inside;
    looks = λ start t a. v.looks start (u.tiles start t) a ∙ u.looks start t a;
  }

-- The same addresses, told in another way.
pub Updates-hit :
    {hit hit' : ℕ → Bool} {k : Bool × ℕ} {end : ℕ} {xs ys : List Region}
    → ((a : ℕ) → hit' a ≡ hit a)
    → Updates hit k end xs ys
    → Updates hit' k end xs ys
Updates-hit {hit} {hit'} {k} {end} {xs} {ys} e u = record {
  tiles = u.tiles;
  inside = λ start t a h. u.inside start t a (sym (e a) ∙ h);
  looks = λ start t a.
      u.looks start t a ∙ ap (λ (v : Bool). if v then some k else lookup xs a) (sym (e a));
}

module _ {end : ℕ} where
  pub Keeps-append :
      {xs ys : List Region} (before : List Region)
      → Keeps end xs ys
      → Keeps end (before ++ xs) (before ++ ys)
  Keeps-append [] u = u
  Keeps-append {xs} {ys} (r ∷ before) u =
      let v = Keeps-append before u in
      record {
        tiles = λ start t. (t.0, t.1, v.tiles (start + r.size) t.2);
        looks = λ start t a.
            ap (λ o. if covers a r then some (kind r) else o) (v.looks (start + r.size) t.2 a);
      }

  pub Keeps-refl : (xs : List Region) → Keeps end xs xs
  Keeps-refl xs = record { tiles = λ start t. t; looks = λ start t a. refl }

  pub Keeps-trans : {xs ys zs : List Region} → Keeps end xs ys → Keeps end ys zs → Keeps end xs zs
  Keeps-trans u v = record {
    tiles = λ start t. v.tiles start (u.tiles start t);
    looks = λ start t a. v.looks start (u.tiles start t) a ∙ u.looks start t a;
  }
