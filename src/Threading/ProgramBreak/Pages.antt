-- ===== src/Threading/ProgramBreak/Pages.antt =====
-- The loops of `sbrk` of kernel/threading/scheduler.cpp that map and unmap pages.
use influx.Base.{
  ℕ, zero, suc, ◌+◌, ◌*◌, ◌%◌, ◌≤◌, ◌<◌, ◌≡◌, ◌≢◌, refl, ◌∙◌, Bool, true, false, not, ◌&&◌, ◌||◌,
  none, ltb, leb, ◌==◌, add64, sub64, u64_mod, arith, Bool-cases, inl, inr,
}
use influx.Base.Run.{ok}
use influx.Memory.VirtualAllocator.{Paging, read_write}
use influx.Threading.ProgramBreak.{
  default_user_stack_address, next_page, last_page, map_up, unmap_down,
}

-- What the paging manager says of the pages that are mapped.
pub record Tracks {P : Type 0} (paging : Paging P) (mapped : P → ℕ → Bool) : Type 0 where
  pub maps :
      (p : P) (a b : ℕ)
      → (paging.map_page p a none).1 ≡ true
      → mapped (paging.map_page p a none).0 b ≡ (b == a || mapped p b)
  pub fails :
      (p : P) (a b : ℕ)
      → (paging.map_page p a none).1 ≡ false
      → mapped (paging.map_page p a none).0 b ≡ mapped p b
  pub permits : (p : P) (a f b : ℕ) → mapped (paging.set_pte_permissions p a f) b ≡ mapped p b
  pub unmaps : (p : P) (a b : ℕ) → mapped (paging.unmap_page p a) b ≡ (not (b == a) && mapped p b)

pub next_page_lem : (end : ℕ) → (end ≤ next_page end) × (next_page end % 4096 ≡ 0)
unfolding next_page
next_page_lem end = elim (Bool-cases (end % 4096 == 0)) [
  | inl even ↦
      let whole : end % 4096 ≡ 0 = ground arith in
      (omega arith, rw (next_page, even) (omega (arith, whole)))
  | inr odd ↦ (omega arith, rw (next_page, odd) (omega arith))
]

pub last_page_lem :
    (end : ℕ) → 4096 ≤ end → end < u64_mod → (last_page end < end) × (end ≤ last_page end + 4096)
unfolding last_page
last_page_lem end above word = elim (Bool-cases (end % 4096 == 0)) [
  | inl even ↦ rw (last_page, even) (omega arith, omega arith)
  | inr odd ↦
      let some_left : end % 4096 ≢ 0 = ground arith in
      rw (last_page, odd) (omega arith, omega arith)
]

-- What the loop that maps leaves: all that was mapped, and the pages up to the limit unless it failed.
pub record MapsUp {P : Type 0} (mapped : P → ℕ → Bool) (p : P) (addr limit : ℕ) (p' : P)
    (done : Bool) : Type 0 where
  pub kept : (b : ℕ) → mapped p b ≡ true → mapped p' b ≡ true
  pub up : done ≡ true → (b : ℕ) → b % 4096 ≡ 0 → addr ≤ b → b < limit → mapped p' b ≡ true

module _ {P : Type 0} (paging : Paging P) (mapped : P → ℕ → Bool)
    (tracks : Tracks paging mapped) where
  -- One page mapped for the user.
  mapped_page :
      (p : P) (a b : ℕ)
      → (paging.map_page p a none).1 ≡ true
      → mapped (paging.set_pte_permissions (paging.map_page p a none).0 a read_write) b
        ≡ (b == a || mapped p b)
  mapped_page p a b done = tracks.permits _ a read_write b ∙ tracks.maps p a b done

  pub map_up-MapsUp :
      (fuel limit addr : ℕ) (p : P)
      → addr % 4096 ≡ 0
      → limit ≤ addr + fuel * 4096
      → limit < default_user_stack_address
      → (p' : P) × (done : Bool) × (map_up paging (suc fuel) limit addr p ≡ ok (p', done))
        × MapsUp mapped p addr limit p' done
  unfolding map_up
  map_up-MapsUp zero limit addr p even enough low =
      let stop : ltb addr limit ≡ false = ground arith in
      (
        p,
        true,
        rw stop refl,
        record { kept = λ b h. h; up = λ d b e from to. absurd (omega arith) },
      )
  map_up-MapsUp (suc fuel) limit addr p even enough low = elim (Bool-cases (ltb addr limit)) [
    | inr stop ↦
        let end : limit ≤ addr = ground arith in
        (
          p,
          true,
          rw stop refl,
          record { kept = λ b h. h; up = λ d b e from to. absurd (omega arith) },
        )
    | inl more ↦
        let inside : addr < limit = ground arith in
        let next : add64 addr 4096 ≡ addr + 4096 = omega arith in
        elim (Bool-cases (paging.map_page p addr none).1) [
          | inr failed ↦ (
            (paging.map_page p addr none).0,
            false,
            rw more (rw failed refl),
            record { kept = λ b h. tracks.fails p addr b failed ∙ h; up = λ d. cc },
          )
          | inl done ↦
              let p₁ = paging.set_pte_permissions (paging.map_page p addr none).0 addr read_write in
              let (p', all, run, m) =
                map_up-MapsUp fuel limit (add64 addr 4096) p₁ (omega arith) (omega arith) low in
              (
                p',
                all,
                rw more (rw done run),
                record {
                  kept = λ b h. m.kept b (mapped_page p addr b done ∙ ground arith);
                  up = λ d b e from to. elim (Bool-cases (b == addr)) [
                    | inl same ↦ m.kept b (mapped_page p addr b done ∙ rw same refl)
                    | inr other ↦ m.up d b e (ground arith) to
                  ];
                },
              )
        ]
  ]

  -- The loop ends and keeps the pages below the limit.
  pub unmap_down_lem :
      (fuel limit addr : ℕ) (p : P)
      → addr < limit + fuel * 4096
      → 4096 ≤ limit
      → addr < u64_mod
      → (p' : P) × (unmap_down paging (suc fuel) limit addr p ≡ ok p')
        × ((b : ℕ) → b < limit → mapped p' b ≡ mapped p b)
  unfolding unmap_down
  unmap_down_lem zero limit addr p enough low word =
      let stop : leb limit addr ≡ false = ground arith in (p, rw stop refl, λ b h. refl)
  unmap_down_lem (suc fuel) limit addr p enough low word = elim (Bool-cases (leb limit addr)) [
    | inr stop ↦ (p, rw stop refl, λ b h. refl)
    | inl more ↦
        let inside : limit ≤ addr = ground arith in
        let (p', run, kept) =
          unmap_down_lem fuel limit (sub64 addr 4096) (paging.unmap_page p addr) (omega arith) low
            (omega arith) in
        (
          p',
          rw more run,
          λ b h.
              let other : (b == addr) ≡ false = ground arith in
              kept b h ∙ tracks.unmaps p addr b ∙ rw other refl,
        )
  ]
