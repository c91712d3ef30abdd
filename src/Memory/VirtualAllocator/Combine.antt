-- ===== src/Memory/VirtualAllocator/Combine.antt =====
-- `check_for_vma_node_combination` of kernel/memory/virtual_allocator.cpp and what the list says of each
-- address.
use influx.Base.{
  ℕ, ◌+◌, ◌≤◌, ◌<◌, ◌≡◌, refl, sym, ap, true, false, List, [], ◌∷◌, ◌++◌, none, some, if◌then◌else◌,
  add64, u64_mod, arith, Bool-cases, inl, inr, ◌⊎◌,
}
use mathlib.Core.List.{append_assoc}
use influx.Memory.VirtualAllocator.{
  Region, Place, split_last, same_kind, combine_prev, combine_next, check_for_vma_node_combination,
  whole, forward,
}
use influx.Memory.VirtualAllocator.Regions.{
  Tiles, covers, kind, Keeps, Keeps-append, Keeps-refl, Keeps-trans,
}

same_kind-kind : (r s : Region) → same_kind r s ≡ true → kind r ≡ kind s
unfolding same_kind
same_kind-kind r s h = elim (Bool-cases r.allocated) [
  | inl p ↦ elim (Bool-cases s.allocated) [ inl q ↦ ground arith | inr q ↦ ground arith ]
  | inr p ↦ elim (Bool-cases s.allocated) [ inl q ↦ ground arith | inr q ↦ ground arith ]
]

pub Tiles-le : (start : ℕ) (xs : List Region) (end : ℕ) → Tiles start xs end → start ≤ end
Tiles-le start [] end t = omega (arith, t)
Tiles-le start (r ∷ rest) end t = omega (arith, Tiles-le (start + r.size) rest end t.2)

-- Two neighbours of a kind become one.
merge-Keeps :
    {end : ℕ} (p q : Region) (rest : List Region)
    → end < u64_mod
    → kind p ≡ kind q
    → Keeps end (p ∷ q ∷ rest) (record p { size = add64 p.size q.size } ∷ rest)
merge-Keeps {end} p q rest word e = record {
  tiles = λ start t.
      let low = Tiles-le (start + p.size + q.size) rest end t.2.2 in
      let plain : add64 p.size q.size ≡ p.size + q.size = omega (arith, t.1) in
      let sum : start + add64 p.size q.size ≡ start + p.size + q.size = omega arith in
      (t.0, omega (arith, t.1), rw sum t.2.2);
  looks = λ start t a.
      let low = Tiles-le (start + p.size + q.size) rest end t.2.2 in
      let plain : add64 p.size q.size ≡ p.size + q.size = omega (arith, t.1) in
      let at_p = t.0 in
      let at_q = t.2.0 in
      rw plain (elim (Bool-cases (covers a p)) [
        | inl in_p ↦
            let in_both : covers a (record p { size = p.size + q.size }) ≡ true = ground arith in
            rw (in_p, in_both) refl
        | inr out_p ↦ elim (Bool-cases (covers a q)) [
          | inl in_q ↦
              let in_both : covers a (record p { size = p.size + q.size }) ≡ true = ground arith in
              rw (out_p, in_q, in_both) (ap some e)
          | inr out_q ↦
              let out_both : covers a (record p { size = p.size + q.size }) ≡ false =
                ground arith in
              rw (out_p, out_q, out_both) refl
        ]
      ]);
}

-- A list has no last region, or one behind the others.
split_last_cases :
    (xs : List Region)
    → ((xs ≡ []) × (split_last xs ≡ none))
      ⊎ ((before : List Region) × (last : Region) × (xs ≡ before ++ last ∷ [])
          × (split_last xs ≡ some (before, last)))
unfolding split_last
split_last_cases [] = inl (refl, refl)
split_last_cases (r ∷ rest) = elim (split_last_cases rest) [
  | inl (e, h) ↦ inr ([], r, ap (λ t. r ∷ t) e, rw h refl)
  | inr (before, last, e, h) ↦ inr (r ∷ before, last, ap (λ t. r ∷ t) e, rw h refl)
]

combine_prev-stays : (p : Place) → split_last p.before ≡ none → combine_prev p ≡ p
unfolding combine_prev
combine_prev-stays p h = rw (combine_prev, h)

combine_prev-merges :
    (p : Place) (front : List Region) (last : Region)
    → split_last p.before ≡ some (front, last)
    → combine_prev p ≡ (
        if same_kind last p.node
        then record p { before = front; node = record last { size = add64 last.size p.node.size } }
        else p)
unfolding combine_prev
combine_prev-merges p front last h = rw (combine_prev, h)

combine_prev-Keeps :
    {end : ℕ} (before : List Region) (node : Region) (behind : List Region)
    → end < u64_mod
    → Keeps end
        (before ++ node ∷ behind)
        (whole (combine_prev (record { before = before; node = node; behind = behind })))
combine_prev-Keeps {end} before node behind word =
    let p : Place = record { before = before; node = node; behind = behind } in
    elim (split_last_cases before) [
      | inl (e, h) ↦
          rw (combine_prev-stays p h) (unfold whole in Keeps-refl (before ++ node ∷ behind))
      | inr (front, last, e, h) ↦ elim (Bool-cases (same_kind last node)) [
        | inl same ↦
            rw (combine_prev-merges p front last h, same, e, append_assoc)
              (unfold whole in
                Keeps-append front
                  (merge-Keeps last node behind word (same_kind-kind last node same)))
        | inr other ↦
            rw (combine_prev-merges p front last h, other)
              (unfold whole in Keeps-refl (before ++ node ∷ behind))
      ]
    ]

combine_next-Keeps :
    {end : ℕ} (before : List Region) (node : Region) (behind : List Region)
    → end < u64_mod
    → Keeps end
        (before ++ node ∷ behind)
        (whole (combine_next (record { before = before; node = node; behind = behind })))
unfolding combine_next whole
combine_next-Keeps before node [] word = Keeps-refl (before ++ node ∷ [])
combine_next-Keeps before node (next ∷ behind) word = elim (Bool-cases (same_kind next node)) [
  | inl same ↦ rw same (
      Keeps-append before (merge-Keeps node next behind word (sym (same_kind-kind next node same))))
  | inr other ↦ rw other (Keeps-refl (before ++ node ∷ next ∷ behind))
]

pub check-Keeps :
    {end : ℕ} (before : List Region) (node : Region) (behind : List Region)
    → end < u64_mod
    → Keeps end (before ++ node ∷ behind) (
        whole (
          check_for_vma_node_combination
            (record { before = before; node = node; behind = behind })))
unfolding check_for_vma_node_combination
check-Keeps before node behind word =
    let p : Place = combine_prev (record { before = before; node = node; behind = behind }) in
    Keeps-trans (combine_prev-Keeps before node behind word)
      (unfold whole in combine_next-Keeps p.before p.node p.behind word)

-- A step to the next node changes nothing.
pub whole-forward :
    (before : List Region) (node : Region) (behind : List Region)
    → whole (forward (record { before = before; node = node; behind = behind }))
      ≡ before ++ node ∷ behind
unfolding whole forward
whole-forward before node [] = refl
whole-forward before node (next ∷ behind) = append_assoc before (node ∷ []) (next ∷ behind)

-- A check of a node and one of the node behind it.
pub check-forward-Keeps :
    {end : ℕ} (before : List Region) (node : Region) (behind : List Region)
    → end < u64_mod
    → Keeps end (before ++ node ∷ behind) (
        whole (
          check_for_vma_node_combination (
            forward (
              check_for_vma_node_combination
                (record { before = before; node = node; behind = behind })))))
check-forward-Keeps {end} before node behind word =
    let p : Place =
      check_for_vma_node_combination (record { before = before; node = node; behind = behind }) in
    let q : Place = forward p in
    let first = check-Keeps before node behind word in
    let step : Keeps end (whole p) (whole q) =
      rw (whole-forward p.before p.node p.behind) (unfold whole in Keeps-refl (whole p)) in
    Keeps-trans first (Keeps-trans step (unfold whole in check-Keeps q.before q.node q.behind word))
