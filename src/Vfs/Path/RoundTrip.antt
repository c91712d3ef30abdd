-- ===== src/Vfs/Path/RoundTrip.antt =====
-- `string()` and `build_path` of kernel/vfs/path.cpp, one after the other.
use influx.Base.{
  ℕ, ◌<◌, ◌≡◌, ◌≢◌, refl, sym, ap, ◌∙◌, Bool, true, false, ◌||◌, List, [], ◌∷◌, ◌++◌, length, ltb,
  ◌==◌, arith, inl, inr, ◌⊎◌, length-append,
}
use influx.Vfs.Path.{
  Text, FilePath, divider, dot, dot_dot, text_eq, push_branch, build_loop, build_path, join,
  drop_last, to_text, from_text,
}
use influx.Vfs.Path.Normal.{
  Whole, IsName, AllNames, IsNormal, text_eq_ne, cons_ne_nil, build_path-IsNormal,
}
use mathlib.Core.List.{
  reverse, reverse-cons, reverse-append, reverse-reverse, append-nil, append_assoc,
}

-- The branches with a divider between each two.
separated : Text → List Text → Text
separated b [] = b
separated b (c ∷ branches) = b ++ (divider ∷ separated c branches)

drop_last-cons : (c : ℕ) (text : Text) → text ≢ [] → drop_last (c ∷ text) ≡ c ∷ drop_last text
unfolding drop_last
drop_last-cons c [] h = absurd (h refl)
drop_last-cons c (d ∷ text) h = refl

append_ne_nil : (s t : Text) → t ≢ [] → s ++ t ≢ []
append_ne_nil [] t h = h
append_ne_nil (c ∷ s) t h = cons_ne_nil c (s ++ t)

drop_last-append : (s t : Text) → t ≢ [] → drop_last (s ++ t) ≡ s ++ drop_last t
drop_last-append [] t h = refl
drop_last-append (c ∷ s) t h =
    drop_last-cons c (s ++ t) (append_ne_nil s t h) ∙ ap (◌∷◌ c) (drop_last-append s t h)

drop_last-join :
    (b : Text) (branches : List Text) → drop_last (join (b ∷ branches)) ≡ separated b branches
unfolding join separated
drop_last-join b [] =
    drop_last-append b (divider ∷ []) (cons_ne_nil divider []) ∙ (unfold drop_last in append-nil b)
drop_last-join b (c ∷ branches) =
    let behind = divider ∷ join (c ∷ branches) in
    drop_last-append b behind (cons_ne_nil divider (join (c ∷ branches)))
    ∙ ap (◌++◌ b) (
        drop_last-cons divider (join (c ∷ branches))
          (append_ne_nil c (divider ∷ join branches) (cons_ne_nil divider (join branches)))
        ∙ ap (◌∷◌ divider) (drop_last-join c branches))

-- The loop takes in the bytes of a branch.
build_loop-Whole :
    (first : Bool) (branch : Text) (branches : List Text) (w text : Text)
    → Whole w
    → build_loop first branch branches (w ++ text)
      ≡ build_loop first (reverse w ++ branch) branches text
unfolding build_loop
build_loop-Whole first branch branches [] text h = refl
build_loop-Whole first branch branches (c ∷ w) text h =
    let inside : (c == divider) ≡ false = ground (arith, h.0) in
    rw inside (
      build_loop-Whole first (c ∷ branch) branches w text h.1
      ∙ ap (λ r. build_loop first r branches text)
          (sym
            (ap (λ r. r ++ branch) (reverse-cons c w) ∙ append_assoc (reverse w) (c ∷ []) branch)))

push_branch-name :
    (branch last : Text) (rest : List Text)
    → IsName branch
    → push_branch branch (last ∷ rest) ≡ branch ∷ last ∷ rest
unfolding push_branch
push_branch-name branch last rest n =
    let up : text_eq branch dot_dot ≡ false = text_eq_ne branch dot_dot n.no_dot_dot in
    let here : text_eq branch dot ≡ false = text_eq_ne branch dot n.no_dot in rw (up, here)

length-reverse_pos : (b : Text) → b ≢ [] → 0 < length (reverse b)
length-reverse_pos [] h = absurd (h refl)
length-reverse_pos (c ∷ b) h =
    omega (arith, ap length (reverse-cons c b), length-append (reverse b) (c ∷ []))

-- A branch in hand is pushed at a divider and at the end of the text.
build_loop-end :
    (first : Bool) (b : Text) (branches : List Text)
    → b ≢ []
    → build_loop first (reverse b ++ []) branches [] ≡ push_branch b branches
unfolding build_loop
build_loop-end first b branches h =
    let long : (length (reverse b) == 0) ≡ false = ground (arith, length-reverse_pos b h) in
    rw append-nil (rw (long, reverse-reverse))

build_loop-divider :
    (first : Bool) (b : Text) (branches : List Text) (text : Text)
    → (first ≡ true) ⊎ (b ≢ [])
    → build_loop first (reverse b ++ []) branches (divider ∷ text)
      ≡ build_loop false [] (push_branch b branches) text
unfolding build_loop
build_loop-divider first b branches text h =
    rw append-nil (rw (pushes first b h) (rw reverse-reverse))
  where
    pushes :
        (first : Bool) (b : Text)
        → (first ≡ true) ⊎ (b ≢ [])
        → (first || ltb 0 (length (reverse b))) ≡ true
    pushes true b h = refl
    pushes false b (inl e) = cc
    pushes false b (inr e) = ground (arith, length-reverse_pos b e)

-- The branches behind the first are read back.
build_loop-names :
    (b : Text) (names : List Text) (last : Text) (rest : List Text)
    → IsName b
    → AllNames names
    → build_loop false [] (last ∷ rest) (separated b names) ≡ reverse names ++ b ∷ last ∷ rest
unfolding separated
build_loop-names b [] last rest n ns =
    ap (build_loop false [] (last ∷ rest)) (sym (append-nil b))
    ∙ build_loop-Whole false [] (last ∷ rest) b [] n.whole
    ∙ build_loop-end false b (last ∷ rest) n.filled
    ∙ push_branch-name b last rest n
build_loop-names b (c ∷ names) last rest n ns =
    build_loop-Whole false [] (last ∷ rest) b (divider ∷ separated c names) n.whole
    ∙ build_loop-divider false b (last ∷ rest) (separated c names) (inr n.filled)
    ∙ ap (λ r. build_loop false [] r (separated c names)) (push_branch-name b last rest n)
    ∙ build_loop-names c names b (last ∷ rest) ns.0 ns.1
    ∙ sym (
        ap (λ r. r ++ b ∷ last ∷ rest) (reverse-cons c names)
        ∙ append_assoc (reverse names) (c ∷ []) (b ∷ last ∷ rest))

length-join_pos : (b : Text) (branches : List Text) → 0 < length (join (b ∷ branches))
unfolding join
length-join_pos b branches = omega (arith, length-append b (divider ∷ join branches))

to_text-separated :
    (b c : Text) (names : List Text)
    → to_text (record { branches = b ∷ c ∷ names }) ≡ separated b (c ∷ names)
unfolding to_text
to_text-separated b c names =
    let long : ltb 1 (length (join (b ∷ c ∷ names))) ≡ true =
      unfold join in
      ground (
        arith,
        length-append b (divider ∷ join (c ∷ names)),
        length-append c (divider ∷ join names),
      ) in
    rw long (drop_last-join b (c ∷ names))

to_text-single : (d : ℕ) (b : Text) → to_text (record { branches = (d ∷ b) ∷ [] }) ≡ d ∷ b
unfolding to_text separated
to_text-single d b =
    let long : ltb 1 (length (join ((d ∷ b) ∷ []))) ≡ true =
      unfold join in ground (arith, length-append b (divider ∷ [])) in
    rw long (drop_last-join (d ∷ b) [])

build_path-single : (d : ℕ) (b : Text) → Whole (d ∷ b) → build_path (d ∷ b) ≡ (d ∷ b) ∷ []
unfolding build_path push_branch
build_path-single d b h = ap reverse (
    ap (build_loop true [] []) (sym (append-nil (d ∷ b)))
    ∙ build_loop-Whole true [] [] (d ∷ b) [] h
    ∙ build_loop-end true (d ∷ b) [] (cons_ne_nil d b))

build_path-separated :
    (b c : Text) (names : List Text)
    → IsNormal (b ∷ c ∷ names)
    → build_path (separated b (c ∷ names)) ≡ b ∷ c ∷ names
unfolding build_path push_branch separated
build_path-separated b c names h =
    ap reverse (
      build_loop-Whole true [] [] b (divider ∷ separated c names) h.0
      ∙ build_loop-divider true b [] (separated c names) (inl refl)
      ∙ build_loop-names c names b [] h.1.0 h.1.1)
    ∙ reverse-append (reverse names) (c ∷ b ∷ [])
    ∙ ap (λ r. b ∷ c ∷ r) (reverse-reverse names)

build_path-branches :
    (branches : List Text)
    → IsNormal branches
    → build_path (to_text (record { branches = branches })) ≡ branches
build_path-branches [] h = unfold build_path to_text in refl
build_path-branches ([] ∷ []) h = unfold build_path to_text in refl
build_path-branches ((d ∷ b) ∷ []) h =
    ap build_path (to_text-single d b) ∙ build_path-single d b h.0
build_path-branches (b ∷ c ∷ names) h =
    ap build_path (to_text-separated b c names) ∙ build_path-separated b c names h

-- What `string()` writes of normal branches, `build_path` reads back as the same branches.
pub build_path-to_text : (p : FilePath) → IsNormal p.branches → build_path (to_text p) ≡ p.branches
build_path-to_text p h = build_path-branches p.branches h

-- The string of a path that was built from a string builds the same path.
pub from_text-to_text : (text : Text) → from_text (to_text (from_text text)) ≡ from_text text
unfolding from_text
from_text-to_text text =
    ap (λ (branches : List Text). record { branches = branches })
      (build_path-to_text (record { branches = build_path text }) (build_path-IsNormal text))
