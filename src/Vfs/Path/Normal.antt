-- ===== src/Vfs/Path/Normal.antt =====
-- The branches that `build_path` of kernel/vfs/path.cpp can produce.
use influx.Base.{
  ℕ, suc, ◌≡◌, ◌≢◌, refl, Bool, true, false, ◌||◌, List, [], ◌∷◌, ◌++◌, length, ltb, ◌==◌,
  if◌then◌else◌, arith, Bool-cases, inl, inr, ◌⊎◌, ◌↔◌, ==_iff,
}
use influx.Vfs.Path.{Text, divider, dot, dot_dot, text_eq, push_branch, build_loop, build_path}
use mathlib.Core.List.{reverse, reverse-cons}

text_eq_refl : (s : Text) → text_eq s s ≡ true
unfolding text_eq
text_eq_refl [] = refl
text_eq_refl (a ∷ s) = ground (arith, text_eq_refl s)

text_eq_sound : (s t : Text) → text_eq s t ≡ true → s ≡ t
unfolding text_eq
text_eq_sound [] [] h = refl
text_eq_sound [] (b ∷ t) h = cc
text_eq_sound (a ∷ s) [] h = cc
text_eq_sound (a ∷ s) (b ∷ t) h = ground (arith, text_eq_sound s t)

pub text_eq_iff : (s t : Text) → (text_eq s t ≡ true) ↔ (s ≡ t)
text_eq_iff s t = (text_eq_sound s t, λ e. rw e (text_eq_refl t))

pub text_eq_ne : (s t : Text) → s ≢ t → text_eq s t ≡ false
text_eq_ne s t h = elim (Bool-cases (text_eq s t)) [
  | inl same ↦ absurd (h (text_eq_sound s t same))
  | inr other ↦ other
]

-- No byte is the divider.
abbrev pub Whole : Text → Type 0
Whole [] = Unit {0}
Whole (c ∷ text) = (c ≢ divider) × Whole text

-- A branch behind the first.
pub record IsName (branch : Text) : Type 0 where
  pub whole : Whole branch
  pub filled : branch ≢ []
  pub no_dot : branch ≢ dot
  pub no_dot_dot : branch ≢ dot_dot

abbrev pub AllNames : List Text → Type 0
AllNames [] = Unit {0}
AllNames (b ∷ branches) = IsName b × AllNames branches

-- The first branch may be any, as the empty one of an absolute path; the others are names.
abbrev pub IsNormal : List Text → Type 0
IsNormal [] = Unit {0}
IsNormal (b ∷ branches) = Whole b × AllNames branches

-- The same of the vector with its end first.
abbrev pub RevNormal : List Text → Type 0
RevNormal [] = Unit {0}
RevNormal (b ∷ []) = Whole b
RevNormal (b ∷ c ∷ branches) = IsName b × RevNormal (c ∷ branches)

AllNames-snoc :
    (branches : List Text) (b : Text) → AllNames branches → IsName b → AllNames (branches ++ b ∷ [])
AllNames-snoc [] b h n = (n, tt)
AllNames-snoc (c ∷ branches) b h n = (h.0, AllNames-snoc branches b h.1 n)

IsNormal-snoc :
    (branches : List Text) (b : Text)
    → branches ≢ []
    → IsNormal branches
    → IsName b
    → IsNormal (branches ++ b ∷ [])
IsNormal-snoc [] b e h n = absurd (e refl)
IsNormal-snoc (c ∷ branches) b e h n = (h.0, AllNames-snoc branches b h.1 n)

module _ {ℓ} {A : Type ℓ} where
  pub cons_ne_nil : (x : A) (xs : List A) → x ∷ xs ≢ []
  cons_ne_nil x xs e = cc

  snoc_ne_nil : (xs : List A) (x : A) → xs ++ x ∷ [] ≢ []
  snoc_ne_nil [] x e = cc
  snoc_ne_nil (y ∷ xs) x e = cc

  pub reverse-cons_ne_nil : (x : A) (xs : List A) → reverse (x ∷ xs) ≢ []
  reverse-cons_ne_nil x xs = rw (reverse-cons x xs) (snoc_ne_nil (reverse xs) x)

pub RevNormal-reverse : (branches : List Text) → RevNormal branches → IsNormal (reverse branches)
RevNormal-reverse [] h = tt
RevNormal-reverse (b ∷ []) h = (h, tt)
RevNormal-reverse (b ∷ c ∷ branches) h = rw (reverse-cons b (c ∷ branches)) (
    IsNormal-snoc (reverse (c ∷ branches)) b (reverse-cons_ne_nil c branches)
      (RevNormal-reverse (c ∷ branches) h.1) h.0)

Whole-snoc : (text : Text) (c : ℕ) → Whole text → c ≢ divider → Whole (text ++ c ∷ [])
Whole-snoc [] c h n = (n, tt)
Whole-snoc (d ∷ text) c h n = (h.0, Whole-snoc text c h.1 n)

Whole-reverse : (text : Text) → Whole text → Whole (reverse text)
Whole-reverse [] h = tt
Whole-reverse (c ∷ text) h =
    rw (reverse-cons c text) (Whole-snoc (reverse text) c (Whole-reverse text h.1) h.0)

RevNormal-tail : (b : Text) (branches : List Text) → RevNormal (b ∷ branches) → RevNormal branches
RevNormal-tail b [] h = tt
RevNormal-tail b (c ∷ branches) h = h.1

push_branch-RevNormal :
    (branch : Text) (branches : List Text)
    → Whole branch
    → (branches ≡ []) ⊎ (branch ≢ [])
    → RevNormal branches
    → RevNormal (push_branch branch branches)
unfolding push_branch
push_branch-RevNormal branch [] w filled h = w
push_branch-RevNormal branch (last ∷ rest) w filled h = elim (Bool-cases (text_eq branch dot_dot)) [
  | inl up ↦ rw up (RevNormal-tail last rest h)
  | inr other ↦ elim (Bool-cases (text_eq branch dot)) [
    | inl here ↦ rw (other, here) h
    | inr name ↦
        rw (other, name)
          (
            record {
              whole = w;
              filled = elim filled [
                | inl none_left ↦ absurd (cons_ne_nil last rest none_left)
                | inr f ↦ f
              ];
              no_dot = λ e. cc ((text_eq_iff branch dot).1 e);
              no_dot_dot = λ e. cc ((text_eq_iff branch dot_dot).1 e);
            },
            h,
          )
  ]
]

divide-RevNormal :
    (first : Bool) (branch : Text) (branches : List Text)
    → Whole branch
    → (first ≡ false) ⊎ (branches ≡ [])
    → RevNormal branches
    → RevNormal
        (if first || ltb 0 (length branch) then push_branch (reverse branch) branches else branches)
divide-RevNormal true branch branches w start h = elim start [
  | inl e ↦ cc
  | inr e ↦ push_branch-RevNormal (reverse branch) branches (Whole-reverse branch w) (inl e) h
]
divide-RevNormal false [] branches w start h = h
divide-RevNormal false (d ∷ branch) branches w start h =
    let long : ltb 0 (suc (length branch)) ≡ true = ground arith in
    rw long (
      push_branch-RevNormal (reverse (d ∷ branch)) branches (Whole-reverse (d ∷ branch) w)
        (inr (reverse-cons_ne_nil d branch)) h)

build_loop-RevNormal :
    (first : Bool) (branch : Text) (branches : List Text) (text : Text)
    → Whole branch
    → (first ≡ false) ⊎ (branches ≡ [])
    → RevNormal branches
    → RevNormal (build_loop first branch branches text)
unfolding build_loop
build_loop-RevNormal first [] branches [] w start h = h
build_loop-RevNormal first (d ∷ branch) branches [] w start h =
    let long : (suc (length branch) == 0) ≡ false = ground arith in
    rw long (
      push_branch-RevNormal (reverse (d ∷ branch)) branches (Whole-reverse (d ∷ branch) w)
        (inr (reverse-cons_ne_nil d branch)) h)
build_loop-RevNormal first branch branches (c ∷ text) w start h = elim (Bool-cases (c == divider)) [
  | inl cut ↦ rw cut (
      build_loop-RevNormal false [] _ text tt (inl refl)
        (divide-RevNormal first branch branches w start h))
  | inr more ↦ rw more (
      build_loop-RevNormal first (c ∷ branch) branches text ((λ e. cc ((==_iff c divider).1 e)), w)
        start h)
]

-- Whatever the text, no branch built from it has a divider in it, and every branch behind the first is
-- neither empty nor "." nor "..".
pub build_path-IsNormal : (text : Text) → IsNormal (build_path text)
unfolding build_path
build_path-IsNormal text =
    RevNormal-reverse (build_loop true [] [] text)
      (build_loop-RevNormal true [] [] text tt (inr refl) tt)
