-- ===== src/Drivers/Slice/Load.antt =====
-- Parts of memory, taken apart and put together.
use influx.Base.{
  ℕ, zero, suc, ◌+◌, ◌≤◌, ◌≡◌, refl, sym, ap, ◌∙◌, List, [], ◌∷◌, ◌++◌, length, take, drop,
  length-append, length-take, length-drop, arith,
}
use influx.Fs.Memory.{Memory, load, store}

take_nil : {A : Type 0} (n : ℕ) → take {A = A} n [] ≡ []
take_nil zero = refl
take_nil (suc n) = refl

drop_nil : {A : Type 0} (n : ℕ) → drop {A = A} n [] ≡ []
drop_nil zero = refl
drop_nil (suc n) = refl

drop-drop : {A : Type 0} (a b : ℕ) (xs : List A) → drop b (drop a xs) ≡ drop (a + b) xs
drop-drop zero b xs = ap (λ n. drop n xs) (omega arith)
drop-drop (suc a) b [] = drop_nil b ∙ sym (drop_nil (suc a + b))
drop-drop (suc a) b (x ∷ xs) =
    drop-drop a b xs ∙ ap (λ n. drop n (x ∷ xs)) {x = suc (a + b)} (omega arith)

take-drop-take :
    {A : Type 0} (a n m : ℕ) (xs : List A)
    → a + n ≤ m
    → take n (drop a (take m xs)) ≡ take n (drop a xs)
take-drop-take a n m [] h = ap (λ ys. take n (drop a ys)) (take_nil m)
take-drop-take zero zero zero (x ∷ xs) h = refl
take-drop-take zero (suc n) zero (x ∷ xs) h = absurd (omega arith)
take-drop-take (suc a) n zero (x ∷ xs) h = absurd (omega arith)
take-drop-take zero zero (suc m) (x ∷ xs) h = refl
take-drop-take zero (suc n) (suc m) (x ∷ xs) h =
    ap (◌∷◌ x) (take-drop-take zero n m xs (omega arith))
take-drop-take (suc a) n (suc m) (x ∷ xs) h = take-drop-take a n m xs (omega arith)

take_split :
    {A : Type 0} (n m : ℕ) (xs : List A) → take (n + m) xs ≡ take n xs ++ take m (drop n xs)
take_split zero m xs = ap (λ k. take k xs) (omega arith)
take_split (suc n) m [] = take_nil (suc n + m) ∙ sym (take_nil m)
take_split (suc n) m (x ∷ xs) =
    ap (λ k. take k (x ∷ xs)) {y = suc (n + m)} (omega arith) ∙ ap (◌∷◌ x) (take_split n m xs)

take-append :
    {A : Type 0} (n : ℕ) (xs ys : List A) → take (length xs + n) (xs ++ ys) ≡ xs ++ take n ys
take-append n [] ys = ap (λ k. take k ys) (omega arith)
take-append n (x ∷ xs) ys =
    ap (λ k. take k ((x ∷ xs) ++ ys)) {y = suc (length xs + n)} (omega arith)
    ∙ ap (◌∷◌ x) (take-append n xs ys)

take_all : {A : Type 0} (xs ys : List A) → take (length xs) (xs ++ ys) ≡ xs
take_all [] ys = refl
take_all (x ∷ xs) ys = ap (◌∷◌ x) (take_all xs ys)

pub load-load : (a n b m : ℕ) (xs : Memory) → a + n ≤ m → load a n (load b m xs) ≡ load (b + a) n xs
unfolding load
load-load a n b m xs h = take-drop-take a n m (drop b xs) h ∙ ap (take n) (drop-drop b a xs)

pub length-load : (a n : ℕ) (xs : Memory) → a + n ≤ length xs → length (load a n xs) ≡ n
unfolding load
length-load a n xs h = omega (arith, length-take n (drop a xs), length-drop a xs)

pub load_split : (a n m : ℕ) (xs : Memory) → load a (n + m) xs ≡ load a n xs ++ load (a + n) m xs
unfolding load
load_split a n m xs =
    take_split n m (drop a xs) ∙ ap (λ ys. take n (drop a xs) ++ take m ys) (drop-drop a n xs)

pub length-store :
    (o : ℕ) (bytes xs : Memory)
    → o + length bytes ≤ length xs
    → length (store o bytes xs) ≡ length xs
unfolding store
length-store o bytes xs h = omega (
  arith,
  length-append (take o xs) (bytes ++ drop (o + length bytes) xs),
  length-append bytes (drop (o + length bytes) xs),
  length-take o xs,
  length-drop (o + length bytes) xs,
)

-- What stands before the bytes that are written, and these.
pub load-store :
    (o : ℕ) (bytes xs : Memory)
    → o ≤ length xs
    → load 0 (o + length bytes) (store o bytes xs) ≡ load 0 o xs ++ bytes
unfolding load store
load-store o bytes xs h =
    let head : length (take o xs) ≡ o = omega (arith, length-take o xs) in
    let rest = bytes ++ drop (o + length bytes) xs in
    ap (λ k. take (k + length bytes) (take o xs ++ rest)) (sym head)
    ∙ take-append (length bytes) (take o xs) rest
    ∙ ap (λ ys. take o xs ++ ys) (take_all bytes (drop (o + length bytes) xs))
