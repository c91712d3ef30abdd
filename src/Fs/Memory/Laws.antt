-- ===== src/Fs/Memory/Laws.antt =====
-- Reads behind writes of bytes in memory.
use influx.Base.{
  ℕ, zero, suc, ◌+◌, ◌/◌, ◌%◌, ◌^◌, ◌≤◌, ◌≡◌, refl, sym, ap, ◌∙◌, List, [], ◌∷◌, ◌++◌, length, take,
  drop, length-append, length-take, length-drop, arith,
}
use influx.Fs.Memory.{Memory, number, bytes_of, load, store, Field, get, put}

take-take-append :
    {A : Type 0} (w o : ℕ) (m rest : List A)
    → w ≤ o
    → o ≤ length m
    → take w (take o m ++ rest) ≡ take w m
take-take-append zero o m rest p q = refl
take-take-append (suc w) zero m rest p q = absurd (omega arith)
take-take-append (suc w) (suc o) [] rest p q = absurd (omega arith)
take-take-append (suc w) (suc o) (x ∷ m) rest p q =
    ap (◌∷◌ x) (take-take-append w o m rest (omega arith) (omega arith))

window_before :
    {A : Type 0} (o' w o : ℕ) (m rest : List A)
    → o' + w ≤ o
    → o ≤ length m
    → take w (drop o' (take o m ++ rest)) ≡ take w (drop o' m)
window_before zero w o m rest p q = take-take-append w o m rest (omega arith) q
window_before (suc o') w zero m rest p q = absurd (omega arith)
window_before (suc o') w (suc o) [] rest p q = absurd (omega arith)
window_before (suc o') w (suc o) (x ∷ m) rest p q =
    window_before o' w o m rest (omega arith) (omega arith)

take-append_self : {A : Type 0} (xs ys : List A) → take (length xs) (xs ++ ys) ≡ xs
take-append_self [] ys = refl
take-append_self (x ∷ xs) ys = ap (◌∷◌ x) (take-append_self xs ys)

window_self :
    {A : Type 0} (o : ℕ) (m bytes rest : List A)
    → o ≤ length m
    → take (length bytes) (drop o (take o m ++ (bytes ++ rest))) ≡ bytes
window_self zero m bytes rest q = take-append_self bytes rest
window_self (suc o) [] bytes rest q = absurd (omega arith)
window_self (suc o) (x ∷ m) bytes rest q = window_self o m bytes rest (omega arith)

length-bytes_of : (width n : ℕ) → length (bytes_of width n) ≡ width
unfolding bytes_of
length-bytes_of zero n = refl
length-bytes_of (suc width) n = ap suc (length-bytes_of width (n / 256))

number-bytes_of_4 : (n : ℕ) → number (bytes_of 4 n) ≡ n % 2 ^ 32
unfolding number bytes_of
number-bytes_of_4 n = omega arith

pub length-put :
    (f : Field) (v : ℕ) (m : Memory) → f.offset + f.width ≤ length m → length (put f v m) ≡ length m
unfolding put store
length-put f v m fit =
    let n = length-bytes_of f.width v in
    omega (
      arith,
      length-append (take f.offset m)
          (bytes_of f.width v ++ drop (f.offset + length (bytes_of f.width v)) m),
      length-append (bytes_of f.width v) (drop (f.offset + length (bytes_of f.width v)) m),
      length-take f.offset m,
      length-drop (f.offset + length (bytes_of f.width v)) m,
    )

-- A member before the one that is written.
pub get-put_before :
    (f g : Field) (v : ℕ) (m : Memory)
    → g.offset + g.width ≤ f.offset
    → f.offset ≤ length m
    → get g (put f v m) ≡ get g m
unfolding get put load store
get-put_before f g v m apart fit = ap number (window_before g.offset g.width f.offset m _ apart fit)

-- The member that is written, of four bytes.
pub get-put_self :
    (f : Field) (v : ℕ) (m : Memory)
    → f.width ≡ 4
    → f.offset ≤ length m
    → get f (put f v m) ≡ v % 2 ^ 32
unfolding get put load store
get-put_self f v m four fit =
    let bytes = bytes_of f.width v in
    let there = window_self f.offset m bytes (drop (f.offset + length bytes) m) fit in
    ap (λ w. number (take w (drop f.offset (store f.offset bytes m))))
      (sym (length-bytes_of f.width v))
    ∙ ap number there
    ∙ ap (λ w. number (bytes_of w v)) four
    ∙ number-bytes_of_4 v
