-- ===== src/Structures/Fifo/Contents.antt =====
-- The bytes that the ring of kernel/structures/fifo.cpp holds.
use influx.Base.{
  ℕ, ◌+◌, ◌-◌, ◌*◌, ◌%◌, ◌≤◌, ◌<◌, ◌≡◌, sym, ap, ◌∙◌, List, length, ltb, u64_mod, arith, Bool-cases,
  inl, inr, ltb→lt, ◌/◌, ◌⊎◌,
}
use native.Mathlib.Decide.{dec_lt}
use native.Mathlib.Nat.{mod-lt, mod-le, div-add-mod}
use influx.Structures.Fifo.{Fifo, current_size, normalise, load_from}
use influx.Structures.Fifo.Window.{window, load_from-window, length-window, window-mod}

-- The indices never pass the size of the ring apart, and the memory has that size.
pub record IsValid (f : Fifo) : Type 0 where
  pub roomy : 0 < f.max_size
  pub sized : length f.buffer ≡ f.max_size
  pub ordered : f.head ≤ f.tail
  pub fits : f.tail ≤ f.head + f.max_size
  pub word : f.tail < u64_mod

-- The bytes held, oldest first.
pub contents : Fifo → List ℕ
unfolding load_from current_size
contents f = load_from f.max_size f.head (current_size f) f.buffer

pub current_size-sub : (f : Fifo) → IsValid f → current_size f ≡ f.tail - f.head
unfolding current_size
current_size-sub f v = omega (arith, v.ordered, v.word)

pub contents-window :
    (f : Fifo) → IsValid f → contents f ≡ window f.max_size f.head (f.tail - f.head) f.buffer
unfolding contents
contents-window f v = rw (current_size-sub f v) (
    load_from-window f.max_size f.head (f.tail - f.head) f.buffer
      (omega (arith, v.ordered, v.word)))

pub length-contents : (f : Fifo) → IsValid f → length (contents f) ≡ f.tail - f.head
length-contents f v =
    ap length (contents-window f v) ∙ length-window f.max_size f.head (f.tail - f.head) f.buffer

mul_cases : (m x y : ℕ) → (m * x + m ≤ m * y) ⊎ (m * y + m ≤ m * x) ⊎ (m * x ≡ m * y)
mul_cases m x y = elim (dec_lt x y) [
  | yes p ↦ inl (grind arith)
  | no p ↦ elim (dec_lt y x) [
    | yes q ↦ inr (inl (grind arith))
    | no q ↦ inr (inr (ap (λ z. m * z) (omega arith)))
  ]
]

-- The indices after the reduction are as far apart as before.
mod_gap : (h t m : ℕ) → 0 < m → h ≤ t → t ≤ h + m → h % m < t % m → t % m - h % m ≡ t - h
mod_gap h t m p a b q =
    let dh = div-add-mod h m in
    let dt = div-add-mod t m in
    let lh = mod-lt h p in let lt = mod-lt t p in omega (arith, mul_cases m (h / m) (t / m))

pub normalise-IsValid : (f : Fifo) → IsValid f → IsValid (normalise f)
unfolding normalise
normalise-IsValid f v = ground (
  arith,
  mod_gap f.head f.tail f.max_size,
  mod-lt f.tail v.roomy,
  mod-lt f.head v.roomy,
  mod-le f.tail f.max_size,
)

pub contents-normalise : (f : Fifo) → IsValid f → contents (normalise f) ≡ contents f
unfolding normalise
contents-normalise f v = elim (Bool-cases (ltb (f.head % f.max_size) (f.tail % f.max_size))) [
  | inr stay ↦ rw stay
  | inl cut ↦
      let m = f.max_size in
      let g : Fifo = record f { tail = f.tail % m; head = f.head % m } in
      let lower = ltb→lt (f.head % m) (f.tail % m) cut in
      let gap = mod_gap f.head f.tail m v.roomy v.ordered v.fits lower in
      rw cut (
        contents-window g (record {
          roomy = v.roomy;
          sized = v.sized;
          ordered = omega arith;
          fits = omega (arith, mod-lt f.tail v.roomy);
          word = omega (arith, mod-le f.tail m, v.word);
        })
        ∙ ap (λ n. window m (f.head % m) n f.buffer) gap
        ∙ window-mod m f.head (f.tail - f.head) f.buffer
        ∙ sym (contents-window f v))
]
