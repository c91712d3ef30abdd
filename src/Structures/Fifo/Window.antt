-- ===== src/Structures/Fifo/Window.antt =====
-- The slots of a ring that the indices `i`, `i + 1`, ... name modulo its size, as both loops of
-- kernel/structures/fifo.cpp visit them.
use influx.Base.{
  ℕ, zero, suc, ◌+◌, ◌%◌, ◌≤◌, ◌<◌, ◌≡◌, ◌≢◌, refl, sym, ap, ◌∙◌, List, [], ◌∷◌, ◌++◌, length, set,
  get_or, length-set, add64, u64_mod, arith,
}
use influx.Structures.Fifo.{store_from, load_from}
use native.Mathlib.Nat.{mod-lt, mod-mod, mod-add-mod, div-add-mod, zero-add, add-zero, suc-add}

pub window : ℕ → ℕ → ℕ → List ℕ → List ℕ
window m i zero buffer = []
window m i (suc n) buffer = get_or buffer (i % m) 0 ∷ window m (i + 1) n buffer

add64-lt : (i : ℕ) → i + 1 < u64_mod → add64 i 1 ≡ i + 1
add64-lt i h = omega arith

-- Below the wrap-around of `uint64_t` the loop of `pop` reads the window.
pub load_from-window :
    (m i n : ℕ) (buffer : List ℕ) → i + n < u64_mod → load_from m i n buffer ≡ window m i n buffer
unfolding load_from window
load_from-window m i zero buffer h = refl
load_from-window m i (suc n) buffer h =
    rw (add64-lt i (omega arith), load_from-window m (i + 1) n buffer (omega arith))

pub length-window : (m i n : ℕ) (buffer : List ℕ) → length (window m i n buffer) ≡ n
unfolding window
length-window m i zero buffer = refl
length-window m i (suc n) buffer = ap suc (length-window m (i + 1) n buffer)

pub window-append :
    (m i a b : ℕ) (buffer : List ℕ)
    → window m i (a + b) buffer ≡ window m i a buffer ++ window m (i + a) b buffer
unfolding window
window-append m i zero b buffer = rw (zero-add, add-zero)
window-append m i (suc a) b buffer =
    let shift : i + 1 + a ≡ i + suc a = omega arith in
    rw suc-add (
      ap (◌∷◌ (get_or buffer (i % m) 0)) (
        window-append m (i + 1) a b buffer
        ∙ ap (λ j. window m (i + 1) a buffer ++ window m j b buffer) shift))

mod_ne : (a b m : ℕ) → a < b → b < a + m → a % m ≢ b % m
mod_ne a b m h k e = absurd (grind (arith, div-add-mod))

-- The window depends on its start up to the size of the ring.
pub window-mod : (m i n : ℕ) (buffer : List ℕ) → window m (i % m) n buffer ≡ window m i n buffer
unfolding window
window-mod m i zero buffer = refl
window-mod m i (suc n) buffer = rw mod-mod (
    ap (◌∷◌ (get_or buffer (i % m) 0)) (
      sym (window-mod m (i % m + 1) n buffer)
      ∙ ap (λ j. window m j n buffer) (mod-add-mod i m 1)
      ∙ window-mod m (i + 1) n buffer))

get_or-set_ne : (xs : List ℕ) (i j v : ℕ) → i ≢ j → get_or (set xs i v) j 0 ≡ get_or xs j 0
get_or-set_ne [] i j v h = refl
get_or-set_ne (x ∷ xs) zero zero v h = absurd (h refl)
get_or-set_ne (x ∷ xs) zero (suc j) v h = refl
get_or-set_ne (x ∷ xs) (suc i) zero v h = refl
get_or-set_ne (x ∷ xs) (suc i) (suc j) v h = get_or-set_ne xs i j v (λ e. h (ap suc e))

get_or-set_self : (xs : List ℕ) (i v : ℕ) → i < length xs → get_or (set xs i v) i 0 ≡ v
get_or-set_self [] i v h = absurd (omega arith)
get_or-set_self (x ∷ xs) zero v h = refl
get_or-set_self (x ∷ xs) (suc i) v h = get_or-set_self xs i v (omega arith)

-- A write outside the window leaves it.
window-set :
    (m i n k v : ℕ) (buffer : List ℕ)
    → i + n ≤ k
    → k < i + m
    → window m i n (set buffer (k % m) v) ≡ window m i n buffer
unfolding window
window-set m i zero k v buffer h q = refl
window-set m i (suc n) k v buffer h q =
    rw (get_or-set_ne buffer (k % m) (i % m) v (λ e. mod_ne i k m (omega arith) q (sym e))) (
      ap (◌∷◌ (get_or buffer (i % m) 0))
        (window-set m (i + 1) n k v buffer (omega arith) (omega arith)))

-- The loop of `push` leaves the bytes before the window that it writes, as far as they are live.
pub window-store_from :
    (m i n k : ℕ) (bytes buffer : List ℕ)
    → i + n ≤ k
    → k + length bytes ≤ i + m
    → k + length bytes < u64_mod
    → window m i n (store_from m k bytes buffer) ≡ window m i n buffer
unfolding store_from
window-store_from m i n k [] buffer h q w = refl
window-store_from m i n k (b ∷ bytes) buffer h q w = rw (add64-lt k (omega arith)) (
    window-store_from m i n (k + 1) bytes (set buffer (k % m) b) (omega arith) (omega arith)
      (omega arith)
    ∙ window-set m i n k b buffer h (omega arith))

pub length-store_from :
    (m k : ℕ) (bytes buffer : List ℕ) → length (store_from m k bytes buffer) ≡ length buffer
unfolding store_from
length-store_from m k [] buffer = refl
length-store_from m k (b ∷ bytes) buffer =
    length-store_from m (add64 k 1) bytes (set buffer (k % m) b) ∙ length-set buffer (k % m) b

-- The window that it writes holds the bytes.
pub window-store_from_self :
    (m k : ℕ) (bytes buffer : List ℕ)
    → length buffer ≡ m
    → length bytes ≤ m
    → k + length bytes < u64_mod
    → window m k (length bytes) (store_from m k bytes buffer) ≡ bytes
unfolding store_from window
window-store_from_self m k [] buffer e q w = refl
window-store_from_self m k (b ∷ bytes) buffer e q w =
    let rest = set buffer (k % m) b in
    let m_pos : 0 < m = omega arith in
    let in_range : k % m < length buffer = omega (arith, mod-lt k m_pos) in
    let kept =
      window-store_from m k 1 (k + 1) bytes rest (omega arith) (omega arith) (omega arith) in
    rw (add64-lt k (omega arith)) (
      cc (
        kept,
        get_or-set_self buffer (k % m) b in_range,
        window-store_from_self m (k + 1) bytes rest (length-set buffer (k % m) b ∙ e) (omega arith)
            (omega arith),
      ))
