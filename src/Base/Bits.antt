-- ===== src/Base/Bits.antt =====
-- The binary digits of a machine word: what `&`, `|`, `~` and `<<` do to each of them.
use Prim.Native.Nat.{
  ℕ, zero, suc, ◌+◌, ◌-◌, ◌*◌, ◌/◌, ◌%◌, ◌^◌, ◌≤◌, ◌<◌, min, max, digits, bit_and, bit_or,
  bit_and-bitwise, bit_or-bitwise,
}
use mathlib.Core.Path.{◌≡◌, refl, ap, ◌∙◌}
use mathlib.Core.Logic.{◌≢◌}
use native.Mathlib.Nat.{pow-suc, le_refl, mul-div_cancel}
use native.Mathlib.Omega.{arith}

-- Digit `t` of a number, the lowest being digit 0.
unfoldable pub digit : ℕ → ℕ → ℕ
digit n zero = n % 2
digit n (suc t) = digit (n / 2) t

pub digit-lt : (n t : ℕ) → digit n t < 2
unfolding digit
digit-lt n zero = omega arith
digit-lt n (suc t) = digit-lt (n / 2) t

digit_zero : (t : ℕ) → digit 0 t ≡ 0
unfolding digit
digit_zero zero = refl
digit_zero (suc t) = digit_zero t

module _ (z : ℕ → ℕ) (f : ℕ → ℕ → ℕ) (small : (x y : ℕ) → x < 2 → y < 2 → f x y < 2)
    (run_out : (b t : ℕ) → digit (z b) t ≡ f 0 (digit b t)) where
  digit-digits : (n a b t : ℕ) → a ≤ n → digit (digits z f n a b) t ≡ f (digit a t) (digit b t)
  unfolding digit
  digit-digits zero zero b t h = rw digit_zero (run_out b t)
  digit-digits zero (suc a) b t h = absurd (omega arith)
  digit-digits (suc n) zero b t h = rw digit_zero (run_out b t)
  digit-digits (suc n) (suc a) b zero h =
      omega (arith, small (suc a % 2) (b % 2) (omega arith) (omega arith))
  digit-digits (suc n) (suc a) b (suc t) h =
      let low = small (suc a % 2) (b % 2) (omega arith) (omega arith) in
      let rest = digits z f n (suc a / 2) (b / 2) in
      let shifted : (rest * 2 + f (suc a % 2) (b % 2)) / 2 ≡ rest = omega arith in
      rw shifted (digit-digits n (suc a / 2) (b / 2) t (omega arith))

pub digit-bit_or : (a b t : ℕ) → digit (bit_or a b) t ≡ max (digit a t) (digit b t)
digit-bit_or a b t =
    ap (λ x. digit x t) (bit_or-bitwise a b)
    ∙ digit-digits (λ y. y) max (λ x y p q. omega arith) (λ y s. omega arith) a a b t (le_refl a)

pub digit-bit_and : (a b t : ℕ) → digit (bit_and a b) t ≡ min (digit a t) (digit b t)
digit-bit_and a b t =
    ap (λ x. digit x t) (bit_and-bitwise a b)
    ∙ digit-digits (λ y. 0) min (λ x y p q. omega arith) (λ y s. digit_zero s ∙ omega arith) a a b t
        (le_refl a)

pub digit-pow_self : (s : ℕ) → digit (2 ^ s) s ≡ 1
unfolding digit
digit-pow_self zero = refl
digit-pow_self (suc s) =
    let half : 2 ^ suc s / 2 ≡ 2 ^ s = omega (arith, pow-suc 2 s) in rw half (digit-pow_self s)

pub digit-pow_ne : (s t : ℕ) → s ≢ t → digit (2 ^ s) t ≡ 0
unfolding digit
digit-pow_ne zero zero h = absurd (h refl)
digit-pow_ne zero (suc t) h = digit_zero t
digit-pow_ne (suc s) zero h = omega (arith, pow-suc 2 s)
digit-pow_ne (suc s) (suc t) h =
    let half : 2 ^ suc s / 2 ≡ 2 ^ s = omega (arith, pow-suc 2 s) in
    rw half (digit-pow_ne s t (λ e. h (ap suc e)))

-- `~a` on `w` bits.
pub digit_complement : (w a t : ℕ) → a < 2 ^ w → t < w → digit (2 ^ w - 1 - a) t ≡ 1 - digit a t
unfolding digit
digit_complement zero a t h q = absurd (omega arith)
digit_complement (suc w) a zero h q = omega (arith, pow-suc 2 w)
digit_complement (suc w) a (suc t) h q =
    let half : (2 ^ suc w - 1 - a) / 2 ≡ 2 ^ w - 1 - a / 2 = omega (arith, pow-suc 2 w) in
    rw half (digit_complement w (a / 2) t (omega (arith, pow-suc 2 w)) (omega arith))

eq_zero : (n x : ℕ) → x ≤ n → ((t : ℕ) → digit x t ≡ 0) → x ≡ 0
unfolding digit
eq_zero zero x h d = omega arith
eq_zero (suc n) zero h d = refl
eq_zero (suc n) (suc x) h d =
    absurd (omega (arith, d 0, eq_zero n (suc x / 2) (omega arith) (λ t. d (suc t))))

one_digit : (s x : ℕ) → ((t : ℕ) → s ≢ t → digit x t ≡ 0) → x ≡ digit x s * 2 ^ s
unfolding digit
one_digit zero x d =
    omega (arith, eq_zero (x / 2) (x / 2) (le_refl (x / 2)) (λ t. d (suc t) (λ e. omega arith)))
one_digit (suc s) x d =
    let even : x % 2 ≡ 0 = d 0 (λ e. omega arith) in
    let upper = one_digit s (x / 2) (λ t h. d (suc t) (λ e. h (omega arith))) in
    grind (arith, pow-suc 2 s)

pub pow_two_pos : (s : ℕ) → 0 < 2 ^ s
pow_two_pos zero = omega arith
pow_two_pos (suc s) = omega (arith, pow-suc 2 s, pow_two_pos s)

-- `(n & (1 << s)) >> s` is digit `s`.
pub bit_and-pow : (n s : ℕ) → bit_and n (2 ^ s) / 2 ^ s ≡ digit n s
bit_and-pow n s =
    let alone =
      one_digit s (bit_and n (2 ^ s))
        (λ t h. digit-bit_and n (2 ^ s) t ∙ omega (arith, digit-pow_ne s t h)) in
    let kept : digit (bit_and n (2 ^ s)) s ≡ digit n s =
      omega (arith, digit-bit_and n (2 ^ s) s, digit-pow_self s, digit-lt n s) in
    ap (λ x. x / 2 ^ s) alone ∙ mul-div_cancel (digit (bit_and n (2 ^ s)) s) (pow_two_pos s) ∙ kept
