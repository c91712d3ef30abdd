-- ===== src/Format/Digits.antt =====
-- The digits that `to_string` of kernel/format.cpp prints.
use influx.Base.{
  ℕ, zero, suc, ◌+◌, ◌-◌, ◌*◌, ◌/◌, ◌%◌, ◌^◌, ◌≤◌, ◌<◌, ◌≡◌, sym, ap, ◌∙◌, Bool, true, false, List,
  [], ◌∷◌, ◌++◌, leb, ◌==◌, if◌then◌else◌, u64_mod, arith, Bool-cases, inl, inr,
}
use mathlib.Core.List.{reverse, reverse-reverse, append_assoc}
use native.Mathlib.Nat.{mod-lt, div-add-mod, div-lt_iff_lt-mul, pow-suc, pow-zero}
use influx.Format.{
  IntegerBase, oct, dec, hex, radix, digit_char, digits, max_digits, is_negative, magnitude, pad,
  prefix, to_string,
}

-- What a digit stands for, and a list of digits, the lowest first.
abbrev pub char_value : ℕ → ℕ
char_value c = if leb c b'9' then c - b'0' else c + 10 - b'a'

abbrev pub value : ℕ → List ℕ → ℕ
value base [] = 0
value base (c ∷ cs) = char_value c + base * value base cs

char_value-digit_char : (d : ℕ) → d < 16 → char_value (digit_char d) ≡ d
unfolding digit_char
char_value-digit_char d h = ground arith

-- Fuel for as many digits as the number has gives its value.
value-digits :
    (fuel base n : ℕ) → 1 < base → base ≤ 16 → n < base ^ fuel → value base (digits fuel base n) ≡ n
unfolding digits
value-digits zero base n h k m = let one : base ^ 0 ≡ 1 = pow-zero base in omega arith
value-digits (suc fuel) base n h k m =
    let low : n % base < base = mod-lt n (omega arith) in
    let first = char_value-digit_char (n % base) (omega arith) in
    let whole = div-add-mod n base in
    let smaller : n / base < base ^ fuel =
      (div-lt_iff_lt-mul {k = base} {x = n} {y = base ^ fuel} (omega arith)).1
        (rw (pow-suc base fuel) at m) in
    elim (Bool-cases (n / base == 0)) [
      | inl last ↦ rw last (ground (arith, first, whole))
      | inr more ↦
          rw (more, first, value-digits fuel base (n / base) h k smaller) (omega (arith, whole))
    ]

-- What stands before the digits.
abbrev pub marks : ℕ → IntegerBase → Bool → List ℕ
marks d base sign = prefix base ++ (if is_negative d base sign then b'-' ∷ [] else [])

magnitude-lt :
    (d : ℕ) (base : IntegerBase) (sign : Bool) → d < u64_mod → magnitude d base sign < u64_mod
unfolding magnitude
magnitude-lt d base sign h = elim (Bool-cases (is_negative d base sign)) [
  | inl neg ↦ rw neg (omega arith)
  | inr pos ↦ rw pos h
]

value-radix :
    (base : IntegerBase) (n : ℕ)
    → n < u64_mod
    → value (radix base) (digits max_digits (radix base) n) ≡ n
value-radix oct n h = value-digits max_digits 8 n (omega arith) (omega arith) (omega arith)
value-radix dec n h = value-digits max_digits 10 n (omega arith) (omega arith) (omega arith)
value-radix hex n h = value-digits max_digits 16 n (omega arith) (omega arith) (omega arith)

marks_before :
    (before text : List ℕ) (negative : Bool)
    → before ++ (if negative then b'-' ∷ text else text)
      ≡ (before ++ (if negative then b'-' ∷ [] else [])) ++ text
marks_before before text true = sym (append_assoc before (b'-' ∷ []) text)
marks_before before text false = sym (append_assoc before [] text)

-- For a number of 64 bits, in each base, signed or not: `to_string` without padding prints the marks
-- of the base and of a negative number, and then digits whose value is the magnitude of the number.
pub to_string-value :
    (d : ℕ) (base : IntegerBase) (sign : Bool)
    → d < u64_mod
    → (text : List ℕ) × (to_string d base sign 0 ≡ marks d base sign ++ text)
      × (value (radix base) (reverse text) ≡ magnitude d base sign)
unfolding to_string pad
to_string-value d base sign h =
    let ds = digits max_digits (radix base) (magnitude d base sign) in
    (
      reverse ds,
      marks_before (prefix base) (reverse ds) (is_negative d base sign),
      ap (value (radix base)) (reverse-reverse ds)
          ∙ value-radix base (magnitude d base sign) (magnitude-lt d base sign h),
    )
