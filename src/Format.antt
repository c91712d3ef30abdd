-- ===== src/Format.antt =====
-- The printing of numbers and the format strings of kernel/format.cpp. A string is the list of its bytes.
pub mod Digits
use influx.Base.{
  ℕ, zero, suc, ◌+◌, ◌-◌, ◌*◌, ◌/◌, ◌%◌, ◌^◌, Bool, true, false, not, ◌&&◌, ◌||◌, List, [], ◌∷◌,
  ◌++◌, Option, none, some, length, replicate, ltb, leb, ◌==◌, if◌then◌else◌, sub64, u64_mod,
}
use influx.Base.Run.{Run, ok, fault, ◌>>=◌, out_of_bounds}
use mathlib.Core.List.{reverse}

pub data IntegerBase : Type 0 where
  oct : IntegerBase
  dec : IntegerBase
  hex : IntegerBase

abbrev pub radix : IntegerBase → ℕ
radix oct = 8
radix dec = 10
radix hex = 16

unfoldable pub is_dec : IntegerBase → Bool
is_dec dec = true
is_dec other = false

unfoldable pub digit_char : ℕ → ℕ
digit_char remainder = if ltb remainder 10 then remainder + b'0' else remainder + b'a' - 10

-- The `do` loop, the lowest digit first. A number below 2^64 has at most 22 digits to the base 8.
unfoldable pub digits : ℕ → ℕ → ℕ → List ℕ
unfolding digit_char
digits zero base n = []
digits (suc fuel) base n =
    let rest = digits fuel base (n / base) in
    digit_char (n % base) ∷ (if n / base == 0 then [] else rest)

abbrev pub max_digits : ℕ
max_digits = 22

-- Whether a number of 64 bits is printed with a minus.
unfoldable pub is_negative : ℕ → IntegerBase → Bool → Bool
unfolding is_dec
is_negative d base sign = sign && is_dec base && leb (2 ^ 63) d

unfoldable pub magnitude : ℕ → IntegerBase → Bool → ℕ
unfolding is_negative
magnitude d base sign = if is_negative d base sign then sub64 0 d else d

-- The difference wraps, so a number that is longer than the padding gets about 2^64 zeros.
unfoldable pub pad : ℕ → List ℕ → List ℕ
pad padding text =
    if ltb 0 padding && ltb 0 (sub64 padding (length text))
    then replicate (sub64 padding (length text)) b'0' ++ text
    else text

unfoldable pub prefix : IntegerBase → List ℕ
prefix hex = b'0' ∷ b'x' ∷ []
prefix other = []

-- `to_string`, of a number given by its 64 bits.
unfoldable pub to_string : ℕ → IntegerBase → Bool → ℕ → List ℕ
unfolding digits is_negative magnitude pad prefix
to_string d base sign padding =
    let text = pad padding (reverse (digits max_digits (radix base) (magnitude d base sign))) in
    prefix base ++ (if is_negative d base sign then b'-' ∷ text else text)

unfoldable pub get_integer_base_for_character : ℕ → IntegerBase
get_integer_base_for_character c = if c == b'o' then oct else if c == b'x' then hex else dec

-- An argument of `vformat`: the bits of a number, or a string.
pub data Argument : Type 0 where
  number : ℕ → Argument
  text : List ℕ → Argument

unfoldable pub take_number : List Argument → Run (ℕ × List Argument)
take_number (number n ∷ args) = ok (n, args)
take_number args = fault out_of_bounds

unfoldable pub take_text : List Argument → Run (List ℕ × List Argument)
take_text (text t ∷ args) = ok (t, args)
take_text args = fault out_of_bounds

-- An `int32_t` as an `int64_t`.
unfoldable pub sign_extend : ℕ → ℕ
sign_extend n = let low = n % 2 ^ 32 in if leb (2 ^ 31) low then u64_mod - 2 ^ 32 + low else low

-- A specifier read so far: its bytes from the `%` on, the padding and the flag of a long number.
pub record Specifier : Type 0 where
  pub read : List ℕ
  pub padding : ℕ
  pub long_int : Bool

-- The `switch` on the last byte of a specifier.
unfoldable pub print : Specifier → ℕ → List Argument → Run (List ℕ × List Argument)
unfolding to_string get_integer_base_for_character take_number take_text sign_extend
print f e args =
    let wide = λ (n : ℕ). if f.long_int then n else sign_extend n in
    if e == b'd' || (e == b'i' || (e == b'u' || (e == b'o' || e == b'x')))
    then (take_number args >>= λ r.
        ok (
          to_string (wide r.0) (get_integer_base_for_character e) (not (e == b'u')) f.padding,
          r.1,
        ))
    else if e == b'c'
    then (take_number args >>= λ r. ok (r.0 % 256 ∷ [], r.1))
    else if e == b's' || e == b'S'
    then take_text args
    else if e == b'p'
    then (take_number args >>= λ r. ok (to_string r.0 hex false 0, r.1))
    else if e == b'%'
    then ok (b'%' ∷ [], args)
    else ok (f.read ++ e ∷ [], args)

-- The tests for the flags, each of which reads the next byte.
pub data Stage : Type 0 where
  at_zero : Stage
  at_width : Stage
  at_long : Stage
  at_end : Stage

unfoldable pub bare_specifier : Specifier
bare_specifier = record { read = b'%' ∷ []; padding = 0; long_int = false }

-- The loop, outside a specifier or in one at a stage. A format that ends in a specifier behind a flag
-- is read beyond its end.
unfoldable pub vformat : Option (Specifier × Stage) → List ℕ → List Argument → Run (List ℕ)
unfolding print bare_specifier
vformat none [] args = ok []
vformat none (c ∷ fmt) args =
    let inside = vformat (some (bare_specifier, at_zero)) fmt args in
    let rest = vformat none fmt args in if c == b'%' then inside else rest >>= (λ t. ok (c ∷ t))
vformat (some (f, at_zero)) [] args = ok []
vformat (some (f, stage)) [] args = fault out_of_bounds
vformat (some (f, stage)) (e ∷ fmt) args =
    let more = record f { read = f.read ++ e ∷ [] } in
    let zeroed = vformat (some (more, at_width)) fmt args in
    let padded = vformat (some (record more { padding = e - b'0' }, at_long)) fmt args in
    let long = vformat (some (record more { long_int = true }, at_end)) fmt args in
    let printed = print f e args >>= λ r. vformat none fmt r.1 >>= λ t. ok (r.0 ++ t) in
    let is_zero : Bool = elim stage [ at_zero ↦ e == b'0' | other ↦ false ] in
    let is_width : Bool = elim stage [ at_width ↦ leb b'0' e && leb e b'9' | other ↦ false ] in
    let is_long : Bool = elim stage [ at_end ↦ false | other ↦ e == b'l' ] in
    if is_zero then zeroed else if is_width then padded else if is_long then long else printed
