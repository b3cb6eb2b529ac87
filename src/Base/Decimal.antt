-- ===== src/Base/Decimal.antt =====
-- `str(n)` and `int(s)` for decimal numerals.
use Prim.Native.Nat.{ℕ, zero, suc, ◌+◌, ◌-◌, ◌*◌, ◌/◌, ◌%◌, ◌<◌}
use mathlib.Core.Path.{◌≡◌, refl, ap, ◌∙◌}
use mathlib.Core.Logic.{◌≢◌, inl, inr}
use mathlib.Core.Bool.{Bool, true, false, not, ◌&&◌}
use mathlib.Core.Option
use mathlib.Core.Option.{Option, none, some}
use mathlib.Core.List.{[], ◌∷◌}
use native.Mathlib.Omega.{arith}
use embedded_test_runner.Base.Test.{ltb, ◌==◌, if◌then◌else◌, Bool-cases}
use embedded_test_runner.Base.Lists.{Every}
use embedded_test_runner.Base.Int.{ℤ, pos, negsuc, sub_ℕ}
use embedded_test_runner.Base.Chars.{Text, is_space, is_digit, strip}
use embedded_test_runner.Base.Strip.{strip-IsTrimmed, IsTrimmed-Every}

dec_onto : ℕ → ℕ → Text → Text
dec_onto zero n acc = acc
dec_onto (suc fuel) n acc =
    let acc' = (b'0' + n % 10) ∷ acc in
    let more = dec_onto fuel (n / 10) acc' in if ltb n 10 then acc' else more

-- str(n) of a number that is not negative; a numeral has at most n + 1 digits
unfoldable pub dec : ℕ → Text
unfolding dec_onto
dec n = dec_onto (suc n) n []

-- str(n)
unfoldable pub str_int : ℤ → Text
unfolding dec
str_int (pos n) = dec n
str_int (negsuc n) = b'-' ∷ dec (suc n)

-- f"{n:+d}"
unfoldable pub str_signed : ℤ → Text
unfolding dec
str_signed (pos n) = b'+' ∷ dec n
str_signed (negsuc n) = b'-' ∷ dec (suc n)

-- Digits, with single underscores between them. The flag: the character before was a digit.
parse_digits : Bool → ℕ → Text → Option ℕ
parse_digits after acc [] = if after then some acc else none
parse_digits after acc (c ∷ cs) = elim (is_digit c) [
  | true ↦ parse_digits true (acc * 10 + (c - b'0')) cs
  | false ↦ elim (after && c == b'_') [ true ↦ parse_digits false acc cs | false ↦ none ]
]

parse_signed : Text → Option ℤ
unfolding parse_digits is_digit
parse_signed [] = none
parse_signed (c ∷ cs) =
    if c == b'-'
    then Option.map (λ n. sub_ℕ 0 n) (parse_digits false 0 cs)
    else if c == b'+'
    then Option.map pos (parse_digits false 0 cs)
    else Option.map pos (parse_digits false 0 (c ∷ cs))

-- int(s); `none` is the ValueError
unfoldable pub parse_int : Text → Option ℤ
unfolding parse_signed strip
parse_int s = parse_signed (strip s)

-- one more digit
parse_digits-cons :
    (after : Bool) (n d : ℕ) (acc : Text)
    → d < 10
    → parse_digits after n ((b'0' + d) ∷ acc) ≡ parse_digits true (n * 10 + d) acc
unfolding parse_digits
parse_digits-cons after n d acc h =
    let e : is_digit (b'0' + d) ≡ true = unfold is_digit in ground arith in
    rw (e, parse_digits) (ap (λ m. parse_digits true m acc) (omega arith))

-- The digits printed first are read first, whatever follows them.
parse_digits-dec_onto :
    (fuel n : ℕ) (after : Bool) (acc : Text)
    → n < fuel
    → parse_digits after 0 (dec_onto fuel n acc) ≡ parse_digits true n acc
unfolding dec_onto
parse_digits-dec_onto zero n after acc h = elim h [ ]
parse_digits-dec_onto (suc fuel) n after acc h = elim (Bool-cases (ltb n 10)) [
  | inl small ↦ rw small (
      parse_digits-cons after 0 (n % 10) acc (omega arith)
      ∙ ap (λ m. parse_digits true m acc) (ground arith))
  | inr large ↦ rw large (
      parse_digits-dec_onto fuel (n / 10) after ((b'0' + n % 10) ∷ acc) (ground arith)
      ∙ parse_digits-cons true (n / 10) (n % 10) acc (omega arith)
      ∙ ap (λ m. parse_digits true m acc) (omega arith))
]

parse_digits-dec : (after : Bool) (n : ℕ) → parse_digits after 0 (dec n) ≡ some n
unfolding dec parse_digits
parse_digits-dec after n = parse_digits-dec_onto (suc n) n after [] (omega arith)

-- a decimal numeral: digits only, and at least one
abbrev pub IsNumeral : Text → Type 0
IsNumeral s = (s ≢ []) × Every is_digit s

dec_onto-IsNumeral :
    (fuel n : ℕ) (acc : Text) → n < fuel → Every is_digit acc → IsNumeral (dec_onto fuel n acc)
unfolding dec_onto
dec_onto-IsNumeral zero n acc h k = elim h [ ]
dec_onto-IsNumeral (suc fuel) n acc h k =
    let e : is_digit (b'0' + n % 10) ≡ true = unfold is_digit in ground arith in
    elim (Bool-cases (ltb n 10)) [
      | inl small ↦ rw small ((λ p. cc), (e, k))
      | inr large ↦ rw large (dec_onto-IsNumeral fuel (n / 10) _ (ground arith) (e, k))
    ]

pub dec-IsNumeral : (n : ℕ) → IsNumeral (dec n)
unfolding dec
dec-IsNumeral n = dec_onto-IsNumeral (suc n) n [] (omega arith) tt

pub digit_not_space : (c : ℕ) → is_digit c ≡ true → is_space c ≡ false
unfolding is_digit is_space
digit_not_space c h = ground arith

Every-not_space : (s : Text) → Every is_digit s → Every (λ c. not (is_space c)) s
Every-not_space [] h = tt
Every-not_space (c ∷ s) h = (rw (digit_not_space c h.0), Every-not_space s h.1)

-- An unsigned numeral is read as its digits.
parse_signed-IsNumeral :
    (s : Text) → IsNumeral s → parse_signed s ≡ Option.map pos (parse_digits false 0 s)
unfolding parse_signed is_digit
parse_signed-IsNumeral [] h = absurd (h.0 refl)
parse_signed-IsNumeral (c ∷ s) h = ground arith

pub strip-IsNumeral : (s : Text) → IsNumeral s → strip s ≡ s
strip-IsNumeral s h = strip-IsTrimmed s (IsTrimmed-Every s (Every-not_space s h.1))

pub parse_int-dec : (n : ℕ) → parse_int (dec n) ≡ some (pos n)
unfolding parse_int
parse_int-dec n =
    ap parse_signed (strip-IsNumeral (dec n) (dec-IsNumeral n))
    ∙ parse_signed-IsNumeral (dec n) (dec-IsNumeral n)
    ∙ ap (Option.map pos) (parse_digits-dec false n)

-- a sign in front of a numeral
IsTrimmed_signed :
    (c : ℕ) (s : Text) → is_space c ≡ false → Every is_digit s → strip (c ∷ s) ≡ c ∷ s
IsTrimmed_signed c s h k =
    strip-IsTrimmed (c ∷ s) (IsTrimmed-Every (c ∷ s) (rw h, Every-not_space s k))

parse_int-minus : (n : ℕ) → parse_int (b'-' ∷ dec (suc n)) ≡ some (negsuc n)
unfolding parse_int
parse_int-minus n =
    ap parse_signed
      (IsTrimmed_signed b'-' (dec (suc n)) (unfold is_space in refl) (dec-IsNumeral (suc n)).1)
    ∙ ap (Option.map (sub_ℕ 0)) (parse_digits-dec false (suc n))
    ∙ ap some (ground arith)

parse_int-plus : (n : ℕ) → parse_int (b'+' ∷ dec n) ≡ some (pos n)
unfolding parse_int
parse_int-plus n =
    ap parse_signed (IsTrimmed_signed b'+' (dec n) (unfold is_space in refl) (dec-IsNumeral n).1)
    ∙ ap (Option.map pos) (parse_digits-dec false n)

-- Every integer that was printed is read back.
pub parse_int-str_int : (n : ℤ) → parse_int (str_int n) ≡ some n
unfolding str_int
parse_int-str_int (pos n) = parse_int-dec n
parse_int-str_int (negsuc n) = parse_int-minus n

pub parse_int-str_signed : (n : ℤ) → parse_int (str_signed n) ≡ some n
unfolding str_signed
parse_int-str_signed (pos n) = parse_int-plus n
parse_int-str_signed (negsuc n) = parse_int-minus n
