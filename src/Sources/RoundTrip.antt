-- ===== src/Sources/RoundTrip.antt =====
-- A source reference is read back (src/etst/robust_doctest_parser.py: `_parse_source`).
use mathlib.Core.Option
use embedded_test_runner.Base.{
  ℕ, ◌≡◌, refl, ap, ◌∙◌, Bool, not, some, none, [], ◌∷◌, ◌++◌, Text, codes, ◌==◌, arith, Every,
  is_digit, append_assoc, sym, suc,
}
use embedded_test_runner.Base.Int.{ℤ, pos, negsuc}
use embedded_test_runner.Base.Decimal.{dec, dec-IsNumeral, str_int, parse_int-str_int}
use embedded_test_runner.Sources.{before_colon, rsplit_colon, numbered, source_of, parse_source}

no_colon : ℕ → Bool
no_colon c = not (c == b':')

before_colon-append : (s : Text) → before_colon (s ++ codes ":") ≡ some s
unfolding before_colon
before_colon-append [] = refl
before_colon-append (c ∷ []) = refl
before_colon-append (c ∷ d ∷ s) = ap (Option.map (◌∷◌ c)) (before_colon-append (d ∷ s))

rsplit_colon-none : (s : Text) → Every no_colon s → rsplit_colon s ≡ none
unfolding rsplit_colon no_colon
rsplit_colon-none [] h = refl
rsplit_colon-none (c ∷ s) h = ground (arith, rsplit_colon-none s h.1, h.0)

rsplit_colon-append :
    (file s : Text) → Every no_colon s → rsplit_colon (file ++ b':' ∷ s) ≡ some (file, s)
unfolding rsplit_colon
rsplit_colon-append [] s h = rw (rsplit_colon-none s h) refl
rsplit_colon-append (c ∷ file) s h = rw (rsplit_colon-append file s h) refl

digits-no_colon : (s : Text) → Every is_digit s → Every no_colon s
unfolding is_digit no_colon
digits-no_colon [] h = tt
digits-no_colon (c ∷ s) h = (ground (arith, h.0), digits-no_colon s h.1)

str_int-no_colon : (n : ℤ) → Every no_colon (str_int n)
unfolding str_int no_colon
str_int-no_colon (pos n) = digits-no_colon (dec n) (dec-IsNumeral n).1
str_int-no_colon (negsuc n) = (refl, digits-no_colon (dec (suc n)) (dec-IsNumeral (suc n)).1)

-- Whatever the name of the file, also one with colons in it: a reference to a line of it is read
-- back as that name and number.
pub parse_source-reference :
    (file : Text) (n : ℤ) → parse_source (file ++ b':' ∷ (str_int n ++ codes ":")) ≡ some (file, n)
unfolding parse_source
parse_source-reference file n =
    ap (λ line. source_of (before_colon line))
      (sym (append_assoc file (b':' ∷ str_int n) (codes ":")))
    ∙ ap source_of (before_colon-append (file ++ b':' ∷ str_int n))
    ∙ ap numbered (rsplit_colon-append file (str_int n) (str_int-no_colon n))
    ∙ ap (Option.map (λ k. (file, k))) (parse_int-str_int n)
