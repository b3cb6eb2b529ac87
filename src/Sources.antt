-- ===== src/Sources.antt =====
-- References to a source line in the output of doctest (src/etst/robust_doctest_parser.py:
-- `_parse_source`). The pair of the file and the number stands for PlatformIO's TestCaseSource,
-- which is built of them; the parser that calls this is PlatformIO's.
pub mod RoundTrip
use mathlib.Core.Option
use embedded_test_runner.Base.{ℕ, Option, none, some, [], ◌∷◌, Text, ◌==◌, if◌then◌else◌}
use embedded_test_runner.Base.Int.{ℤ}
use embedded_test_runner.Base.Decimal.{parse_int}

-- `line[:-1]` of a line that ends with a colon
unfoldable pub before_colon : Text → Option Text
before_colon [] = none
before_colon (c ∷ []) = if c == b':' then some [] else none
before_colon (c ∷ d ∷ s) = Option.map (◌∷◌ c) (before_colon (d ∷ s))

abbrev pub after_character : Option (Text × Text) → Option (Text × Text) → ℕ → Option (Text × Text)
after_character (some (file, rest)) here c = some (c ∷ file, rest)
after_character none here c = here

-- `rsplit(":", 1)` where it has two parts
unfoldable pub rsplit_colon : Text → Option (Text × Text)
rsplit_colon [] = none
rsplit_colon (c ∷ s) = after_character (rsplit_colon s) (if c == b':' then some ([], s) else none) c

abbrev pub numbered : Option (Text × Text) → Option (Text × ℤ)
numbered none = none
numbered (some (file, number)) = Option.map (λ n. (file, n)) (parse_int number)

abbrev pub source_of : Option Text → Option (Text × ℤ)
source_of none = none
source_of (some reference) = numbered (rsplit_colon reference)

unfoldable pub parse_source : Text → Option (Text × ℤ)
parse_source line = source_of (before_colon line)
