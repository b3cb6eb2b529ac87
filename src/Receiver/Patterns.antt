-- ===== src/Receiver/Patterns.antt =====
-- The regular expressions of src/etst/result_receiver.py.
use embedded_test_runner.Base.{
  ℕ, Bool, true, false, not, Option, none, some, [], ◌∷◌, ◌++◌, Text, codes, is_space, is_digit,
  ◌==◌, ◌*◌, ◌+◌, ◌-◌,
}
use embedded_test_runner.Base.Regex.{
  any_character, literal, many, many1, few1, at_end, or_else, search_for,
}

abbrev pub is_some {ℓ} : {A : Type ℓ} → Option A → Bool
is_some (some a) = true
is_some none = false

-- the value of a run of digits
abbrev pub digits_value : ℕ → Text → ℕ
digits_value n [] = n
digits_value n (c ∷ s) = digits_value (n * 10 + (c - b'0')) s

pub record Summary : Type 0 where
  pub total : ℕ
  pub passed : ℕ

-- `\[doctest\] test cases:\s*(\d+)\s*\|\s*(\d+) passed`, by `search`
unfoldable pub doctest_summary : Text → Option Summary
doctest_summary line =
    search_for
      (literal (codes "[doctest] test cases:") (
        many is_space λ _. many1 is_digit λ total. many is_space λ _. literal (codes "|") (
          many is_space λ _. many1 is_digit λ passed.
            literal (codes " passed")
              λ _. some (record { total = digits_value 0 total; passed = digits_value 0 passed }))))
      line

-- `.+?:\d+:\s*WORD:`, by `match`: what stands in front of the last colon but the word's
located : Text → Text → Option Text
located word line =
    few1 any_character
      (λ file. literal (codes ":") (
        many1 is_digit λ number.
          literal (codes ":") (many is_space λ _. literal word λ _. some (file ++ b':' ∷ number))))
      line

-- `^(.+?:\d+):\s*FAILED:`
unfoldable pub doctest_fail : Text → Option Text
unfolding located
doctest_fail line = located (codes "FAILED:") line

-- `^.+?:\d+:\s*SUCCESS:`
unfoldable pub doctest_success : Text → Option Text
unfolding located
doctest_success line = located (codes "SUCCESS:") line

-- `^\s*TEST CASE:\s+(.+?)$`
unfoldable pub doctest_testcase : Text → Option Text
doctest_testcase line =
    many is_space
      (λ _.
        literal (codes "TEST CASE:")
          (many1 is_space λ _. few1 any_character λ name. at_end (some name)))
      line

pub data Status : Type 0 where
  pass fail ignore : Status

pub record UnityResult : Type 0 where
  pub filename : Text
  pub lineno : Text
  pub name : Text
  pub status : Status
  pub message : Option Text

abbrev not_colon : ℕ → Bool
not_colon c = not (c == b':')

-- `(?::\s*(.+))?$`
unity_message : (Option Text → UnityResult) → Text → Option UnityResult
unity_message result rest =
    or_else
      (literal (codes ":")
        (many is_space λ _. many1 any_character λ message. at_end (some (result (some message))))
        rest)
      (at_end (some (result none)) rest)

-- `(PASS|FAIL|IGNORE)`
unity_status : (Status → Text → Option UnityResult) → Text → Option UnityResult
unity_status k rest =
    or_else (literal (codes "PASS") (k pass) rest)
      (or_else (literal (codes "FAIL") (k fail) rest) (literal (codes "IGNORE") (k ignore) rest))

-- `^(.+?):(\d+):([^:]+):(PASS|FAIL|IGNORE)(?::\s*(.+))?$`
unfoldable pub unity_result : Text → Option UnityResult
unfolding unity_message unity_status
unity_result line =
    few1 any_character
      (λ filename. literal (codes ":") (
        many1 is_digit λ lineno. literal (codes ":") (
          many1 not_colon λ name. literal (codes ":") (
            unity_status λ status. unity_message λ message. record {
              filename = filename;
              lineno = lineno;
              name = name;
              status = status;
              message = message;
            }))))
      line

-- `(\d+) Tests\s+(\d+) Failures\s+(\d+) Ignored`, by `search`; only whether it matches is used
unfoldable pub unity_summary : Text → Bool
unity_summary line = is_some (
    search_for
      (many1 is_digit λ tests. literal (codes " Tests") (
        many1 is_space λ _. many1 is_digit λ failures. literal (codes " Failures") (
          many1 is_space
            λ _. many1 is_digit λ ignored. literal (codes " Ignored") λ _. some tests)))
      line)
