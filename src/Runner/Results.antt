-- ===== src/Runner/Results.antt =====
-- How the runner settles the results of a session (src/etst/runner.py: `_check_assertion_failure`,
-- `_report_test_failures`, `_ensure_test_results`, `_check_for_under_run`).
--
-- The test cases, their statuses and the suite's `add_case` are PlatformIO's: the module takes
-- them as a `Platform`, and the theorems what they rely on as `IsPlatform`. PlatformIO is taken
-- to be there. The exception of a case and the echo of the under-run are left out.
pub mod Suite
pub mod Tracked
pub mod Verdict
use embedded_test_runner.Base.{
  ◌≡◌, ◌≢◌, ◌↔◌, ◌+◌, Bool, true, false, not, ◌&&◌, ◌||◌, Option, none, some, List, [], ◌∷◌, ◌++◌,
  Text, codes, text_eq, is_empty, find, strip, drop, length, any_of, filter, if◌then◌else◌,
}
use embedded_test_runner.Base.Int.{ℤ, pos, ltb_ℤ, ◌-ℤ◌}
use embedded_test_runner.Base.Dict.{Dict, contains, lookup, insert, keys}
use embedded_test_runner.Base.Decimal.{str_int}

-- PlatformIO's TestStatus, TestCase and `TestSuite.add_case`; a case is built of its name, status,
-- message and output
pub record Platform (Case Status : Type 0) : Type 0 where
  pub passed : Status
  pub failed : Status
  pub errored : Status
  pub same_status : Status → Status → Bool
  pub test_case : Text → Status → Option Text → Option Text → Case
  pub name_of : Case → Text
  pub status_of : Case → Status
  pub add_case : Case → List Case → List Case

-- A case keeps its name and status, the three statuses differ where the runner compares them, and
-- a case is added at the end.
pub record IsPlatform {Case Status : Type 0} (p : Platform Case Status) : Type 0 where
  pub name_of-test_case :
      (name : Text) (status : Status) (message stdout : Option Text)
      → p.name_of (p.test_case name status message stdout) ≡ name
  pub status_of-test_case :
      (name : Text) (status : Status) (message stdout : Option Text)
      → p.status_of (p.test_case name status message stdout) ≡ status
  pub same_status_iff : (a b : Status) → (p.same_status a b ≡ true) ↔ (a ≡ b)
  pub failed≢passed : p.failed ≢ p.passed
  pub errored≢passed : p.errored ≢ p.passed
  pub add_case-append : (c : Case) (cases : List Case) → p.add_case c cases ≡ cases ++ (c ∷ [])

-- the messages of the failed assertions, by test
abbrev pub Failures : Type 0
Failures = Dict (List Text)

abbrev pub or_unknown : Text → Text
or_unknown [] = codes "unknown"
or_unknown (c ∷ s) = c ∷ s

-- `line[idx + len(token):].strip()`, where the token stands in the line
abbrev behind : Text → Text → Option Text
behind token line = elim (find token line) [
  | none ↦ none
  | some i ↦ some (strip (drop (i + length token) line))
]

abbrev or_else : Option Text → Option Text → Option Text
or_else (some m) other = some m
or_else none other = other

unfoldable pub failure_in : Text → Option Text
failure_in line = or_else (behind (codes ": FATAL ERROR:") line) (behind (codes ": ERROR:") line)

unfoldable pub messages_of : Text → Failures → List Text
messages_of name failures = elim (lookup name failures) [ none ↦ [] | some messages ↦ messages ]

-- the test is the protocol's current one
unfoldable pub check_assertion_failure : Text → Text → Failures → Failures
check_assertion_failure current line failures = elim (failure_in line) [
  | none ↦ failures
  | some message ↦
      let name = or_unknown current in
      insert name (messages_of name failures ++ (message ∷ [])) failures
]

unfoldable pub join_lines : List Text → Text
join_lines [] = []
join_lines (l ∷ []) = l
join_lines (l ∷ k ∷ ls) = l ++ b'\n' ∷ join_lines (k ∷ ls)

abbrev first_or_default : List Text → Text
first_or_default [] = codes "Assertion failed"
first_or_default (m ∷ ms) = m

-- the name of a phantom case
unfoldable pub is_blank : Text → Bool
is_blank name = is_empty name || is_empty (strip name)

unfoldable pub under_run_message : ℤ → ℤ → Text
under_run_message expected ran =
    str_int (expected -ℤ ran)
    ++ codes " of "
    ++ str_int expected
    ++ codes " tests never ran ("
    ++ str_int ran
    ++ codes " executed). "
    ++ codes "The run stopped short of what the device said it would run, so it "
    ++ codes "does not prove what it appears to. Likely a device disconnect "
    ++ codes "mid-run (check for an earlier serial/port error) or lost "
    ++ codes "resume/segmentation across a sleep cycle — inspect the log to tell "
    ++ codes "which."

module _ {Case Status : Type 0} (p : Platform Case Status) where
  unfoldable pub is_named : Text → Case → Bool
  is_named name c = text_eq (p.name_of c) name

  unfoldable pub is_failed : Text → Case → Bool
  is_failed name c = is_named name c && p.same_status (p.status_of c) p.failed

  -- a case that has not passed
  unfoldable pub is_bad : Case → Bool
  is_bad c = not (p.same_status (p.status_of c) p.passed)

  abbrev pub failed_test_case : Text → List Text → Case
  failed_test_case name messages =
      p.test_case name p.failed (some (first_or_default messages)) (some (join_lines messages))

  -- one round of the loop of `_report_test_failures`
  unfoldable pub report_one : Text → List Text → List Case → List Case
  report_one name messages cases =
      if any_of (is_failed name) cases
      then cases
      else p.add_case (failed_test_case name messages) cases

  unfoldable pub report_test_failures : Failures → List Case → List Case
  report_test_failures [] cases = cases
  report_test_failures ((name, messages) ∷ failures) cases =
      report_test_failures failures (report_one name messages cases)

  -- `keep` of `_ensure_test_results`
  unfoldable pub keep : List Text → Case → Bool
  keep completed c =
      if is_blank (p.name_of c)
      then false
      else if not (p.same_status (p.status_of c) p.passed)
      then true
      else is_empty completed || contains (p.name_of c) completed

  -- its last loop; `existing` are the names in the suite before it
  unfoldable pub add_passed : List Text → Failures → List Text → List Case → List Case
  add_passed existing failures [] cases = cases
  add_passed existing failures (name ∷ completed) cases = add_passed existing failures completed (
      if not (contains name existing) && not (contains name (keys failures))
      then p.add_case (p.test_case name p.passed none none) cases
      else cases)

  unfoldable pub names_of : List Case → List Text
  names_of [] = []
  names_of (c ∷ cases) = p.name_of c ∷ names_of cases

  unfoldable pub ensure_test_results : List Text → Failures → List Case → List Case
  ensure_test_results completed failures cases =
      let kept = filter (keep completed) cases in add_passed (names_of kept) failures completed kept

  -- `expected` is the protocol's `expected_run`
  unfoldable pub check_for_under_run : List Text → ℤ → List Case → List Case
  check_for_under_run completed expected cases =
      let ran = pos (length completed) in
      if not (ltb_ℤ (pos 0) expected)
      then cases
      else if not (ltb_ℤ ran expected)
      then cases
      else p.add_case
          (p.test_case (codes "runner/under_run") p.errored (some (under_run_message expected ran))
            none)
          cases

  -- the `finally` of `stage_testing`
  unfoldable pub settle : List Text → Failures → ℤ → List Case → List Case
  settle completed failures expected cases =
      check_for_under_run completed expected (ensure_test_results completed failures cases)
