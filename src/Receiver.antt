-- ===== src/Receiver.antt =====
-- Test results from the output of doctest and Unity (src/etst/result_receiver.py). A line is the
-- decoded text.
pub mod Patterns
pub mod Doctest
pub mod Frame
pub mod Results
pub mod Failed
pub mod Unity
use embedded_test_runner.Base.{
  ℕ, Bool, true, false, not, ◌&&◌, ◌||◌, Option, none, some, List, [], ◌∷◌, ◌++◌, Text, codes,
  is_empty, strip, drop_while, reverse, ◌==◌, if◌then◌else◌, ltb,
}
use embedded_test_runner.Receiver.Patterns.{
  doctest_summary, doctest_fail, doctest_testcase, doctest_success, unity_result, unity_summary,
  UnityResult, Summary, Status, pass, is_some,
}

pub record TestResult : Type 0 where
  pub name : Text
  pub passed : Bool
  pub message : Option Text
  pub source : Option Text

pub data Framework : Type 0 where
  doctest unity : Framework

pub record Receiver : Type 0 where
  pub detected_framework : Option Framework
  pub results : List TestResult
  pub is_complete : Bool
  pub current_test_name : Option Text
  pub current_test_passed : Bool
  pub doctest_fail_source : Option Text
  pub doctest_fail_lines : List Text
  pub in_doctest_failure : Bool

-- `__init__`; `none` is "auto", and any other name raises a ValueError
abbrev pub new : Option Framework → Receiver
new framework = record {
  detected_framework = framework;
  results = [];
  is_complete = false;
  current_test_name = none;
  current_test_passed = false;
  doctest_fail_source = none;
  doctest_fail_lines = [];
  in_doctest_failure = false;
}

abbrev pub add : Receiver → TestResult → Receiver
add r x = record r { results = r.results ++ x ∷ [] }

-- `text or default`, `text or None`
abbrev pub text_or : Option Text → Text → Text
text_or (some (c ∷ s)) default = c ∷ s
text_or _ default = default

abbrev pub non_empty : Text → Option Text
non_empty [] = none
non_empty (c ∷ s) = some (c ∷ s)

-- "\n".join(lines)
unfoldable pub join_lines : List Text → Text
join_lines [] = []
join_lines (l ∷ []) = l
join_lines (l ∷ m ∷ ls) = l ++ b'\n' ∷ join_lines (m ∷ ls)

abbrev pub failure_of : Receiver → TestResult
failure_of r = record {
  name = text_or r.current_test_name (codes "unknown");
  passed = false;
  message = non_empty (strip (join_lines r.doctest_fail_lines));
  source = r.doctest_fail_source;
}

unfoldable pub finalize_doctest_failure : Receiver → Receiver
finalize_doctest_failure r = if not r.in_doctest_failure then r else record (add r (failure_of r)) {
  current_test_passed = false;
  in_doctest_failure = false;
  doctest_fail_source = none;
  doctest_fail_lines = [];
}

abbrev pub pass_of : Text → TestResult
pass_of name = record { name = name; passed = true; message = none; source = none }

-- `if self._current_test_name and self._current_test_passed`
add_pass : Receiver → Option Text → Bool → Receiver
add_pass r (some (c ∷ name)) true = add r (pass_of (c ∷ name))
add_pass r _ _ = r

unfoldable pub finalize_doctest_case : Receiver → Receiver
unfolding finalize_doctest_failure add_pass
finalize_doctest_case r =
    let r1 = finalize_doctest_failure r in
    record (add_pass r1 r1.current_test_name r1.current_test_passed) {
      current_test_name = none;
      current_test_passed = false;
    }

-- the summary line: results are made up if there are none
unfoldable pub summarize : Receiver → Summary → Receiver
unfolding finalize_doctest_case
summarize r s =
    let r1 = finalize_doctest_case r in
    if is_empty r1.results && ltb 0 s.total && s.passed == s.total
    then record (add r1 (pass_of (codes "all tests"))) { is_complete = true }
    else record r1 { is_complete = true }

-- a line that is neither a header nor a failure
unfoldable pub feed_detail : Receiver → Text → Receiver
unfolding summarize
feed_detail r line =
    let r1 =
      if r.in_doctest_failure
      then record r { doctest_fail_lines = r.doctest_fail_lines ++ line ∷ [] }
      else r in
    elim (doctest_summary line) [ some s ↦ summarize r1 s | none ↦ r1 ]

-- a SUCCESS line
abbrev pub noticed : Receiver → Text → Receiver
noticed r line =
    if is_some (doctest_success line) then record r { current_test_passed = true } else r

-- a line that is not a header
unfoldable pub feed_assertion : Receiver → Text → Receiver
unfolding finalize_doctest_failure feed_detail
feed_assertion r line =
    let r1 = noticed r line in
    elim (doctest_fail line) [
      | some source ↦ record (finalize_doctest_failure r1) {
        doctest_fail_source = some source;
        in_doctest_failure = true;
      }
      | none ↦ feed_detail r1 line
    ]

unfoldable pub feed_doctest : Receiver → Text → Receiver
unfolding finalize_doctest_case feed_assertion
feed_doctest r line = elim (doctest_testcase line) [
  | some name ↦ record (finalize_doctest_case r) {
    current_test_name = some (strip name);
    current_test_passed = false;
  }
  | none ↦ feed_assertion r line
]

abbrev pub is_pass : Status → Bool
is_pass pass = true
is_pass _ = false

-- the result of a line
abbrev pub test_of : UnityResult → TestResult
test_of u = record {
  name = u.name;
  passed = is_pass u.status;
  message = u.message;
  source = some (u.filename ++ b':' ∷ u.lineno);
}

unfoldable pub feed_unity : Receiver → Text → Receiver
feed_unity r line = elim (unity_result line) [
  | some u ↦ add r (test_of u)
  | none ↦ if unity_summary line then record r { is_complete = true } else r
]

-- with no framework known: the first line that fits one decides
unfoldable pub try_detect : Receiver → Text → Receiver
try_detect r line =
    if is_some (doctest_testcase line) || is_some (doctest_summary line)
    then feed_doctest (record r { detected_framework = some doctest }) line
    else if is_some (doctest_fail line)
    then feed_doctest (record r { detected_framework = some doctest }) line
    else if is_some (unity_result line) || unity_summary line
    then feed_unity (record r { detected_framework = some unity }) line
    else r

abbrev is_line_end : ℕ → Bool
is_line_end c = c == b'\n' || c == b'\r'

-- line.rstrip("\n\r")
unfoldable pub chomp : Text → Text
chomp s = reverse (drop_while is_line_end (reverse s))

feed_framework : Option Framework → Receiver → Text → Receiver
feed_framework (some doctest) r line = feed_doctest r line
feed_framework (some unity) r line = feed_unity r line
feed_framework none r line = try_detect r line

unfoldable pub feed : Receiver → Text → Receiver
unfolding feed_framework
feed r message = if r.is_complete then r else feed_framework r.detected_framework r (chomp message)

unfoldable pub drain_results : Receiver → Receiver × List TestResult
drain_results r = (record r { results = [] }, r.results)
