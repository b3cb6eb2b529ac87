-- ===== src/Receiver/Doctest.antt =====
-- No doctest failure is lost, and a test case with a failure is never reported as passed.
use embedded_test_runner.Base.{
  ℕ, ◌+◌, ◌≡◌, refl, ◌∙◌, Bool, true, false, not, Option, none, some, List, [], ◌∷◌, ◌++◌, Text,
  codes, arith, if◌then◌else◌, Option-cases, inl, inr,
}
use embedded_test_runner.Receiver.Patterns.{
  doctest_summary, doctest_fail, doctest_testcase, is_some, Summary,
}
use embedded_test_runner.Receiver.{
  TestResult, Receiver, failure_of, finalize_doctest_failure, finalize_doctest_case, add_pass,
  summarize, feed_detail, feed_assertion, feed_doctest, pass_of,
}

-- the failed results, and the failure that is being read
abbrev pub failures : List TestResult → ℕ
failures [] = 0
failures (x ∷ xs) = (if x.passed then 0 else 1) + failures xs

abbrev pub one_if : Bool → ℕ
one_if b = if b then 1 else 0

abbrev pub failures_seen : Receiver → ℕ
failures_seen r = failures r.results + one_if r.in_doctest_failure

failures-concat :
    (xs : List TestResult) (x : TestResult)
    → failures (xs ++ x ∷ []) ≡ failures xs + one_if (not x.passed)
failures-concat [] x = ground arith
failures-concat (y ∷ xs) x = omega (arith, failures-concat xs x)

finalize_failure-seen :
    (r : Receiver)
    → (failures (finalize_doctest_failure r).results ≡ failures_seen r)
      × ((finalize_doctest_failure r).in_doctest_failure ≡ false)
unfolding finalize_doctest_failure
finalize_failure-seen r = ground (arith, failures-concat r.results (failure_of r))

add_pass-seen :
    (r : Receiver) (name : Option Text) (passed : Bool)
    → (failures (add_pass r name passed).results ≡ failures r.results)
      × ((add_pass r name passed).in_doctest_failure ≡ r.in_doctest_failure)
unfolding add_pass
add_pass-seen r none passed = (refl, refl)
add_pass-seen r (some []) passed = (refl, refl)
add_pass-seen r (some (c ∷ s)) false = (refl, refl)
add_pass-seen r (some (c ∷ s)) true =
    (ground (arith, failures-concat r.results (pass_of (c ∷ s))), refl)

finalize_case-seen :
    (r : Receiver)
    → (failures (finalize_doctest_case r).results ≡ failures_seen r)
      × ((finalize_doctest_case r).in_doctest_failure ≡ false)
finalize_case-seen r =
    let r1 = finalize_doctest_failure r in
    let one = finalize_failure-seen r in
    let two = add_pass-seen r1 r1.current_test_name r1.current_test_passed in
    unfold finalize_doctest_case in (two.0 ∙ one.0, two.1 ∙ one.1)

summarize-seen :
    (r : Receiver) (s : Summary)
    → (failures (summarize r s).results ≡ failures_seen r)
      × ((summarize r s).in_doctest_failure ≡ false)
      × ((summarize r s).is_complete ≡ true)
      × ((summarize r s).detected_framework ≡ (finalize_doctest_case r).detected_framework)
unfolding summarize
summarize-seen r s =
    let r1 = finalize_doctest_case r in
    ground (arith, finalize_case-seen r, failures-concat r1.results (pass_of (codes "all tests")))

-- a line that opens a failure
abbrev pub is_failure : Text → Bool
is_failure line = elim (doctest_testcase line) [
  | some _ ↦ false
  | none ↦ is_some (doctest_fail line)
]

-- a line that ends the run
abbrev pub is_summary : Text → Bool
is_summary line = elim (doctest_testcase line) [
  | some _ ↦ false
  | none ↦ elim (doctest_fail line) [ some _ ↦ false | none ↦ is_some (doctest_summary line) ]
]

feed_detail-seen :
    (r : Receiver) (line : Text) → failures_seen (feed_detail r line) ≡ failures_seen r
unfolding feed_detail
feed_detail-seen r line = elim (Option-cases (doctest_summary line)) [
  | inl plain ↦ ground arith
  | inr (s, found) ↦ ground (
    arith,
    summarize-seen r s,
    summarize-seen (record r { doctest_fail_lines = r.doctest_fail_lines ++ line ∷ [] }) s,
  )
]

feed_assertion-seen :
    (r : Receiver) (line : Text)
    → failures_seen (feed_assertion r line) ≡ failures_seen r + one_if (is_some (doctest_fail line))
unfolding feed_assertion
feed_assertion-seen r line = ground (
  arith,
  finalize_failure-seen r,
  finalize_failure-seen (record r { current_test_passed = true }),
  feed_detail-seen r line,
  feed_detail-seen (record r { current_test_passed = true }) line,
)

pub feed_doctest-seen :
    (r : Receiver) (line : Text)
    → failures_seen (feed_doctest r line) ≡ failures_seen r + one_if (is_failure line)
unfolding feed_doctest
feed_doctest-seen r line = ground (arith, finalize_case-seen r, feed_assertion-seen r line)

feed_detail-done :
    (r : Receiver) (line : Text)
    → is_some (doctest_summary line) ≡ true
    → failures (feed_detail r line).results ≡ failures_seen r
unfolding feed_detail
feed_detail-done r line h = elim (Option-cases (doctest_summary line)) [
  | inl plain ↦ ground arith
  | inr (s, found) ↦ ground (
    arith,
    summarize-seen r s,
    summarize-seen (record r { doctest_fail_lines = r.doctest_fail_lines ++ line ∷ [] }) s,
  )
]

-- at the summary line every failure is among the results
pub feed_doctest-done :
    (r : Receiver) (line : Text)
    → is_summary line ≡ true
    → failures (feed_doctest r line).results ≡ failures_seen r
unfolding feed_doctest feed_assertion
feed_doctest-done r line h = ground (
  arith,
  feed_detail-done r line,
  feed_detail-done (record r { current_test_passed = true }) line,
)
