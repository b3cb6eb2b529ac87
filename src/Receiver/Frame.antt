-- ===== src/Receiver/Frame.antt =====
-- What the doctest branch leaves alone: the framework, and `is_complete` up to the summary.
use embedded_test_runner.Base.{
  if◌then◌else◌, ◌≡◌, refl, ◌∙◌, Bool, true, false, Option, none, some, [], ◌∷◌, ◌++◌, Text, arith,
  Option-cases, inl, inr,
}
use embedded_test_runner.Receiver.Patterns.{doctest_summary, doctest_fail, is_some, Summary}
use embedded_test_runner.Receiver.{
  Receiver, finalize_doctest_failure, finalize_doctest_case, add_pass, summarize, feed_detail,
  feed_assertion, feed_doctest,
}
use embedded_test_runner.Receiver.Doctest.{is_summary}

abbrev pub SameFramework : Receiver → Receiver → Type 0
SameFramework r q = q.detected_framework ≡ r.detected_framework

-- the framework and the completeness are those of before
abbrev pub Same : Receiver → Receiver → Type 0
Same r q = SameFramework r q × (q.is_complete ≡ r.is_complete)

finalize_failure-Same : (r : Receiver) → Same r (finalize_doctest_failure r)
unfolding finalize_doctest_failure
finalize_failure-Same r = ground arith

add_pass-Same :
    (r : Receiver) (name : Option Text) (passed : Bool) → Same r (add_pass r name passed)
unfolding add_pass
add_pass-Same r none passed = (refl, refl)
add_pass-Same r (some []) passed = (refl, refl)
add_pass-Same r (some (c ∷ s)) false = (refl, refl)
add_pass-Same r (some (c ∷ s)) true = (refl, refl)

finalize_case-Same : (r : Receiver) → Same r (finalize_doctest_case r)
unfolding finalize_doctest_case
finalize_case-Same r =
    let r1 = finalize_doctest_failure r in
    let one = finalize_failure-Same r in
    let two = add_pass-Same r1 r1.current_test_name r1.current_test_passed in
    (two.0 ∙ one.0, two.1 ∙ one.1)

-- after a line: the framework is kept, and the run is complete if it was or if this is the summary
abbrev pub Ends : Receiver → Bool → Receiver → Type 0
Ends r summary q = SameFramework r q × (q.is_complete ≡ (if summary then true else r.is_complete))

summarize-Ends : (r : Receiver) (s : Summary) → Ends r true (summarize r s)
unfolding summarize
summarize-Ends r s = ground (arith, finalize_case-Same r)

feed_detail-Ends :
    (r : Receiver) (line : Text) → Ends r (is_some (doctest_summary line)) (feed_detail r line)
unfolding feed_detail
feed_detail-Ends r line = elim (Option-cases (doctest_summary line)) [
  | inl plain ↦ ground arith
  | inr (s, found) ↦ ground (
    arith,
    summarize-Ends r s,
    summarize-Ends (record r { doctest_fail_lines = r.doctest_fail_lines ++ line ∷ [] }) s,
  )
]

feed_assertion-Ends :
    (r : Receiver) (line : Text)
    → Ends r
        (elim (doctest_fail line) [ some _ ↦ false | none ↦ is_some (doctest_summary line) ])
        (feed_assertion r line)
unfolding feed_assertion
feed_assertion-Ends r line = ground (
  arith,
  finalize_failure-Same r,
  finalize_failure-Same (record r { current_test_passed = true }),
  feed_detail-Ends r line,
  feed_detail-Ends (record r { current_test_passed = true }) line,
)

pub feed_doctest-Ends :
    (r : Receiver) (line : Text) → Ends r (is_summary line) (feed_doctest r line)
unfolding feed_doctest
feed_doctest-Ends r line = ground (arith, finalize_case-Same r, feed_assertion-Ends r line)
