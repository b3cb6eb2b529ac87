-- ===== src/Receiver/Failed.antt =====
-- A doctest case with a failure is reported as failed only.
use mathlib.Core.Path.{subst₂}
use embedded_test_runner.Base.{All-append}
use embedded_test_runner.Base.{
  ◌≡◌, ◌≢◌, refl, sym, ap, subst, ◌∙◌, true, false, Option, none, some, List, [], ◌∷◌, ◌++◌, Text,
  arith, All, append_assoc, append-nil, Bool-cases, Option-cases, inl, inr,
}
use embedded_test_runner.Receiver.Patterns.{doctest_testcase, doctest_fail, doctest_summary}
use embedded_test_runner.Receiver.{
  TestResult, Receiver, chomp, finalize_doctest_failure, finalize_doctest_case, add_pass,
  failure_of, feed_detail, feed_assertion, feed_doctest, feed, noticed,
}
use embedded_test_runner.Receiver.Doctest.{is_summary}
use embedded_test_runner.Receiver.Results.{IsReading, IsDetail, play, feed-reading, feed-IsReading}

-- results that were added, failed ones only
abbrev pub FailuresAdded : List TestResult → List TestResult → Type 0
FailuresAdded xs ys =
    (more : List TestResult) × (ys ≡ xs ++ more) × All (λ (x : TestResult). x.passed ≡ false) more

FailuresAdded-refl : (xs : List TestResult) → FailuresAdded xs xs
FailuresAdded-refl xs = ([], sym (append-nil xs), tt)

FailuresAdded-trans :
    (xs ys zs : List TestResult) → FailuresAdded xs ys → FailuresAdded ys zs → FailuresAdded xs zs
FailuresAdded-trans xs ys zs (more, p, h) (rest, q, k) = (
  more ++ rest,
  q ∙ ap (λ r. r ++ rest) p ∙ append_assoc xs more rest,
  All-append _ more rest h k,
)

finalize_failure-FailuresAdded :
    (r : Receiver) → FailuresAdded r.results (finalize_doctest_failure r).results
unfolding finalize_doctest_failure
finalize_failure-FailuresAdded r = elim (Bool-cases r.in_doctest_failure) [
  | inl pending ↦ (failure_of r ∷ [], ground arith, (refl, tt))
  | inr idle ↦ ([], ground (arith, append-nil r.results), tt)
]

finalize_failure-passed :
    (r : Receiver)
    → r.in_doctest_failure ≡ true
    → (finalize_doctest_failure r).current_test_passed ≡ false
unfolding finalize_doctest_failure
finalize_failure-passed r h = ground arith

add_pass-false : (r : Receiver) (name : Option Text) → add_pass r name false ≡ r
unfolding add_pass
add_pass-false r none = refl
add_pass-false r (some []) = refl
add_pass-false r (some (c ∷ name)) = refl

finalize_case-FailuresAdded :
    (r : Receiver)
    → r.in_doctest_failure ≡ true
    → FailuresAdded r.results (finalize_doctest_case r).results
unfolding finalize_doctest_case
finalize_case-FailuresAdded r h =
    rw (finalize_failure-passed r h, add_pass-false) (finalize_failure-FailuresAdded r)

-- a line that is no header and no summary keeps the failure open
abbrev Still : Receiver → Receiver → Type 0
Still r q = (q.in_doctest_failure ≡ true) × FailuresAdded r.results q.results

feed_detail-Still :
    (r : Receiver) (line : Text)
    → r.in_doctest_failure ≡ true
    → doctest_summary line ≡ none
    → Still r (feed_detail r line)
unfolding feed_detail
feed_detail-Still r line h s = (ground arith, ([], ground (arith, append-nil r.results), tt))

not_summary :
    (line : Text)
    → is_summary line ≡ false
    → doctest_testcase line ≡ none
    → doctest_fail line ≡ none
    → doctest_summary line ≡ none
not_summary line s t f = ground arith

-- the branches of the two functions, as equations
feed_doctest-inside :
    (r : Receiver) (line : Text)
    → doctest_testcase line ≡ none
    → feed_doctest r line ≡ feed_assertion r line
unfolding feed_doctest
feed_doctest-inside r line t = rw (t, feed_doctest)

results-header :
    (r : Receiver) (line name : Text)
    → doctest_testcase line ≡ some name
    → (feed_doctest r line).results ≡ (finalize_doctest_case r).results
unfolding feed_doctest
results-header r line name t = rw (t, feed_doctest)

feed_assertion-detail :
    (r : Receiver) (line : Text)
    → doctest_fail line ≡ none
    → feed_assertion r line ≡ feed_detail (noticed r line) line
unfolding feed_assertion
feed_assertion-detail r line f = rw (f, feed_assertion)

feed_assertion-fail :
    (r : Receiver) (line source : Text)
    → doctest_fail line ≡ some source
    → ((feed_assertion r line).results ≡ (finalize_doctest_failure (noticed r line)).results)
      × ((feed_assertion r line).in_doctest_failure ≡ true)
unfolding feed_assertion
feed_assertion-fail r line source f = rw (f, feed_assertion) (refl, refl)

noticed-same :
    (r : Receiver) (line : Text)
    → ((noticed r line).results ≡ r.results)
      × ((noticed r line).in_doctest_failure ≡ r.in_doctest_failure)
noticed-same r line = ground arith

feed_assertion-Still :
    (r : Receiver) (line : Text)
    → r.in_doctest_failure ≡ true
    → is_summary line ≡ false
    → doctest_testcase line ≡ none
    → Still r (feed_assertion r line)
feed_assertion-Still r line h s t =
    let (same, open') = noticed-same r line in
    elim (Option-cases (doctest_fail line)) [
      | inr (source, f) ↦
          let (results, pending) = feed_assertion-fail r line source f in
          let added = finalize_failure-FailuresAdded (noticed r line) in
          (pending, subst₂ FailuresAdded same (sym results) added)
      | inl f ↦
          let (pending, added) =
            feed_detail-Still (noticed r line) line (open' ∙ h) (not_summary line s t f) in
          let e = feed_assertion-detail r line f in
          (
            ap (λ (q : Receiver). q.in_doctest_failure) e ∙ pending,
            subst₂ FailuresAdded same (sym (ap (λ (q : Receiver). q.results) e)) added,
          )
    ]

feed_doctest-Still :
    (r : Receiver) (line : Text)
    → r.in_doctest_failure ≡ true
    → is_summary line ≡ false
    → doctest_testcase line ≡ none
    → Still r (feed_doctest r line)
feed_doctest-Still r line h s t =
    subst (Still r) (sym (feed_doctest-inside r line t)) (feed_assertion-Still r line h s t)

-- a line inside a test case
abbrev pub IsInside : Text → Type 0
IsInside l = IsDetail l × (doctest_testcase (chomp l) ≡ none)

play-Still :
    (r : Receiver) (ls : List Text)
    → IsReading r
    → r.in_doctest_failure ≡ true
    → All IsInside ls
    → IsReading (play r ls) × Still r (play r ls)
play-Still r [] reading h d = (reading, (h, FailuresAdded-refl r.results))
play-Still r (l ∷ ls) reading h d =
    let one : Still r (feed r l) =
      rw (feed-reading r l reading) (feed_doctest-Still r (chomp l) h d.0.0 d.0.1) in
    let (reading', more) = play-Still (feed r l) ls (feed-IsReading r l reading d.0.0) one.0 d.1 in
    (reading', (more.0, FailuresAdded-trans _ _ _ one.1 more.1))

header_adds :
    (r : Receiver) (line : Text)
    → r.in_doctest_failure ≡ true
    → doctest_testcase line ≢ none
    → FailuresAdded r.results (feed_doctest r line).results
header_adds r line h t = elim (Option-cases (doctest_testcase line)) [
  | inl none' ↦ absurd (t none')
  | inr (name, found) ↦
      subst (FailuresAdded r.results) (sym (results-header r line name found))
        (finalize_case-FailuresAdded r h)
]

-- Once a test case of doctest has a failure, all results up to and including those that the header
-- of the next test case records are failed ones, whatever lines but a header or the summary stand
-- in between: the test is not reported as passed as well.
pub failed_case :
    (r : Receiver) (ls : List Text) (header : Text)
    → IsReading r
    → r.in_doctest_failure ≡ true
    → All IsInside ls
    → doctest_testcase (chomp header) ≢ none
    → FailuresAdded r.results (feed (play r ls) header).results
failed_case r ls header reading h d t =
    let (reading', still) = play-Still r ls reading h d in
    let p = play r ls in
    FailuresAdded-trans _ _ _ still.1
      (rw (feed-reading p header reading') (header_adds p (chomp header) still.0 t))
