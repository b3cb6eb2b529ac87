-- ===== src/Runner/Summary/Counts.antt =====
-- The counts of the summary (src/etst/runner.py: `_print_summary`, `_check_for_under_run`).
use embedded_test_runner.Base.{
  ◌≡◌, refl, sym, ap, subst, ◌∙◌, ℕ, suc, ◌+◌, true, false, none, some, List, [], ◌∷◌, Text, codes,
  arith, length, filter, All, text_eq, text_eq_iff, Bool-cases, inl, inr, if◌then◌else◌,
}
use embedded_test_runner.Base.Int.{ℤ, pos}
use embedded_test_runner.Base.Dict.{contains, keys}
use embedded_test_runner.ReadyRun.Session.{Distinct}
use embedded_test_runner.Runner.Results.{Failures, Platform, check_for_under_run, under_run_message}
use embedded_test_runner.Runner.Summary.{passed_tests, falls_short}

-- how many of the tests are in the list
count_in : List Text → List Text → ℕ
count_in names [] = 0
count_in names (t ∷ ts) = (if contains t names then 1 else 0) + count_in names ts

passed-count_in :
    (completed : List Text) (failures : Failures)
    → length (passed_tests completed failures) + count_in (keys failures) completed
      ≡ length completed
unfolding passed_tests filter count_in
passed-count_in [] failures = refl
passed-count_in (t ∷ ts) failures = ground (arith, passed-count_in ts failures)

count_in-none : (ts : List Text) → count_in [] ts ≡ 0
unfolding count_in contains
count_in-none [] = refl
count_in-none (t ∷ ts) = ground (arith, count_in-none ts)

-- a name that is not among the tests counts for nothing
count_in-absent :
    (x : Text) (names ts : List Text)
    → contains x ts ≡ false
    → count_in (x ∷ names) ts ≡ count_in names ts
unfolding count_in contains
count_in-absent x names [] h = refl
count_in-absent x names (t ∷ ts) h =
    ground (arith, count_in-absent x names ts, text_eq_iff x t, text_eq_iff t x)

count_in-present :
    (x : Text) (names ts : List Text)
    → contains x names ≡ false
    → Distinct ts
    → contains x ts ≡ true
    → count_in (x ∷ names) ts ≡ suc (count_in names ts)
unfolding count_in contains
count_in-present x names [] h d e = ground (arith, e)
count_in-present x names (t ∷ ts) h d e = elim (Bool-cases (text_eq x t)) [
  | inl same ↦
      let equal : x ≡ t = (text_eq_iff x t).0 same in
      let gone = count_in-absent x names ts (subst (λ y. contains y ts ≡ false) (sym equal) d.0) in
      let fresh = subst (λ y. contains y names ≡ false) equal h in
      ground (arith, gone, fresh, (text_eq_iff t x).1 (sym equal))
  | inr other ↦
      ground (arith, count_in-present x names ts h d.1, other, text_eq_iff t x, text_eq_iff x t)
]

count_in-Distinct :
    (names ts : List Text)
    → Distinct names
    → Distinct ts
    → All (λ name. contains name ts ≡ true) names
    → count_in names ts ≡ length names
count_in-Distinct [] ts d k h = count_in-none ts
count_in-Distinct (x ∷ names) ts d k h =
    count_in-present x names ts d.0 k h.0 ∙ ap suc (count_in-Distinct names ts d.1 k h.1)

-- The counts of the summary add up: where no test is listed twice, and each test with a failed
-- assertion, listed once, is one of those that ran, as many tests passed and failed as ran. A failed
-- assertion outside a test, which is recorded under "unknown", is left out by the condition.
pub passed_tests-counts :
    (completed : List Text) (failures : Failures)
    → Distinct completed
    → Distinct (keys failures)
    → All (λ name. contains name completed ≡ true) (keys failures)
    → length (passed_tests completed failures) + length (keys failures) ≡ length completed
passed_tests-counts completed failures d k h =
    ap (◌+◌ (length (passed_tests completed failures)))
      (sym (count_in-Distinct (keys failures) completed k d h))
    ∙ passed-count_in completed failures

-- The summary says that tests never ran exactly when the suite gets the case of an under-run: the
-- two tests of the counts, which the code writes differently, are the same.
check_for_under_run-falls_short :
    {Case Status : Type 0} (p : Platform Case Status) (completed : List Text) (expected : ℤ)
    (cases : List Case)
    → check_for_under_run p completed expected cases ≡ (
        if falls_short expected (pos (length completed))
        then p.add_case
            (p.test_case
              (codes "runner/under_run")
              p.errored
              (some (under_run_message expected (pos (length completed))))
              none)
            cases
        else cases)
unfolding check_for_under_run falls_short
check_for_under_run-falls_short p completed expected cases = ground arith
