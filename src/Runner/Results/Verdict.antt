-- ===== src/Runner/Results/Verdict.antt =====
-- What a settled suite says of the session (src/etst/runner.py: `_report_test_failures`,
-- `_ensure_test_results`, `_check_for_under_run`).
use embedded_test_runner.Base.{
  ◌≡◌, refl, sym, ◌∙◌, Bool, true, false, Option, none, some, List, [], ◌∷◌, Text, codes, length,
  any_of, filter, any_of-filter, any_of-weaken, arith, Every, All, Bool-cases, inl, inr,
}
use embedded_test_runner.Base.Int.{ℤ, pos, ◌≤ℤ◌}
use embedded_test_runner.Base.Dict.{contains, keys, contains_self, Every-contains, All-contains}
use embedded_test_runner.Runner.Results.{
  Platform, IsPlatform, Failures, is_blank, is_named, is_failed, is_bad, report_test_failures, keep,
  ensure_test_results, check_for_under_run, settle, under_run_message,
}
use embedded_test_runner.Runner.Results.Suite.{
  any_of-add_case, report-failed, is_failed-keep, is_failed-named, add_passed-any, add_passed-named,
  contains-names_of,
}

-- a test with a failed assertion that has a name
abbrev pub IsSolid : Text → Type 0
IsSolid name = is_blank name ≡ false

module _ {Case Status : Type 0} (p : Platform Case Status) (laws : IsPlatform p) where
  under_run-any :
      (q : Case → Bool) (completed : List Text) (expected : ℤ) (cases : List Case)
      → any_of q cases ≡ true
      → any_of q (check_for_under_run p completed expected cases) ≡ true
  unfolding check_for_under_run
  under_run-any q completed expected cases h = ground (
    arith,
    any_of-add_case p laws q
        (p.test_case (codes "runner/under_run") p.errored
          (some (under_run_message expected (pos (length completed)))) none)
        cases,
  )

  -- what is kept of the cases is in the settled suite
  settle-any :
      (q : Case → Bool) (completed : List Text) (failures : Failures) (expected : ℤ)
      (cases : List Case)
      → any_of q (filter (keep p completed) cases) ≡ true
      → any_of q (settle p completed failures expected cases) ≡ true
  unfolding settle ensure_test_results
  settle-any q completed failures expected cases h =
      under_run-any q completed expected _ (add_passed-any p laws q _ failures completed _ h)

  settle-failed :
      (completed : List Text) (failures : Failures) (expected : ℤ) (cases : List Case)
      → (t : Text) → is_blank t ≡ false
      → contains t (keys failures) ≡ true
      → any_of
          (is_failed p t)
          (settle p completed failures expected (report_test_failures p failures cases))
        ≡ true
  settle-failed completed failures expected cases t solid e =
      settle-any (is_failed p t) completed failures expected _ (
        any_of-filter (is_failed p t) (keep p completed)
          (λ (c : Case) k. (is_failed-keep p laws completed t solid c k).0) _
          (All-contains _ (keys failures) (report-failed p laws failures cases) t e))

  settle-fresh :
      (completed : List Text) (failures : Failures) (expected : ℤ) (cases : List Case)
      → (t : Text) → contains t completed ≡ true
      → contains t (keys failures) ≡ false
      → any_of (is_named p t) (settle p completed failures expected cases) ≡ true
  unfolding settle ensure_test_results
  settle-fresh completed failures expected cases t e fresh =
      under_run-any (is_named p t) completed expected _ (
        add_passed-named p laws _ failures completed _
          (λ (u : Text) k. sym (contains-names_of p laws u _) ∙ k) t e fresh)

  is_bad-errored :
      (name : Text) (message stdout : Option Text)
      → is_bad p (p.test_case name p.errored message stdout) ≡ true
  unfolding is_bad
  is_bad-errored name message stdout =
      rw (laws.status_of-test_case name p.errored message stdout)
        (ground (arith, laws.same_status_iff p.errored p.passed, laws.errored≢passed))

  abbrev under_run_case : List Text → ℤ → Case
  under_run_case completed expected =
      p.test_case (codes "runner/under_run") p.errored
        (some (under_run_message expected (pos (length completed)))) none

  is_bad-under_run :
      (completed : List Text) (expected : ℤ) → is_bad p (under_run_case completed expected) ≡ true
  is_bad-under_run completed expected = is_bad-errored _ _ _

  under_run_case-bad :
      (completed : List Text) (expected : ℤ) (cases : List Case)
      → any_of (is_bad p) (p.add_case (under_run_case completed expected) cases) ≡ true
  under_run_case-bad completed expected cases = ground (
    arith,
    any_of-add_case p laws (is_bad p) (under_run_case completed expected) cases,
    is_bad-under_run completed expected,
  )

  under_run-bad :
      (completed : List Text) (expected : ℤ) (cases : List Case)
      → any_of (is_bad p) (check_for_under_run p completed expected cases) ≡ false
      → expected ≤ℤ pos (length completed)
  unfolding check_for_under_run
  under_run-bad completed expected cases h =
      ground (arith, h, under_run_case-bad completed expected cases)

  -- With a suite that does what `IsPlatform` says: after the failures have been reported, the settled
  -- suite has a case for every test that started, and a FAILED case for every test with a failed
  -- assertion, if the names of those are not blank.
  pub settle_complete :
      (completed : List Text) (failures : Failures) (expected : ℤ) (cases : List Case)
      → All IsSolid (keys failures)
      → Every
          (λ (t : Text).
            any_of
              (is_named p t)
              (settle p completed failures expected (report_test_failures p failures cases)))
          completed
        × Every
            (λ (t : Text).
              any_of
                (is_failed p t)
                (settle p completed failures expected (report_test_failures p failures cases)))
            (keys failures)
  settle_complete completed failures expected cases solid = (
    Every-contains _ completed (λ (t : Text) e. elim (Bool-cases (contains t (keys failures))) [
      | inl k ↦ any_of-weaken (is_failed p t) (is_named p t) (is_failed-named p laws t) _ (
          settle-failed completed failures expected cases t
            (All-contains IsSolid (keys failures) solid t k) k)
      | inr fresh ↦ settle-fresh completed failures expected _ t e fresh
    ]),
    Every-contains _ (keys failures) (λ (t : Text) k.
        settle-failed completed failures expected cases t
          (All-contains IsSolid (keys failures) solid t k) k),
  )

  no_failures :
      (failures : Failures) (completed : List Text) (expected : ℤ) (cases : List Case)
      → All IsSolid (keys failures)
      → any_of
          (is_bad p)
          (settle p completed failures expected (report_test_failures p failures cases))
        ≡ false
      → failures ≡ []
  unfolding keys
  no_failures [] completed expected cases solid h = refl
  no_failures ((name, messages) ∷ failures) completed expected cases solid h = ground (
    arith,
    h,
    any_of-weaken (is_failed p name) (is_bad p)
        (λ (c : Case) k. (is_failed-keep p laws completed name solid.0 c k).1) _
        (settle-failed completed ((name, messages) ∷ failures) expected cases name solid.0
          (contains_self name (keys failures))),
  )

  -- With a suite that does what `IsPlatform` says: a settled suite whose cases have all passed, once
  -- the failures have been reported, proves a full run. No assertion failed, at least as many tests
  -- started as the device had announced, and every one of them has a case, if the names of the
  -- tests with a failed assertion are not blank.
  pub settle_passed :
      (completed : List Text) (failures : Failures) (expected : ℤ) (cases : List Case)
      → All IsSolid (keys failures)
      → any_of
          (is_bad p)
          (settle p completed failures expected (report_test_failures p failures cases))
        ≡ false
      → (failures ≡ [])
        × (expected ≤ℤ pos (length completed))
        × Every
            (λ (t : Text).
              any_of
                (is_named p t)
                (settle p completed failures expected (report_test_failures p failures cases)))
            completed
  unfolding settle
  settle_passed completed failures expected cases solid h = (
    no_failures failures completed expected cases solid h,
    under_run-bad completed expected _ h,
    (settle_complete completed failures expected cases solid).0,
  )
