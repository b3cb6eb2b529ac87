-- ===== src/Runner/Results/Suite.antt =====
-- What the steps that settle the results do to the suite (src/etst/runner.py:
-- `_report_test_failures`, `_ensure_test_results`).
use embedded_test_runner.Base.{
  ◌≡◌, refl, ap, subst, ◌∙◌, Bool, true, false, not, ◌&&◌, ◌||◌, Option, none, List, [], ◌∷◌, Text,
  text_eq, text_eq_iff, text_eq_refl, any_of, any_of-append, arith, All, Bool-cases, inl, inr,
  if◌then◌else◌,
}
use embedded_test_runner.Base.Dict.{contains, keys}
use embedded_test_runner.Runner.Results.{
  Platform, IsPlatform, Failures, is_blank, is_named, is_failed, is_bad, report_one,
  report_test_failures, keep, add_passed, names_of, failed_test_case,
}

module _ {Case Status : Type 0} (p : Platform Case Status) (laws : IsPlatform p) where
  pub any_of-add_case :
      (q : Case → Bool) (c : Case) (cases : List Case)
      → any_of q (p.add_case c cases) ≡ (any_of q cases || q c)
  unfolding any_of
  any_of-add_case q c cases =
      ap (any_of q) (laws.add_case-append c cases) ∙ any_of-append q cases (c ∷ []) ∙ ground arith

  is_named-test_case :
      (name : Text) (status : Status) (message stdout : Option Text)
      → is_named p name (p.test_case name status message stdout) ≡ true
  unfolding is_named
  is_named-test_case name status message stdout =
      rw (laws.name_of-test_case name status message stdout) (text_eq_refl name)

  is_failed-test_case :
      (name : Text) (message stdout : Option Text)
      → is_failed p name (p.test_case name p.failed message stdout) ≡ true
  unfolding is_failed
  is_failed-test_case name message stdout =
      rw
        (
          is_named-test_case name p.failed message stdout,
          laws.status_of-test_case name p.failed message stdout,
          (laws.same_status_iff p.failed p.failed).1 refl,
        )
        refl

  failed_test_case-failed :
      (name : Text) (messages : List Text)
      → is_failed p name (failed_test_case p name messages) ≡ true
  failed_test_case-failed name messages = is_failed-test_case name _ _

  -- a reported case stays
  report_one-any :
      (q : Case → Bool) (name : Text) (messages : List Text) (cases : List Case)
      → any_of q cases ≡ true
      → any_of q (report_one p name messages cases) ≡ true
  unfolding report_one
  report_one-any q name messages cases h =
      ground (arith, any_of-add_case q (failed_test_case p name messages) cases)

  report_one-failed :
      (name : Text) (messages : List Text) (cases : List Case)
      → any_of (is_failed p name) (report_one p name messages cases) ≡ true
  unfolding report_one
  report_one-failed name messages cases = ground (
    arith,
    any_of-add_case (is_failed p name) (failed_test_case p name messages) cases,
    failed_test_case-failed name messages,
  )

  report-any :
      (q : Case → Bool) (failures : Failures) (cases : List Case)
      → any_of q cases ≡ true
      → any_of q (report_test_failures p failures cases) ≡ true
  unfolding report_test_failures
  report-any q [] cases h = h
  report-any q ((name, messages) ∷ failures) cases h =
      report-any q failures (report_one p name messages cases)
        (report_one-any q name messages cases h)

  -- every test with a failed assertion has a FAILED case
  pub report-failed :
      (failures : Failures) (cases : List Case)
      → All
          (λ (t : Text). any_of (is_failed p t) (report_test_failures p failures cases) ≡ true)
          (keys failures)
  unfolding report_test_failures keys
  report-failed [] cases = tt
  report-failed ((name, messages) ∷ failures) cases = (
    report-any (is_failed p name) failures _ (report_one-failed name messages cases),
    report-failed failures (report_one p name messages cases),
  )

  pub is_failed-keep :
      (completed : List Text) (t : Text)
      → is_blank t ≡ false
      → (c : Case) → is_failed p t c ≡ true
      → (keep p completed c ≡ true) × (is_bad p c ≡ true)
  unfolding is_failed is_named keep is_bad
  is_failed-keep completed t solid c h = ground (
    arith,
    text_eq_iff (p.name_of c) t,
    laws.same_status_iff (p.status_of c) p.failed,
    laws.same_status_iff (p.status_of c) p.passed,
    laws.failed≢passed,
  )

  pub is_failed-named : (t : Text) (c : Case) → is_failed p t c ≡ true → is_named p t c ≡ true
  unfolding is_failed
  is_failed-named t c h = ground (arith, h)

  add_one : List Text → Failures → Text → List Case → List Case
  add_one existing failures name cases =
      if not (contains name existing) && not (contains name (keys failures))
      then p.add_case (p.test_case name p.passed none none) cases
      else cases

  add_one-any :
      (q : Case → Bool) (existing : List Text) (failures : Failures) (name : Text)
      (cases : List Case)
      → any_of q cases ≡ true
      → any_of q (add_one existing failures name cases) ≡ true
  unfolding add_one
  add_one-any q existing failures name cases h =
      ground (arith, any_of-add_case q (p.test_case name p.passed none none) cases)

  add_one-named :
      (existing : List Text) (failures : Failures) (name : Text) (cases : List Case)
      → (contains name existing ≡ true → any_of (is_named p name) cases ≡ true)
      → contains name (keys failures) ≡ false
      → any_of (is_named p name) (add_one existing failures name cases) ≡ true
  unfolding add_one
  add_one-named existing failures name cases h e = ground (
    arith,
    h,
    any_of-add_case (is_named p name) (p.test_case name p.passed none none) cases,
    is_named-test_case name p.passed none none,
  )

  pub add_passed-any :
      (q : Case → Bool) (existing : List Text) (failures : Failures) (completed : List Text)
      (cases : List Case)
      → any_of q cases ≡ true
      → any_of q (add_passed p existing failures completed cases) ≡ true
  unfolding add_passed add_one
  add_passed-any q existing failures [] cases h = h
  add_passed-any q existing failures (name ∷ completed) cases h =
      add_passed-any q existing failures completed _ (add_one-any q existing failures name cases h)

  pub contains-names_of :
      (name : Text) (cases : List Case)
      → contains name (names_of p cases) ≡ any_of (is_named p name) cases
  unfolding contains names_of any_of is_named
  contains-names_of name [] = refl
  contains-names_of name (c ∷ cases) = ground (
    arith,
    text_eq_iff name (p.name_of c),
    text_eq_iff (p.name_of c) name,
    contains-names_of name cases,
  )

  pub add_passed-named :
      (existing : List Text) (failures : Failures) (completed : List Text) (cases : List Case)
      → ((t : Text) → contains t existing ≡ true → any_of (is_named p t) cases ≡ true)
      → (t : Text) → contains t completed ≡ true
      → contains t (keys failures) ≡ false
      → any_of (is_named p t) (add_passed p existing failures completed cases) ≡ true
  unfolding add_passed contains add_one
  add_passed-named existing failures [] cases h t e fresh = ground (arith, e)
  add_passed-named existing failures (name ∷ completed) cases h t e fresh =
      elim (Bool-cases (text_eq t name)) [
        | inl same ↦ add_passed-any (is_named p t) existing failures completed _ (
            subst (λ (n : Text). any_of (is_named p t) (add_one existing failures n cases) ≡ true)
              ((text_eq_iff t name).0 same) (add_one-named existing failures t cases (h t) fresh))
        | inr other ↦
            add_passed-named existing failures completed _
              (λ (u : Text) k. add_one-any (is_named p u) existing failures name cases (h u k)) t
              (ground (arith, e, other)) fresh
      ]
