-- ===== src/Runner/Results/Tracked.antt =====
-- The messages of failed assertions, over any lines (src/etst/runner.py: `_check_assertion_failure`).
use embedded_test_runner.Base.{
  ◌≡◌, refl, sym, ap, ◌∙◌, Bool, true, false, Option, none, some, List, [], ◌∷◌, ◌++◌, Text, arith,
  text_eq, text_eq_iff, append_assoc, append-nil, Bool-cases, Option-cases, inl, inr, if◌then◌else◌,
}
use embedded_test_runner.Base.Dict.{insert, lookup-insert}
use embedded_test_runner.Runner.Results.{
  Failures, or_unknown, failure_in, messages_of, check_assertion_failure,
}

-- a line of output, with the full name of the test that is current when it comes
pub record Output : Type 0 where
  pub test : Text
  pub line : Text

unfoldable pub track : List Output → Failures → Failures
track [] failures = failures
track (o ∷ output) failures = track output (check_assertion_failure o.test o.line failures)

abbrev pub message_list : Option Text → List Text
message_list none = []
message_list (some message) = message ∷ []

-- the messages in the output of a test, or outside of any test for "unknown"
unfoldable pub messages_in : Text → List Output → List Text
messages_in name [] = []
messages_in name (o ∷ output) =
    let rest = messages_in name output in
    if text_eq name (or_unknown o.test) then message_list (failure_in o.line) ++ rest else rest

messages_of-insert :
    (name k : Text) (messages : List Text) (failures : Failures)
    → messages_of name (insert k messages failures)
      ≡ (if text_eq name k then messages else messages_of name failures)
unfolding messages_of
messages_of-insert name k messages failures = ground (arith, lookup-insert name k messages failures)

-- the messages that a line adds for a test
abbrev added : Bool → Option Text → List Text
added b message = if b then message_list message else []

added-none : (b : Bool) → added b none ≡ []
added-none true = refl
added-none false = refl

recorded :
    (name k message : Text) (failures : Failures)
    → messages_of name (insert k (messages_of k failures ++ message ∷ []) failures)
      ≡ messages_of name failures ++ added (text_eq name k) (some message)
recorded name k message failures = elim (Bool-cases (text_eq name k)) [
  | inl same ↦
      messages_of-insert name k (messages_of k failures ++ message ∷ []) failures
      ∙ rw same
          (ap (λ n. messages_of n failures ++ message ∷ []) (sym ((text_eq_iff name k).0 same)))
  | inr other ↦
      messages_of-insert name k (messages_of k failures ++ message ∷ []) failures
      ∙ rw other (sym (append-nil (messages_of name failures)))
]

check_assertion_failure-quiet :
    (test line : Text) (failures : Failures)
    → failure_in line ≡ none
    → check_assertion_failure test line failures ≡ failures
unfolding check_assertion_failure
check_assertion_failure-quiet test line failures h = rw (h, check_assertion_failure) refl

check_assertion_failure-failed :
    (test line : Text) (failures : Failures) {message : Text}
    → failure_in line ≡ some message
    → check_assertion_failure test line failures
      ≡ insert (or_unknown test) (messages_of (or_unknown test) failures ++ message ∷ []) failures
unfolding check_assertion_failure
check_assertion_failure-failed test line failures h = rw (h, check_assertion_failure) refl

messages_of-check_assertion_failure :
    (name : Text) (o : Output) (failures : Failures)
    → messages_of name (check_assertion_failure o.test o.line failures)
      ≡ messages_of name failures ++ added (text_eq name (or_unknown o.test)) (failure_in o.line)
messages_of-check_assertion_failure name o failures = elim (Option-cases (failure_in o.line)) [
  | inl quiet ↦
      ap (messages_of name) (check_assertion_failure-quiet o.test o.line failures quiet)
      ∙ sym (append-nil (messages_of name failures))
      ∙ ap (◌++◌ (messages_of name failures)) (
          sym (
            ap (added (text_eq name (or_unknown o.test))) quiet
            ∙ added-none (text_eq name (or_unknown o.test))))
  | inr (message, failed) ↦
      ap (messages_of name) (check_assertion_failure-failed o.test o.line failures failed)
      ∙ recorded name (or_unknown o.test) message failures
      ∙ ap (λ m. messages_of name failures ++ added (text_eq name (or_unknown o.test)) m)
          (sym failed)
]

messages_in-added :
    (name : Text) (o : Output) (output : List Output)
    → messages_in name (o ∷ output)
      ≡ added (text_eq name (or_unknown o.test)) (failure_in o.line) ++ messages_in name output
unfolding messages_in
messages_in-added name o output = ground arith

-- After any output, the messages recorded for a test are those recorded before, and then those of the
-- lines of that test's output which report a failed assertion, each once and in the order of the
-- lines; what comes outside of any test is recorded under "unknown".
pub messages_of-track :
    (name : Text) (output : List Output) (failures : Failures)
    → messages_of name (track output failures)
      ≡ messages_of name failures ++ messages_in name output
unfolding track messages_in
messages_of-track name [] failures = sym (append-nil (messages_of name failures))
messages_of-track name (o ∷ output) failures =
    messages_of-track name output (check_assertion_failure o.test o.line failures)
    ∙ ap (λ ms. ms ++ messages_in name output) (messages_of-check_assertion_failure name o failures)
    ∙ append_assoc (messages_of name failures) _ (messages_in name output)
    ∙ ap (◌++◌ (messages_of name failures)) (sym (messages_in-added name o output))
